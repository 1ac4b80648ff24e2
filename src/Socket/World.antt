-- ===== src/Socket/World.antt =====
-- The state that a program of the library shares: the kernel, one handler, the socket objects at their
-- addresses, the containers that own them, and the actions of one tcp::server and one tcp::client on that
-- handler. The fields of an object are those of `socket_base` and `socket` (includes/socket) and of
-- `tcp::connection_base` (includes/tcp/connection.hpp).
--
-- A callback is a value: a constructor for each lambda of the library, with what it captures, and one
-- for the callbacks of the program, which are numbered.
pub mod Memory
use Prim.Native.String.{String}
use unisock.Prelude.{
  ℕ, suc, ◌+◌, ℤ, Bool, true, false, Option, none, some, List, [], ◌∷◌, length, if◌then◌else◌, ◌==◌,
  ◌==ℤ◌, ltb_ℤ, Run, ok, fault, Cmd, dangling,
}
use mathlib.Core.Option
use unisock.Events.Action.{ActionCallback}
use unisock.Events.ActionHandler.{ActionHandler}
use unisock.Events.Tags.{Tag}
use unisock.Events.Handler.{Ptr, Handler}
use unisock.Socket.System.{Bytes}

-- The containers: the two of the server, and that of the client.
pub data Owner : Type 0 where
  listeners clients connections : Owner

-- The lambdas of READABLE: `accept(socket)` of a listener, `recv()` of a connection.
pub data ReadableFn : Type 0 where
  accept_on recv_on : Ptr → ReadableFn
  user_readable : ℕ → ReadableFn

-- Of WRITEABLE: `send_flush()`.
pub data WriteableFn : Type 0 where
  flush_on : Ptr → WriteableFn
  user_writeable : ℕ → WriteableFn

-- Of CLOSED: the erasure that a container adds, and what a server or a client passes on.
pub data ClosedFn : Type 0 where
  erase_from : Owner → ℤ → ClosedFn
  listener_closed client_disconnected connection_closed : Ptr → ClosedFn
  user_closed : ℕ → ClosedFn

-- Of RECV: what a server or a client passes on as RECEIVE.
pub data RecvFn : Type 0 where
  server_receive client_receive : Ptr → RecvFn
  user_recv : ℕ → RecvFn

-- A socket object. ERROR has callbacks of the program only.
pub record Connection : Type 0 where
  pub sock : ℤ
  pub address : Bytes
  pub send_buffer : List Bytes
  pub readable : List (ActionCallback ReadableFn)
  pub writeable : List (ActionCallback WriteableFn)
  pub closed : List (ActionCallback ClosedFn)
  pub error : List (ActionCallback ℕ)
  pub recv : List (ActionCallback RecvFn)

-- A call of a callback of the program: its number and its arguments.
pub data UserCall : Type 0 where
  -- READABLE, WRITEABLE and CLOSED of a socket
  socket_event : ℕ → UserCall
  socket_error : ℕ → String → ℤ → UserCall
  socket_recv : ℕ → Bytes → UserCall
  -- LISTEN, ACCEPT, DISCONNECT, CONNECT and CLOSED of a server or a client
  connection_event : Tag → ℕ → Ptr → UserCall
  receive_event : ℕ → Ptr → Bytes → UserCall
  error_event : ℕ → String → ℤ → UserCall

pub record World (K : Type 0) : Type 0 where
  pub kernel : K
  pub handler : Handler
  pub heap : Ptr → Option Connection
  pub next_ptr : Ptr
  pub containers : Owner → List (ℤ × Ptr)
  pub server_actions : ActionHandler ℕ
  pub client_actions : ActionHandler ℕ

unfoldable pub same_owner : Owner → Owner → Bool
same_owner listeners listeners = true
same_owner clients clients = true
same_owner connections connections = true
same_owner _ _ = false

module _ {K : Type 0} where
  unfoldable pub put_object : Ptr → Option Connection → World K → World K
  put_object p c w = record w { heap = λ q. if q == p then c else w.heap q }

  unfoldable pub put_container : Owner → List (ℤ × Ptr) → World K → World K
  put_container o m w = record w { containers = λ q. if same_owner q o then m else w.containers q }

  -- `*p`: undefined where no object is.
  unfoldable pub load : Ptr → Cmd (World K) Connection
  load p w = elim (w.heap p) [ none ↦ fault dangling | some c ↦ ok c w ]

  unfoldable pub store : Ptr → (Connection → Connection) → Cmd (World K) (Unit {0})
  unfolding put_object
  store p f w = elim (w.heap p) [
    | none ↦ fault dangling
    | some c ↦ ok tt (put_object p (some (f c)) w)
  ]

  -- A part of the state that is always there.
  abbrev pub change : (World K → World K) → Cmd (World K) (Unit {0})
  change f w = ok tt (f w)

  abbrev pub gets {ℓ} : {A : Type ℓ} → (World K → A) → Cmd (World K) A
  gets f w = ok (f w) w

  -- A system call without a result beside the `int`.
  abbrev pub syscall {ℓ} : {A : Type ℓ} → (K → A × K) → Cmd (World K) A
  syscall call w = let (a, k) = call w.kernel in ok a (record w { kernel = k })

  -- The length of a list of callbacks of an object, while the object is there.
  abbrev pub length_of {ℓ} :
      {F : Type ℓ} → Ptr → (Connection → List (ActionCallback F)) → World K → Option ℕ
  length_of p list w = Option.map (λ c. length (list c)) (w.heap p)

-- `std::map<int, …>`: the entries in the order of their keys.
unfoldable pub map_find : ℤ → List (ℤ × Ptr) → Option Ptr
map_find key [] = none
map_find key ((k, p) ∷ m) = let rest = map_find key m in if k ==ℤ key then some p else rest

-- At a key that is not there.
unfoldable pub map_insert : ℤ → Ptr → List (ℤ × Ptr) → List (ℤ × Ptr)
map_insert key p [] = (key, p) ∷ []
map_insert key p ((k, q) ∷ m) =
    let rest = map_insert key p m in if ltb_ℤ key k then (key, p) ∷ (k, q) ∷ m else (k, q) ∷ rest

unfoldable pub map_erase : ℤ → List (ℤ × Ptr) → List (ℤ × Ptr)
map_erase key [] = []
map_erase key ((k, q) ∷ m) = let rest = map_erase key m in if k ==ℤ key then m else (k, q) ∷ rest
