-- ===== src/Datagram/Socket.antt =====
-- The state of a program with one datagram socket, and what `class socket` of includes/socket/socket.hpp
-- does with it: an object that no container owns, so that it is there as long as the program is.
--
-- A callback is a value: a constructor for the lambda that `udp::socket_impl` adds to an action, and one
-- for those of the program.
use Prim.Native.String.{String}
use unisock.Prelude.{
  ℕ, ℤ, negsuc, is_neg, Bool, true, false, some, List, [], length, if◌then◌else◌, ok, Cmd, ◌>>=◌,
  ◌>>◌, pure,
}
use unisock.Events.Action.{ActionCallback, execute}
use unisock.Events.Handler.{Ptr, Handler, add_socket, delete_socket}
use unisock.Socket.Address.{size}
use unisock.Socket.System.{Bytes, System}

pub data ReadFn : Type 0 where
  recvfrom_self : ReadFn
  user_read : ℕ → ReadFn

pub data DatagramFn : Type 0 where
  pass_receive : DatagramFn
  user_datagram : ℕ → DatagramFn

pub data EndFn : Type 0 where
  pass_closed : EndFn
  user_end : ℕ → EndFn

-- A call of a callback of the program, with its arguments: `event` of READABLE and WRITEABLE, `ended` of
-- CLOSED.
pub data DatagramCall : Type 0 where
  event : ℕ → DatagramCall
  ended : ℕ → DatagramCall
  failure : ℕ → String → ℤ → DatagramCall
  message : ℕ → Bytes → DatagramCall
  datagram : ℕ → Bytes → Bytes → DatagramCall
  addressed : ℕ → Bytes → DatagramCall

-- The kernel, the handler and the socket: its address in memory, its members and its actions.
pub record Datagram (K : Type 0) : Type 0 where
  pub kernel : K
  pub handler : Handler
  pub self : Ptr
  pub sock : ℤ
  pub address : Bytes
  pub readable : List (ActionCallback ReadFn)
  pub writeable : List (ActionCallback ℕ)
  pub closed : List (ActionCallback EndFn)
  pub error : List (ActionCallback ℕ)
  pub recvmsg : List (ActionCallback ℕ)
  pub recvfrom : List (ActionCallback DatagramFn)
  pub receive : List (ActionCallback ℕ)
  pub bound : List (ActionCallback ℕ)
  pub udp_closed : List (ActionCallback ℕ)

module _ {K : Type 0} where
  abbrev pub call {ℓ} : {A : Type ℓ} → (Datagram K → A × K) → Cmd (Datagram K) A
  call f w = let (a, k) = f w in ok a (record w { kernel = k })

  -- `execute` of an action, as it is when the call is made.
  abbrev pub run_action {ℓ} :
      {F : Type ℓ}
      → (F → Cmd (Datagram K) (Unit {0}))
      → (Datagram K → List (ActionCallback F))
      → Cmd (Datagram K) (Unit {0})
  run_action f action w = execute f (λ v. some (length (action v))) (action w) w

module _ {K : Type 0} (sys : System K) (user : DatagramCall → Cmd (Datagram K) (Unit {0})) where
  -- `execute<basic_actions::ERROR>(function, errno)`
  abbrev pub report : String → Cmd (Datagram K) (Unit {0})
  report function w =
      run_action (λ n. user (failure n function (sys.errno w.kernel))) (λ v. v.error) w

  -- `socket::open`
  unfoldable pub open_socket : ℕ → ℕ → ℕ → Cmd (Datagram K) Bool
  open_socket domain type protocol w =
      let (fd, k) = sys.socket domain type protocol w.kernel in
      let w' : Datagram K = record w { kernel = k; sock = if is_neg fd then negsuc 0 else fd } in
      if is_neg fd
      then (report "socket" >> pure false) w'
      else ok true (record w' { handler = add_socket w'.handler w'.sock w'.self })

  -- `socket::bind`
  unfoldable pub bind_socket : Cmd (Datagram K) Bool
  bind_socket = do
    r ← call (λ w. sys.bind w.sock w.address (size w.address) w.kernel)
    if is_neg r then report "bind" >> pure false else pure true

  -- What `udp::socket_impl` hooks to CLOSED.
  unfoldable pub run_end : EndFn → Cmd (Datagram K) (Unit {0})
  run_end pass_closed w = run_action (λ n. user (addressed n w.address)) (λ v. v.udp_closed) w
  run_end (user_end n) w = user (ended n) w

  -- `socket::close`
  unfoldable pub close_socket : Cmd (Datagram K) (Unit {0})
  unfolding run_end
  close_socket w =
      if is_neg w.sock
      then ok tt w
      else run_action run_end (λ v. v.closed)
          (record w {
            handler = delete_socket w.handler w.sock;
            kernel = sys.close w.sock w.kernel;
            sock = negsuc 0;
          })

-- A socket without callbacks and descriptor.
unfoldable pub new_socket : {K : Type 0} → K → Handler → Ptr → Datagram K
new_socket k h p = record {
  kernel = k;
  handler = h;
  self = p;
  sock = negsuc 0;
  address = unisock.Socket.Address.empty_address;
  readable = [];
  writeable = [];
  closed = [];
  error = [];
  recvmsg = [];
  recvfrom = [];
  receive = [];
  bound = [];
  udp_closed = [];
}
