-- ===== src/Tcp/Invariant.antt =====
-- What holds of the shared state between two steps of the event loop: the handler names live objects
-- only, by their descriptors, and each object is owned by the container that its erasing callback names.
pub mod Kernel
pub mod Rows
pub mod Entries
pub mod Keeps
pub mod Hooks
pub mod Shut
pub mod Erased
pub mod Close
pub mod Connections
pub mod Welcome
pub mod Inserted
pub mod Accept
pub mod Making
pub mod Setup
pub mod Spares
pub mod Listen
pub mod Connect
pub mod Quiet
pub mod CloseAll
pub mod Turn
use unisock.Prelude.{
  ℕ, ◌<◌, ◌≤◌, ◌≡◌, ◌≢◌, ℤ, pos, is_neg, is_pos, Bool, true, false, Option, none, some, List, [],
  ◌∷◌, ◌++◌, length, All, Cmd, Returns,
}
use mathlib.Core.List.{Memᴰ}
use unisock.Events.Action.{ActionCallback, stops_after}
use unisock.Events.ActionHandler.{ActionHandler, get_action}
use unisock.Events.Tags.{
  Tag, basic, tcp, datagram, extended, receive, tcp_closed, recv, listen, accept, disconnect,
  connect, server_actions_list, client_actions_list,
}
use unisock.Events.Handler.{Ptr, PollFd}
use unisock.Events.Handler.Table.{IsAligned, table}
use unisock.Socket.System.{Bytes, System}
use unisock.Socket.Address.Answers.{AnswersFamily}
use unisock.Socket.World.{
  Owner, ReadableFn, accept_on, recv_on, user_readable, WriteableFn, flush_on, user_writeable,
  ClosedFn, erase_from, listener_closed, client_disconnected, connection_closed, user_closed,
  RecvFn, server_receive, client_receive, user_recv, Connection, UserCall, socket_event,
  socket_error, socket_recv, connection_event, receive_event, error_event, World, map_find,
}
use unisock.Socket.Container.{erase_flags}

-- A row of the handler: a live object, with that descriptor.
abbrev pub Row : {K : Type 0} → (K → ℤ → Bool) → World K → ℤ × Ptr → Type 0
Row is_open w (fd, p) =
    (c : Connection) × (w.heap p ≡ some c)
    × (c.sock ≡ fd)
    × (is_pos fd ≡ true)
    × (is_open w.kernel fd ≡ true)

-- No descriptor stands in two rows.
abbrev pub Distinct : List (ℤ × Ptr) → Type 0
Distinct [] = Unit
Distinct (r ∷ t) = All (λ s. s.0 ≢ r.0) t × Distinct t

abbrev pub erases : ClosedFn → Bool
erases (erase_from o key) = true
erases (listener_closed p) = false
erases (client_disconnected p) = false
erases (connection_closed p) = false
erases (user_closed n) = false

-- What the lambdas of the server and the client capture is the object itself.
abbrev pub OwnClosed : Ptr → ClosedFn → Type 0
OwnClosed p (erase_from o key) = Unit
OwnClosed p (listener_closed q) = q ≡ p
OwnClosed p (client_disconnected q) = q ≡ p
OwnClosed p (connection_closed q) = q ≡ p
OwnClosed p (user_closed n) = Unit

abbrev pub OwnRecv : Ptr → RecvFn → Type 0
OwnRecv p (server_receive q) = q ≡ p
OwnRecv p (client_receive q) = q ≡ p
OwnRecv p (user_recv n) = Unit

-- A callback of CLOSED before the erasing one.
abbrev pub IsNotice : Ptr → ActionCallback ClosedFn → Type 0
IsNotice p cb = (stops_after cb ≡ false) × (erases cb.exec ≡ false) × OwnClosed p cb.exec

-- The last callback of a list that ends in one.
abbrev pub last_exec : ClosedFn → List (ActionCallback ClosedFn) → ClosedFn
last_exec f [] = f
last_exec f (cb ∷ cbs) = last_exec cb.exec cbs

-- The object is the entry of its key in the container that its last callback of CLOSED erases it from.
pub record IsOwned {K : Type 0} (w : World K) (p : Ptr) (closed : List (ActionCallback ClosedFn))
    : Type 0 where
  pub owner : Owner
  pub key : ℤ
  pub notices : List (ActionCallback ClosedFn)
  pub shape : closed ≡ notices ++ record { exec = erase_from owner key; flags = erase_flags } ∷ []
  pub all_notices : All (IsNotice p) notices
  pub entry : map_find key (w.containers owner) ≡ some p

-- An entry with its object, whose last callback of CLOSED erases this entry.
abbrev pub HasObject : {K : Type 0} → World K → Owner → ℤ × Ptr → Type 0
HasObject w o (key, p) =
    (c : Connection) × (w.heap p ≡ some c) × (last_exec (user_closed 0) c.closed ≡ erase_from o key)

abbrev pub OwnReadable : Ptr → ReadableFn → Type 0
OwnReadable p (accept_on q) = q ≡ p
OwnReadable p (recv_on q) = q ≡ p
OwnReadable p (user_readable n) = Unit

abbrev pub OwnWriteable : Ptr → WriteableFn → Type 0
OwnWriteable p (flush_on q) = q ≡ p
OwnWriteable p (user_writeable n) = Unit

-- The callbacks that the loop runs are on the object itself, and at most one for each action: a second
-- one of READABLE or RECV is read from the object after the first may have destroyed it.
pub record IsModest (p : Ptr) (c : Connection) : Type 0 where
  pub readable : All (λ cb. OwnReadable p cb.exec) c.readable
  pub writeable : All (λ cb. OwnWriteable p cb.exec) c.writeable
  pub recv : All (λ cb. OwnRecv p cb.exec) c.recv
  pub one_readable : length c.readable ≤ 1
  pub one_writeable : length c.writeable ≤ 1
  pub one_error : length c.error ≤ 1
  pub one_recv : length c.recv ≤ 1
  pub positive : is_neg c.sock ≡ false → is_pos c.sock ≡ true

-- The actions of the server and the client whose callbacks get an object that they may close: a second
-- callback of one of these may get an object that the first has destroyed.
abbrev pub is_single : Tag → Bool
is_single (tcp receive) = true
is_single (tcp listen) = true
is_single (tcp accept) = true
is_single (tcp connect) = true
is_single (tcp tcp_closed) = false
is_single (tcp disconnect) = false
is_single (tcp recv) = false
is_single (basic t) = false
is_single (datagram t) = false
is_single (extended n) = false

-- No object is half closed: it is so between two steps of the loop.
abbrev pub IsCalm : {K : Type 0} → World K → Type 0
IsCalm w = (p : Ptr) (c : Connection) → w.heap p ≡ some c → is_neg c.sock ≡ false

-- Each tag of the class has an action, and those above have one callback at most.
abbrev pub HasActions : List Tag → ActionHandler ℕ → Type 0
HasActions tags actions =
    (t : Tag)
    → Memᴰ t tags
    → (l : List (ActionCallback ℕ)) × (get_action t actions ≡ some l)
      × (is_single t ≡ true → length l ≤ 1)

abbrev pub IsLive : {K : Type 0} → World K → Ptr → Type 0
IsLive w p = (c : Connection) × (w.heap p ≡ some c)

abbrev pub IsUp : {K : Type 0} → World K → Ptr → Type 0
IsUp w p = (c : Connection) × (w.heap p ≡ some c) × (is_neg c.sock ≡ false)

-- When the library calls a callback of the program: with an object that is there, and that is open
-- unless its closing is what the callback is told; and of RECEIVE, while no object is being closed.
abbrev pub IsCallable : {K : Type 0} → World K → UserCall → Type 0
IsCallable w (socket_event n) = Unit
IsCallable w (socket_error n function err) = Unit
IsCallable w (socket_recv n message) = Unit
IsCallable w (connection_event t n p) = IsLive w p × (is_single t ≡ true → IsUp w p)
IsCallable w (receive_event n p message) = IsUp w p × IsCalm w
IsCallable w (error_event n function err) = Unit

module _ {K : Type 0} (is_open : K → ℤ → Bool) where
  pub record Inv (w : World K) : Type 0 where
    pub aligned : IsAligned w.handler
    pub distinct : Distinct (table w.handler)
    pub rows : All (Row is_open w) (table w.handler)
    pub owned : (p : Ptr) (c : Connection) → w.heap p ≡ some c → IsOwned w p c.closed
    pub modest : (p : Ptr) (c : Connection) → w.heap p ≡ some c → IsModest p c
    pub entries : (o : Owner) → All (HasObject w o) (w.containers o)
    pub keys : (o : Owner) → Distinct (w.containers o)
    pub fresh : (p : Ptr) (c : Connection) → w.heap p ≡ some c → p < w.next_ptr
    pub stdin : is_open w.kernel (pos 0) ≡ true
    pub server_tags : HasActions (server_actions_list []) w.server_actions
    pub client_tags : HasActions (client_actions_list []) w.client_actions

  -- What a call may not change: the closing callbacks of objects whose descriptor is closed already, and
  -- the actions of the server and the client. Nor may it leave an object half closed.
  pub record Frame (w t : World K) : Type 0 where
    pub dying :
        (p : Ptr) (c : Connection)
        → w.heap p ≡ some c
        → is_neg c.sock ≡ true
        → (d : Connection) × (t.heap p ≡ some d) × (is_neg d.sock ≡ true) × (d.closed ≡ c.closed)
    pub calm :
        (p : Ptr) (d : Connection)
        → t.heap p ≡ some d
        → is_neg d.sock ≡ true
        → (c : Connection) × (w.heap p ≡ some c) × (is_neg c.sock ≡ true)
    pub server_same : t.server_actions ≡ w.server_actions
    pub client_same : t.client_actions ≡ w.client_actions

  -- A call that returns, keeps the invariant, and leaves the above alone.
  abbrev pub Keeps {ℓ} : {A : Type ℓ} → Cmd (World K) A → Type ℓ
  Keeps m = (w : World K) → Inv w → Returns (λ _ t. Inv t × Frame w t) (m w)

  -- The callbacks of the program, where the library calls them.
  abbrev pub KeepsHooks : (UserCall → Cmd (World K) (Unit {0})) → Type 0
  KeepsHooks user =
      (call : UserCall) (w : World K)
      → Inv w
      → IsCallable w call
      → Returns (λ _ t. Inv t × Frame w t) (user call w)
