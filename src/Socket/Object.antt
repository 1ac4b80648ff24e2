-- ===== src/Socket/Object.antt =====
-- includes/socket/socket_base.hpp, src/socket/socket.cpp and `class socket` of includes/socket/socket.hpp:
-- opening, closing and binding a socket object, and the execution of its actions. What the lambdas of
-- CLOSED do is here too, since `close` runs them.
pub mod Closing
use Prim.Native.String.{String}
use unisock.Prelude.{
  ℕ, ℤ, pos, negsuc, ◌==ℤ◌, is_neg, Bool, true, false, Option, none, some, [], length,
  if◌then◌else◌, ok, fault, Cmd, assertion, ◌>>=◌, ◌>>◌, pure,
}
use mathlib.Core.Option
use unisock.Events.Action.{execute, add_callback}
use unisock.Events.ActionHandler.{ActionHandler, get_action}
use unisock.Events.Tags.{Tag, tcp, tcp_closed, disconnect}
use unisock.Events.Handler.{Ptr, delete_socket, socket_want_read, socket_want_write}
use unisock.Socket.System.{Bytes, System}
use unisock.Socket.Address.{size}
use unisock.Socket.World.{
  Owner, ReadableFn, WriteableFn, ClosedFn, erase_from, listener_closed, client_disconnected,
  connection_closed, user_closed, RecvFn, Connection, UserCall, socket_event, socket_error,
  connection_event, World, put_object, put_container, load, store, change, syscall, length_of,
  map_find, map_erase,
}

-- `socket_base::get_socket`
abbrev pub get_socket : Connection → ℤ
get_socket c = c.sock

module _ {K : Type 0} (sys : System K) (user : UserCall → Cmd (World K) (Unit {0})) where
  abbrev pub errno : Cmd (World K) ℤ
  errno w = ok (sys.errno w.kernel) w

  -- `execute<tag>(…)` of the server or the client; a tag that its class does not have is not compiled.
  abbrev pub execute_in :
      (World K → ActionHandler ℕ) → Tag → (ℕ → UserCall) → Cmd (World K) (Unit {0})
  execute_in actions t call w = elim (get_action t (actions w)) [
    | none ↦ fault assertion
    | some callbacks ↦
        execute (λ n. user (call n)) (λ v. Option.map length (get_action t (actions v))) callbacks w
  ]

  unfoldable pub server_execute : Tag → (ℕ → UserCall) → Cmd (World K) (Unit {0})
  server_execute = execute_in (λ w. w.server_actions)

  unfoldable pub client_execute : Tag → (ℕ → UserCall) → Cmd (World K) (Unit {0})
  client_execute = execute_in (λ w. w.client_actions)

  -- `execute<basic_actions::ERROR>(function, errno)` of a socket
  unfoldable pub execute_error : Ptr → String → ℤ → Cmd (World K) (Unit {0})
  execute_error p function err = do
    c ← load p
    execute (λ n. user (socket_error n function err)) (length_of p (λ c. c.error)) c.error

  -- The lambda that a container adds, `sockets.erase(socket_key)`: the entry goes, and with it the object.
  unfoldable pub erase_object : Owner → ℤ → Cmd (World K) (Unit {0})
  erase_object o key w = elim (map_find key (w.containers o)) [
    | none ↦ ok tt w
    | some p ↦ ok tt (put_object p none (put_container o (map_erase key (w.containers o)) w))
  ]

  unfoldable pub run_closed : ClosedFn → Cmd (World K) (Unit {0})
  unfolding erase_object server_execute client_execute
  run_closed (erase_from o key) = erase_object o key
  run_closed (listener_closed p) =
      server_execute (tcp tcp_closed) (λ n. connection_event (tcp tcp_closed) n p)
  run_closed (client_disconnected p) =
      server_execute (tcp disconnect) (λ n. connection_event (tcp disconnect) n p)
  run_closed (connection_closed p) =
      client_execute (tcp tcp_closed) (λ n. connection_event (tcp tcp_closed) n p)
  run_closed (user_closed n) = user (socket_event n)

  -- `execute<basic_actions::CLOSED>()`
  unfoldable pub execute_closed : Ptr → Cmd (World K) (Unit {0})
  execute_closed p = do c ← load p; execute run_closed (length_of p (λ c. c.closed)) c.closed

  -- `socket_base::close`
  unfoldable pub base_close : Ptr → Cmd (World K) (Unit {0})
  base_close p = do
    c ← load p
    if is_neg (get_socket c)
        then pure tt
        else (syscall (λ k. (tt, sys.close c.sock k))
            >> store p (λ d. record d { sock = negsuc 0 }))

  -- `socket::close`
  unfoldable pub close : Ptr → Cmd (World K) (Unit {0})
  unfolding base_close execute_closed
  close p = do
    c ← load p
    if is_neg (get_socket c)
        then pure tt
        else (change (λ w. record w { handler = delete_socket w.handler (get_socket c) })
            >> base_close p
            >> execute_closed p)

  -- `socket_base::open`: `_sock` is -1 if the call fails.
  unfoldable pub base_open : ℕ → ℕ → ℕ → Cmd (World K) (Option ℤ)
  base_open domain type protocol = do
    fd ← syscall (sys.socket domain type protocol)
    pure (if is_neg fd then none else some fd)

  -- `socket_base::setsockopt` and `socket_base::getsockopt`, the latter with what is in the buffer
  setsockopt : Ptr → ℕ → ℕ → Bytes → Cmd (World K) Bool
  setsockopt p level option_name option_value = do
    c ← load p
    r ← syscall (sys.setsockopt c.sock level option_name option_value)
    pure (r ==ℤ pos 0)

  abbrev sys_getsockopt : ℤ → ℕ → ℕ → ℕ → K → (ℤ × Bytes) × K
  sys_getsockopt sock level option_name option_len k =
      let (r, value, k') = sys.getsockopt sock level option_name option_len k in ((r, value), k')

  getsockopt : Ptr → ℕ → ℕ → ℕ → Cmd (World K) (Bool × Bytes)
  getsockopt p level option_name option_len = do
    c ← load p
    (r, value) ← syscall (sys_getsockopt c.sock level option_name option_len)
    pure (r ==ℤ pos 0, value)

  -- `socket::bind`
  unfoldable pub bind : Ptr → Cmd (World K) Bool
  unfolding execute_error
  bind p = do
    c ← load p
    r ← syscall (sys.bind (get_socket c) c.address (size c.address))
    if is_neg r then (do err ← errno; execute_error p "bind" err; pure false) else pure true

  -- `set_want_write` and `set_want_read`
  unfoldable pub set_want_write : Ptr → Bool → Cmd (World K) (Unit {0})
  set_want_write p want_write = do
    c ← load p
    change (λ w. record w { handler = socket_want_write w.handler (get_socket c) want_write })

  unfoldable pub set_want_read : Ptr → Bool → Cmd (World K) (Unit {0})
  set_want_read p want_read = do
    c ← load p
    change (λ w. record w { handler = socket_want_read w.handler (get_socket c) want_read })

-- `on<tag>(function, flags)` of a socket, for each of its actions
module _ {K : Type 0} where
  unfoldable pub on_readable : Ptr → ReadableFn → Cmd (World K) (Unit {0})
  on_readable p f = store p (λ c. record c { readable = add_callback f 0 c.readable })

  unfoldable pub on_writeable : Ptr → WriteableFn → Cmd (World K) (Unit {0})
  on_writeable p f = store p (λ c. record c { writeable = add_callback f 0 c.writeable })

  unfoldable pub on_closed : Ptr → ClosedFn → ℕ → Cmd (World K) (Unit {0})
  on_closed p f flags = store p (λ c. record c { closed = add_callback f flags c.closed })

  unfoldable pub on_recv : Ptr → RecvFn → Cmd (World K) (Unit {0})
  on_recv p f = store p (λ c. record c { recv = add_callback f 0 c.recv })

-- A new object of a descriptor: an empty address and no callbacks.
unfoldable pub new_connection : ℤ → Connection
new_connection socket = record {
  sock = socket;
  address = unisock.Socket.Address.empty_address;
  send_buffer = [];
  readable = [];
  writeable = [];
  closed = [];
  error = [];
  recv = [];
}
