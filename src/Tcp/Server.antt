-- ===== src/Tcp/Server.antt =====
-- includes/tcp/server.hpp, `class server_impl`: listening, accepting and closing.
use Prim.Native.String.{String}
use unisock.Prelude.{
  ℕ, ℤ, pos, is_neg, not, Bool, true, false, Option, none, some, if◌then◌else◌, fault, Cmd,
  assertion, null_pointer, ◌>>=◌, ◌>>◌, pure, ◌≡◌, refl,
}
use unisock.Events.Tags
use unisock.Events.Tags.{tcp, basic, accept, disconnect}
use unisock.Events.Handler.{Ptr}
use unisock.Socket.System.{Bytes, System, af_inet, af_inet6, sock_stream}
use unisock.Socket.Address.{AddrinfoResult, sockaddr_in, sockaddr_in6, addrinfo, set_port}
use unisock.Socket.World.{
  listeners, clients, accept_on, recv_on, flush_on, listener_closed, client_disconnected,
  server_receive, UserCall, connection_event, error_event, World, load, store, syscall,
}
use unisock.Socket.Object.{
  errno, server_execute, close, bind, on_readable, on_writeable, on_closed, on_recv,
}
use unisock.Socket.Container.{make_socket, make_socket_of, close_all}
use unisock.Tcp.Connection.{listen as connection_listen}

abbrev pub is_success : AddrinfoResult → Bool
is_success AddrinfoResult.success = true
is_success AddrinfoResult.error = false
is_success AddrinfoResult.unavailable = false
is_success AddrinfoResult.address_too_big = false

pub is_success-success : (r : AddrinfoResult) → is_success r ≡ true → r ≡ AddrinfoResult.success
is_success-success AddrinfoResult.success e = refl
is_success-success AddrinfoResult.error e = cc e
is_success-success AddrinfoResult.unavailable e = cc e
is_success-success AddrinfoResult.address_too_big e = cc e

module _ {K : Type 0} (sys : System K) (user : UserCall → Cmd (World K) (Unit {0})) where
  -- `addrinfo(socket->address, hostname, family)`, and whether it is SUCCESS
  unfoldable pub resolve : Ptr → Bytes → ℕ → Cmd (World K) Bool
  resolve p hostname fam = do
    c ← load p
    (result, address) ←
        syscall (λ k. let (r, a, k') = addrinfo sys c.address hostname fam k in ((r, a), k'))
    store p (λ d. record d { address = address })
    pure (is_success result)

  -- The address with the port, written where the pointer is; none is the null pointer.
  abbrev pub store_address : Ptr → Option Bytes → Cmd (World K) (Unit {0})
  store_address p none w = fault null_pointer
  store_address p (some address) w = store p (λ d. record d { address = address }) w

  -- `socket->address.to<sockaddr_in>()->sin_port = htons(port)`, or the same of `sockaddr_in6`
  unfoldable pub assign_port : Ptr → ℕ → Bool → Cmd (World K) (Unit {0})
  assign_port p port use_ipv6 = do
    c ← load p
    store_address p (set_port (if use_ipv6 then sockaddr_in6 else sockaddr_in) port c.address)

  -- `execute<basic_actions::ERROR>(function, errno)` of the server
  abbrev pub server_error : String → Cmd (World K) (Unit {0})
  server_error function = do
    err ← errno sys user
    server_execute sys user (basic Tags.error) (λ n. error_event n function err)

  -- The end of a call of `listen` that fails.
  unfoldable pub fail_listen : Ptr → String → Cmd (World K) Bool
  fail_listen p function = do server_error function; close sys user p; pure false

  -- `listen` once the socket is bound.
  unfoldable pub start_listening : Ptr → Cmd (World K) Bool
  unfolding fail_listen
  start_listening p = do
    listening ← connection_listen sys user p
    if not listening then fail_listen p "listen" else (do
      on_readable p (accept_on p)
      server_execute sys user (tcp Tags.listen) (λ n. connection_event (tcp Tags.listen) n p)
      pure true)

  -- `listen` once the address is resolved.
  unfoldable pub bind_and_listen : Ptr → ℕ → Bool → Cmd (World K) Bool
  unfolding start_listening assign_port
  bind_and_listen p port use_ipv6 = do
    assign_port p port use_ipv6
    bound ← bind sys user p
    if not bound then fail_listen p "bind" else start_listening p

  -- `listen` once the socket is made.
  unfoldable pub listen_on : Ptr → Bytes → ℕ → Bool → Cmd (World K) Bool
  unfolding bind_and_listen resolve
  listen_on p hostname port use_ipv6 = do
    on_closed p (listener_closed p) 0
    resolved ← resolve p hostname (if use_ipv6 then af_inet6 else af_inet)
    if not resolved then fail_listen p "getaddrinfo" else bind_and_listen p port use_ipv6

  -- `listen`
  unfoldable pub listen : Bytes → ℕ → Bool → Cmd (World K) Bool
  unfolding listen_on
  listen hostname port use_ipv6 = do
    made ← make_socket sys user listeners (if use_ipv6 then af_inet6 else af_inet) sock_stream 0
    elim made [
      | none ↦ server_error "socket" >> pure false
      | some p ↦ listen_on p hostname port use_ipv6
    ]

  -- `accept` once the client's object is made: its address, the lambdas, and ACCEPT.
  unfoldable pub welcome : Ptr → Bytes → Cmd (World K) (Unit {0})
  welcome client address = do
    store client (λ c. record c { address = address })
    on_readable client (recv_on client)
    on_writeable client (flush_on client)
    on_closed client (client_disconnected client) 0
    on_recv client (server_receive client)
    server_execute sys user (tcp accept) (λ n. connection_event (tcp accept) n client)

  -- `::accept` into an empty address
  abbrev sys_accept : ℤ → K → (ℤ × Bytes) × K
  sys_accept sock k = let (fd, address, k') = sys.accept sock k in ((fd, address), k')

  -- `accept` with the result of `::accept`
  unfoldable pub accept_socket : ℤ → Bytes → Cmd (World K) (Unit {0})
  unfolding welcome
  accept_socket socket address = if is_neg socket then server_error "accept" else (do
    made ← make_socket_of sys user clients socket
    elim made [
      | none ↦ server_execute sys user (basic Tags.error) (λ n. error_event n "insert" (pos 0))
      | some client ↦ welcome client address
    ])

  -- `accept`
  unfoldable pub accept_from : Ptr → Cmd (World K) (Unit {0})
  unfolding accept_socket
  accept_from p = do
    c ← load p
    if is_neg c.sock
        then (λ _. fault assertion)
        else (do (socket, address) ← syscall (sys_accept c.sock); accept_socket socket address)

  -- `close`
  unfoldable pub close_server : ℕ → Cmd (World K) (Unit {0})
  close_server fuel = close_all sys user fuel clients >> close_all sys user fuel listeners
