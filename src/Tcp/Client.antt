-- ===== src/Tcp/Client.antt =====
-- includes/tcp/client.hpp, `class client_impl`: connecting and closing.
use Prim.Native.String.{String}
use unisock.Prelude.{ℕ, not, Bool, true, false, none, some, if◌then◌else◌, Cmd, ◌>>=◌, ◌>>◌, pure}
use unisock.Events.Tags
use unisock.Events.Tags.{tcp, basic}
use unisock.Events.Handler.{Ptr}
use unisock.Socket.System.{Bytes, System, af_inet, af_inet6, sock_stream}
use unisock.Socket.World.{
  connections, recv_on, connection_closed, client_receive, UserCall, connection_event, error_event,
  World,
}
use unisock.Socket.Object.{errno, client_execute, close, on_readable, on_closed, on_recv}
use unisock.Socket.Container.{make_socket, close_all}
use unisock.Tcp.Connection.{connect as connection_connect}
use unisock.Tcp.Server.{resolve, assign_port}

module _ {K : Type 0} (sys : System K) (user : UserCall → Cmd (World K) (Unit {0})) where
  -- `execute<basic_actions::ERROR>(function, errno)` of the client
  abbrev pub client_error : String → Cmd (World K) (Unit {0})
  client_error function = do
    err ← errno sys user
    client_execute sys user (basic Tags.error) (λ n. error_event n function err)

  -- `connect` once the connection is made: the lambdas, and CONNECT.
  unfoldable pub start_receiving : Ptr → Cmd (World K) Bool
  start_receiving conn = do
    on_readable conn (recv_on conn)
    on_recv conn (client_receive conn)
    client_execute sys user (tcp Tags.connect) (λ n. connection_event (tcp Tags.connect) n conn)
    pure true

  -- `connect` once the address is resolved. On a failure the connection is closed before the hook of
  -- ERROR is called, with the word "listen".
  unfoldable pub connect_resolved : Ptr → ℕ → Bool → Cmd (World K) Bool
  unfolding start_receiving
  connect_resolved conn port use_ipv6 = do
    assign_port sys user conn port use_ipv6
    connected ← connection_connect sys user conn
    if not connected
        then (do close sys user conn; client_error "listen"; pure false)
        else start_receiving conn

  -- `connect` once the socket is made.
  unfoldable pub connect_on : Ptr → Bytes → ℕ → Bool → Cmd (World K) Bool
  unfolding connect_resolved
  connect_on conn hostname port use_ipv6 = do
    on_closed conn (connection_closed conn) 0
    resolved ← resolve sys user conn hostname (if use_ipv6 then af_inet6 else af_inet)
    if not resolved
        then (do client_error "getaddrinfo"; close sys user conn; pure false)
        else connect_resolved conn port use_ipv6

  -- `connect`
  unfoldable pub connect : Bytes → ℕ → Bool → Cmd (World K) Bool
  unfolding connect_on
  connect hostname port use_ipv6 = do
    made ← make_socket sys user connections (if use_ipv6 then af_inet6 else af_inet) sock_stream 0
    elim made [
      | none ↦ client_error "socket" >> pure false
      | some conn ↦ connect_on conn hostname port use_ipv6
    ]

  -- `close`
  unfoldable pub close_client : ℕ → Cmd (World K) (Unit {0})
  close_client fuel = close_all sys user fuel connections
