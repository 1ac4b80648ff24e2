-- ===== src/Examples/TcpClient.antt =====
-- examples/tcp-client/main.cpp: `main`, and the lambdas that it gives to the client. What it prints is a
-- parameter: of the insertions into `std::cout` all that is modelled is a function on the state of the
-- kernel.
pub mod Lambdas
pub mod Runs
use Prim.Native.String.{String}
use unisock.Prelude.{
  ℕ, suc, ℤ, Bool, true, false, Option, List, [], ◌∷◌, length, if◌then◌else◌, Cmd, ◌>>=◌, ◌>>◌,
  pure,
}
use unisock.Events.ActionHandler.{ActionHandler, init_actions}
use unisock.Events.Tags.{
  Tag, basic, error, tcp, datagram, extended, receive, recv, listen, accept, disconnect, connect,
  tcp_closed, client_actions_list,
}
use unisock.Events.Handler.{Ptr}
use unisock.Socket.System.{Bytes, System}
use unisock.Socket.Address.{IpText, get_ip}
use unisock.Socket.World.{
  connections, load, UserCall, socket_event, socket_error, socket_recv, connection_event,
  receive_event, error_event, World,
}
use unisock.Tcp.Connection.{send}
use unisock.Tcp.Client.{close_client}
use unisock.Examples.Running.{no_socket_hooks, emit, perform_all, serve, localhost}
use unisock.Tcp.Requests.{Request, client_on, connect_to, started}

-- The output of the program.
pub record Printer (K : Type 0) : Type 0 where
  pub print_handler : K → K
  pub print_connected : IpText → K → K
  pub print_closed : IpText → K → K
  pub print_received : IpText → Bytes → K → K
  pub print_failure : String → ℤ → K → K

-- "hello world"
abbrev pub hello : Bytes
hello = 104 ∷ 101 ∷ 108 ∷ 108 ∷ 111 ∷ 32 ∷ 119 ∷ 111 ∷ 114 ∷ 108 ∷ 100 ∷ []

module _ {K : Type 0} (sys : System K) (inet_ntop : ℕ → Bytes → ℕ → Option Bytes)
    (out : Printer K) where
  -- The lambdas of CONNECT and CLOSED.
  unfoldable pub on_connection : Tag → Ptr → Cmd (World K) (Unit {0})
  on_connection (tcp connect) p = do
    connection ← load p
    emit (out.print_connected (get_ip inet_ntop connection.address))
    (send sys no_socket_hooks p hello >>= λ _. pure tt)
  on_connection (tcp tcp_closed) p = do
    connection ← load p
    emit (out.print_closed (get_ip inet_ntop connection.address))
  on_connection (tcp receive) p = pure tt
  on_connection (tcp recv) p = pure tt
  on_connection (tcp listen) p = pure tt
  on_connection (tcp accept) p = pure tt
  on_connection (tcp disconnect) p = pure tt
  on_connection (basic t) p = pure tt
  on_connection (datagram t) p = pure tt
  on_connection (extended n) p = pure tt

  unfoldable pub client_hooks : UserCall → Cmd (World K) (Unit {0})
  unfolding on_connection
  client_hooks (connection_event t n p) = on_connection t p
  client_hooks (receive_event n p message) = do
    connection ← load p
    emit (out.print_received (get_ip inet_ntop connection.address) message)
  client_hooks (error_event n func err) = emit (out.print_failure func err)
  client_hooks (socket_event n) = pure tt
  client_hooks (socket_error n func err) = pure tt
  client_hooks (socket_recv n message) = pure tt

-- The calls of `on` and of `connect`.
abbrev pub client_setup : List Request
client_setup =
    client_on (tcp connect) 0 0
    ∷ client_on (tcp tcp_closed) 1 0
    ∷ client_on (tcp receive) 2 0
    ∷ client_on (basic error) 3 0
    ∷ connect_to localhost 8000 false
    ∷ []

module _ {K : Type 0} (sys : System K) (out : Printer K)
    (user : UserCall → Cmd (World K) (Unit {0})) where
  -- `main`, up to so many turns of its loop, and whether the loop goes on after them. The loop of `close`
  -- has a round for each connection and one more.
  unfoldable pub client_main : ℕ → Cmd (World K) Bool
  unfolding perform_all serve
  client_main turns = do
    emit out.print_handler
    perform_all sys user client_setup
    emit out.print_handler
    running ← serve sys user turns
    if running then pure true else (do
      (λ w. close_client sys user (suc (length (w.containers connections))) w)
      pure false)

-- The program's state when `main` has made the client, but for what it has printed.
abbrev pub client_begin : {K : Type 0} → K → ℕ → ActionHandler ℕ → World K
client_begin k garbage server = started k garbage server (init_actions (client_actions_list []))
