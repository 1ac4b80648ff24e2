-- ===== src/Examples/TcpServer.antt =====
-- examples/tcp-server/main.cpp: `main`, and the lambdas that it gives to the server, of which that of
-- RECEIVE closes the server. What it prints is a parameter.
pub mod Lambdas
use Prim.Native.String.{String}
use unisock.Prelude.{
  ℕ, zero, suc, ◌+◌, ℤ, Bool, true, false, ◌&&◌, Option, List, [], ◌∷◌, length, ◌==◌, if◌then◌else◌,
  Cmd, ◌>>=◌, ◌>>◌, pure,
}
use unisock.Events.ActionHandler.{ActionHandler, init_actions}
use unisock.Events.Handler.{Ptr}
use unisock.Events.Tags.{
  Tag, basic, error, tcp, datagram, extended, receive, recv, listen, accept, disconnect, connect,
  tcp_closed, server_actions_list,
}
use unisock.Socket.System.{Bytes, System}
use unisock.Socket.Address.{IpText, get_ip}
use unisock.Socket.World.{
  clients, listeners, load, UserCall, socket_event, socket_error, socket_recv, connection_event,
  receive_event, error_event, World,
}
use unisock.Tcp.Server.{close_server}
use unisock.Examples.Running.{emit, run_server, localhost}
use unisock.Tcp.Requests.{Request, server_on, listen_at, started}

-- The output of the program.
pub record Journal (K : Type 0) : Type 0 where
  pub print_listening : IpText → ℤ → K → K
  pub print_closed : IpText → K → K
  pub print_received : IpText → Bytes → K → K
  pub print_closing : K → K
  pub print_connected : IpText → K → K
  pub print_disconnected : IpText → K → K
  pub print_error : String → ℤ → K → K

-- "::1"
abbrev pub localhost6 : Bytes
localhost6 = 58 ∷ 58 ∷ 49 ∷ []

-- "close" and the end of the line
abbrev pub close_message : Bytes
close_message = b'c' ∷ b'l' ∷ b'o' ∷ b's' ∷ b'e' ∷ 10 ∷ []

unfoldable pub same_bytes : Bytes → Bytes → Bool
same_bytes [] [] = true
same_bytes [] (y ∷ ys) = false
same_bytes (x ∷ xs) [] = false
same_bytes (x ∷ xs) (y ∷ ys) = let rest = same_bytes xs ys in (x == y) && rest

module _ {K : Type 0} (inet_ntop : ℕ → Bytes → ℕ → Option Bytes) (out : Journal K) where
  -- The lambdas of LISTEN, CLOSED, ACCEPT and DISCONNECT.
  unfoldable pub tell : Tag → Ptr → Cmd (World K) (Unit {0})
  tell (tcp listen) p = do
    conn ← load p
    emit (out.print_listening (get_ip inet_ntop conn.address) conn.sock)
  tell (tcp tcp_closed) p = do
    conn ← load p
    emit (out.print_closed (get_ip inet_ntop conn.address))
  tell (tcp accept) p = do conn ← load p; emit (out.print_connected (get_ip inet_ntop conn.address))
  tell (tcp disconnect) p = do
    conn ← load p
    emit (out.print_disconnected (get_ip inet_ntop conn.address))
  tell (tcp receive) p = pure tt
  tell (tcp recv) p = pure tt
  tell (tcp connect) p = pure tt
  tell (basic t) p = pure tt
  tell (datagram t) p = pure tt
  tell (extended n) p = pure tt

  -- All lambdas but that of RECEIVE: closing runs none of RECEIVE.
  unfoldable pub telling : UserCall → Cmd (World K) (Unit {0})
  unfolding tell
  telling (connection_event t n p) = tell t p
  telling (error_event n func err) = emit (out.print_error func err)
  telling (receive_event n p message) = pure tt
  telling (socket_event n) = pure tt
  telling (socket_error n func err) = pure tt
  telling (socket_recv n message) = pure tt

module _ {K : Type 0} (sys : System K) (inet_ntop : ℕ → Bytes → ℕ → Option Bytes)
    (out : Journal K) where
  -- `server.close()`: its loops have a round for each entry and one more.
  unfoldable pub close_from_hook : Cmd (World K) (Unit {0})
  close_from_hook w =
      close_server sys (telling inet_ntop out)
        (suc (length (w.containers clients) + length (w.containers listeners))) w

  -- The lambda of RECEIVE.
  unfoldable pub on_message : Ptr → Bytes → Cmd (World K) (Unit {0})
  unfolding same_bytes close_from_hook
  on_message p message = do
    conn ← load p
    emit (out.print_received (get_ip inet_ntop conn.address) message)
    if same_bytes message close_message then emit out.print_closing >> close_from_hook else pure tt

  unfoldable pub tcp_server_hooks : UserCall → Cmd (World K) (Unit {0})
  unfolding on_message telling
  tcp_server_hooks (receive_event n p message) = on_message p message
  tcp_server_hooks (connection_event t n p) = telling inet_ntop out (connection_event t n p)
  tcp_server_hooks (error_event n func err) = telling inet_ntop out (error_event n func err)
  tcp_server_hooks (socket_event n) = pure tt
  tcp_server_hooks (socket_error n func err) = pure tt
  tcp_server_hooks (socket_recv n message) = pure tt

-- The calls of `on` and of `listen`.
abbrev pub tcp_server_setup : List Request
tcp_server_setup =
    server_on (tcp listen) 0 0
    ∷ server_on (tcp tcp_closed) 1 0
    ∷ server_on (tcp receive) 2 0
    ∷ server_on (tcp accept) 3 0
    ∷ server_on (tcp disconnect) 4 0
    ∷ server_on (basic error) 5 0
    ∷ listen_at localhost 8000 false
    ∷ listen_at localhost6 8000 true
    ∷ listen_at localhost6 8001 true
    ∷ []

module _ {K : Type 0} (sys : System K) (user : UserCall → Cmd (World K) (Unit {0})) where
  -- `main`, up to so many turns of its loop, and whether the loop goes on after them.
  unfoldable pub tcp_server_main : ℕ → Cmd (World K) Bool
  unfolding run_server
  tcp_server_main turns = run_server sys user tcp_server_setup turns

-- The program's state when `main` has made the server.
abbrev pub tcp_server_begin : {K : Type 0} → K → ℕ → ActionHandler ℕ → World K
tcp_server_begin k garbage client = started k garbage (init_actions (server_actions_list [])) client
