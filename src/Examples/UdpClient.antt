-- ===== src/Examples/UdpClient.antt =====
-- examples/udp-client/main.cpp: `main`, and the lambdas that it gives to the socket. What it prints and its
-- call of `fcntl` are parameters.
pub mod Runs
use Prim.Native.String.{String}
use unisock.Prelude.{
  ℕ, ℤ, Bool, true, false, Option, [], ◌∷◌, if◌then◌else◌, ok, Cmd, ◌>>=◌, ◌>>◌, pure,
}
use unisock.Events.Action.{add_callback}
use unisock.Socket.System.{Bytes, System, af_inet}
use unisock.Socket.Address.{IpText, get_ip, from_name_port}
use unisock.Datagram.Socket.{
  DatagramCall, event, ended, failure, message, datagram, addressed, Datagram,
}
use unisock.Datagram.Raw.{send_to}
use unisock.Datagram.Udp.{open_udp}
use unisock.Datagram.Loop.{serve_then_close}
use unisock.Examples.Running.{localhost}
use unisock.Examples.Console.{log, on_kernel}

-- The output of the program, and `fcntl(socket, F_SETFL, O_NONBLOCK, ...)`.
pub record Terminal (K : Type 0) : Type 0 where
  pub print_datagram : IpText → Bytes → K → K
  pub print_end : IpText → K → K
  pub print_problem : String → ℤ → K → K
  pub set_nonblocking : ℤ → K → K

-- "BEGIN" and "hello world", with the bytes that end them: 6 and 12 bytes
abbrev pub begin_msg : Bytes
begin_msg = 66 ∷ 69 ∷ 71 ∷ 73 ∷ 78 ∷ 0 ∷ []

abbrev pub hello_msg : Bytes
hello_msg = 104 ∷ 101 ∷ 108 ∷ 108 ∷ 111 ∷ 32 ∷ 119 ∷ 111 ∷ 114 ∷ 108 ∷ 100 ∷ 0 ∷ []

module _ {K : Type 0} (inet_ntop : ℕ → Bytes → ℕ → Option Bytes) (out : Terminal K) where
  -- The lambdas of RECEIVE, CLOSED and ERROR.
  unfoldable pub udp_client_hooks : DatagramCall → Cmd (Datagram K) (Unit {0})
  udp_client_hooks (datagram n address msg) =
      log (out.print_datagram (get_ip inet_ntop address) msg)
  udp_client_hooks (addressed n address) = log (out.print_end (get_ip inet_ntop address))
  udp_client_hooks (failure n func err) = log (out.print_problem func err)
  udp_client_hooks (event n) = pure tt
  udp_client_hooks (ended n) = pure tt
  udp_client_hooks (message n buffer) = pure tt

-- The calls of `on`.
unfoldable pub hook_client : {K : Type 0} → Datagram K → Datagram K
hook_client w = record w {
  receive = add_callback 0 0 w.receive;
  udp_closed = add_callback 0 0 w.udp_closed;
  error = add_callback 0 0 w.error;
}

module _ {K : Type 0} (sys : System K) (out : Terminal K)
    (user : DatagramCall → Cmd (Datagram K) (Unit {0})) where
  send_to_server : Bytes → Bytes → Cmd (Datagram K) (Unit {0})
  send_to_server address msg = send_to sys user address msg 0 >>= λ _. pure tt

  -- `main` from its call of `open`
  unfoldable pub client_session : Bytes → ℕ → Cmd (Datagram K) Bool
  unfolding send_to_server serve_then_close
  client_session serv_address turns = do
    opened ← open_udp sys user af_inet
    (λ w. log (out.set_nonblocking w.sock) w)
    send_to_server serv_address begin_msg
    serve_then_close sys user (send_to_server serv_address hello_msg) turns

  -- `main` once the socket is made, up to so many turns of its loop, and whether the loop goes on after
  -- them.
  unfoldable pub udp_client_main : ℕ → Cmd (Datagram K) Bool
  unfolding hook_client client_session
  udp_client_main turns = do
    serv_address ← on_kernel (from_name_port sys localhost 8000 af_inet)
    (λ w. ok tt (hook_client w))
    client_session serv_address turns
