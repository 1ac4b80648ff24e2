-- ===== src/Examples/UdpServer.antt =====
-- examples/udp-server/main.cpp: `main`, and the lambdas that it gives to the socket. What it prints is a
-- parameter: of the insertions into `std::cout` all that is modelled is a function on the state of the
-- kernel.
pub mod Runs
use Prim.Native.String.{String}
use unisock.Prelude.{
  ℕ, zero, suc, ℤ, Bool, true, false, Option, [], ◌∷◌, if◌then◌else◌, ok, Cmd, ◌>>=◌, ◌>>◌, pure,
}
use unisock.Events.Action.{add_callback}
use unisock.Events.Handler.{Ptr, new_handler}
use unisock.Socket.System.{Bytes, System}
use unisock.Socket.Address.{IpText, get_ip}
use unisock.Datagram.Socket.{
  DatagramCall, event, ended, failure, message, datagram, addressed, Datagram, new_socket,
  close_socket,
}
use unisock.Datagram.Raw.{send_to}
use unisock.Datagram.Udp.{init_socket, bind_udp}
use unisock.Datagram.Loop.{serve_then_close}
use unisock.Examples.Running.{localhost}
use unisock.Examples.Console.{log}

-- The output of the program.
pub record Console (K : Type 0) : Type 0 where
  pub print_received : IpText → IpText → Bytes → K → K
  pub print_bound : IpText → K → K
  pub print_closed : IpText → K → K
  pub print_error : String → ℤ → K → K

-- "received msg", with the byte that ends it: 13 bytes
abbrev pub received_msg : Bytes
received_msg = 114 ∷ 101 ∷ 99 ∷ 101 ∷ 105 ∷ 118 ∷ 101 ∷ 100 ∷ 32 ∷ 109 ∷ 115 ∷ 103 ∷ 0 ∷ []

module _ {K : Type 0} (sys : System K) (inet_ntop : ℕ → Bytes → ℕ → Option Bytes)
    (out : Console K) where
  -- The lambdas of BIND, CLOSED and ERROR, by the numbers that `main` gives them.
  unfoldable pub notices : DatagramCall → Cmd (Datagram K) (Unit {0})
  notices (addressed zero address) = log (out.print_bound (get_ip inet_ntop address))
  notices (addressed (suc n) address) = log (out.print_closed (get_ip inet_ntop address))
  notices (failure n func err) = log (out.print_error func err)
  notices (datagram n address msg) = pure tt
  notices (event n) = pure tt
  notices (ended n) = pure tt
  notices (message n buffer) = pure tt

  -- All lambdas. That of RECEIVE answers; what fails then is told to the lambda of ERROR.
  unfoldable pub server_hooks : DatagramCall → Cmd (Datagram K) (Unit {0})
  unfolding notices
  server_hooks (datagram n address msg) = do
    (λ w. log (out.print_received (get_ip inet_ntop address) (get_ip inet_ntop w.address) msg) w)
    (send_to sys notices address received_msg 0 >>= λ _. pure tt)
  server_hooks (addressed n address) = notices (addressed n address)
  server_hooks (failure n func err) = notices (failure n func err)
  server_hooks (event n) = pure tt
  server_hooks (ended n) = pure tt
  server_hooks (message n buffer) = pure tt

-- The calls of `on`.
unfoldable pub hook_all : {K : Type 0} → Datagram K → Datagram K
hook_all w = record w {
  receive = add_callback 0 0 w.receive;
  bound = add_callback 0 0 w.bound;
  udp_closed = add_callback 1 0 w.udp_closed;
  error = add_callback 0 0 w.error;
}

-- The socket as its constructor leaves it.
unfoldable pub constructed : {K : Type 0} → K → ℕ → Ptr → Datagram K
constructed k garbage self = init_socket (new_socket k (new_handler garbage) self)

module _ {K : Type 0} (sys : System K) (user : DatagramCall → Cmd (Datagram K) (Unit {0})) where
  -- `main` once the socket is made, up to so many turns of its loop, and whether the loop goes on after
  -- them.
  unfoldable pub server_main : ℕ → Cmd (Datagram K) Bool
  unfolding hook_all serve_then_close
  server_main turns = do
    (λ w. ok tt (hook_all w))
    bound ← bind_udp sys user localhost 8000 false
    serve_then_close sys user (pure tt) turns
