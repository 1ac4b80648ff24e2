-- ===== src/Examples/SpeedServer.antt =====
-- examples/tcp-connection-speed-test/server.cpp: `main`, and the lambdas that it gives to the server.
-- What it writes is a parameter: of `write(1, ...)` and of the insertions into `std::cout` all that is
-- modelled is a function on the state of the kernel.
pub mod Lambdas
pub mod Runs
use Prim.Native.String.{String}
use unisock.Prelude.{
  ℕ, zero, suc, ◌+◌, ℤ, negsuc, Bool, true, false, Option, List, [], ◌∷◌, length, if◌then◌else◌, ok,
  Cmd, ◌>>=◌, ◌>>◌, pure,
}
use unisock.Events.ActionHandler.{ActionHandler, init_actions}
use unisock.Events.Tags.{basic, error, tcp, listen, accept, disconnect, server_actions_list}
use unisock.Socket.System.{Bytes, System}
use unisock.Socket.Address.{IpText, get_ip}
use unisock.Socket.World.{
  clients, listeners, load, UserCall, socket_event, socket_error, socket_recv, connection_event,
  receive_event, error_event, World,
}
use unisock.Tcp.Server.{close_server}
use unisock.Tcp.Loop.{poll_once}
use unisock.Examples.Running.{emit, run_server, localhost}
use unisock.Tcp.Requests.{Request, server_on, listen_at, started, perform}

-- The output of the program.
pub record Output (K : Type 0) : Type 0 where
  pub write : Bytes → K → K
  pub print_listening : IpText → ℤ → K → K
  pub print_error : String → ℤ → K → K

module _ {K : Type 0} (inet_ntop : ℕ → Bytes → ℕ → Option Bytes) (out : Output K) where
  -- The lambdas, by the numbers that `main` gives them.
  unfoldable pub hooks : UserCall → Cmd (World K) (Unit {0})
  hooks (connection_event t zero p) = do
    conn ← load p
    emit (out.print_listening (get_ip inet_ntop conn.address) conn.sock)
  hooks (connection_event t (suc zero) p) = emit (out.write (43 ∷ []))
  hooks (connection_event t (suc (suc n)) p) = emit (out.write (45 ∷ []))
  hooks (error_event n func err) = emit (out.print_error func err)
  hooks (receive_event n p message) = pure tt
  hooks (socket_event n) = pure tt
  hooks (socket_error n func err) = pure tt
  hooks (socket_recv n message) = pure tt

-- The calls of `on` and of `listen`.
abbrev pub setup : List Request
setup =
    server_on (tcp listen) 0 0
    ∷ server_on (tcp accept) 1 0
    ∷ server_on (tcp disconnect) 2 0
    ∷ server_on (basic error) 3 0
    ∷ listen_at localhost 8000 false
    ∷ []

module _ {K : Type 0} (sys : System K) (user : UserCall → Cmd (World K) (Unit {0})) where
  -- `main`, up to so many turns of its loop, and whether the loop goes on after them.
  unfoldable pub main : ℕ → Cmd (World K) Bool
  unfolding run_server
  main turns = run_server sys user setup turns

-- The program's state when `main` has made the server.
abbrev pub begin : {K : Type 0} → K → ℕ → ActionHandler ℕ → World K
begin k garbage client = started k garbage (init_actions (server_actions_list [])) client
