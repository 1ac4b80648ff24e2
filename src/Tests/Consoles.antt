-- ===== src/Tests/Consoles.antt =====
-- The theorems on the programs with a datagram socket, at concrete inputs.
use unisock.Prelude.{
  ℕ, suc, ◌+◌, ◌≡◌, refl, arith, pos, true, false, Option, none, [], ◌∷◌, ok, fault, assertion,
  Returns,
}
use unisock.Socket.System.{Bytes, System, af_inet}
use unisock.Socket.Address.{
  family, set_port, to, from_name_port, addrinfo, overlay, empty_address, write_port,
}
use unisock.Events.Handler.{new_handler}
use unisock.Datagram.Socket.{recvfrom_self, pass_receive, Datagram, new_socket}
use unisock.Datagram.Udp.{on_readable}
use unisock.Datagram.Kept.{IsSource}
use unisock.Datagram.Kept.Standing.{IsWatched, Stands}
use unisock.Examples.Running.Returning.{lambda}
use unisock.Examples.UdpServer.{Console, server_hooks, constructed, server_main}
use unisock.Examples.UdpServer.Runs.{server_main-Returns, server-answers}
use unisock.Examples.UdpClient.{Terminal, udp_client_hooks, udp_client_main}
use unisock.Examples.UdpClient.Runs.{udp_client_main-cases}
use unisock.Examples.RawListener.{Display, goes_on, raw_hooks, raw_main}
use unisock.Examples.RawListener.Runs.{raw_main-Returns}
use unisock.Tests.Fixtures.{sockets, two_rows, found_address}

abbrev pub no_name : ℕ → Bytes → ℕ → Option Bytes
no_name af address length = none

-- Each line that is printed counts as ten calls.
abbrev counted : Console ℕ
counted = record {
  print_received = λ from at msg k. 10 + k;
  print_bound = λ ip k. 10 + k;
  print_closed = λ ip k. 10 + k;
  print_error = λ func err k. 10 + k;
}

server_main-Returns_example :
    Returns
      (λ running t. Stands (pos 5) false t × (running ≡ true))
      (server_main sockets (server_hooks sockets no_name counted) 3 (constructed 0 0 1))
unfolding family
server_main-Returns_example =
    server_main-Returns sockets no_name counted 2 0 0 1 (λ up. refl)
      (λ j. (omega arith, omega arith, refl))

abbrev listens : Datagram ℕ
listens = record {
  kernel = 0;
  handler = two_rows;
  self = 1;
  sock = pos 3;
  address = [];
  readable = record { exec = recvfrom_self; flags = 0 } ∷ [];
  writeable = [];
  closed = [];
  error = lambda 0;
  recvmsg = [];
  recvfrom = record { exec = pass_receive; flags = 0 } ∷ [];
  receive = lambda 0;
  bound = [];
  udp_closed = [];
}

abbrev sends_two : System ℕ
sends_two = record sockets {
  recvfrom = λ fd n k. (pos 2, 1 ∷ 2 ∷ 0 ∷ [], 16 ∷ 2 ∷ [], suc k);
  sendto = λ fd msg flags address n k. (pos 13, suc k);
}

server-answers_example :
    on_readable sends_two (server_hooks sends_two no_name counted) listens
    ≡ ok tt (record listens { kernel = 12 })
server-answers_example =
    server-answers sends_two no_name counted listens 2 (1 ∷ 2 ∷ 0 ∷ []) (16 ∷ 2 ∷ []) 1 (pos 13) 12
      refl refl refl refl refl refl refl

abbrev untold : Terminal ℕ
untold = record {
  print_datagram = λ ip msg k. k;
  print_end = λ ip k. k;
  print_problem = λ func err k. k;
  set_nonblocking = λ fd k. suc k;
}

abbrev undisplayed : Display ℕ
undisplayed = record { show_message = λ text msg k. k; show_error = λ func err k. k }

-- The address of port 8000 that the resolver's answer gives.
abbrev server_address : Bytes
server_address = write_port 8000 (overlay (found_address 2).ai_addr 8 empty_address)

udp_client_main-cases_example :
    let run =
      udp_client_main sockets untold (udp_client_hooks no_name untold) 3 (constructed 0 0 1) in
    (false ≡ false → Returns (λ running t. IsWatched (pos 5) t × (running ≡ true)) run)
    × (false ≡ true → run ≡ fault assertion)
unfolding from_name_port addrinfo overlay empty_address set_port to write_port family
udp_client_main-cases_example =
    udp_client_main-cases sockets no_name untold 2 0 0 1 server_address 1 (λ up. refl) refl

-- All datagrams of that kernel come from the same address.
sends_two-senders :
    (address : Bytes) → IsSource sends_two (pos 5) address → family address ≡ af_inet
unfolding family
sends_two-senders address source = rw source.given refl

raw_main-Returns_example :
    Returns
      (λ exit t. Stands (pos 5) false t × (exit ≡ goes_on))
      (raw_main sends_two
        (raw_hooks sends_two no_name undisplayed)
        3
        (new_socket 0 (new_handler 0) 1))
unfolding from_name_port addrinfo overlay empty_address set_port to write_port family
raw_main-Returns_example =
    raw_main-Returns sends_two no_name undisplayed 2 0 0 1 server_address 2 (λ up. refl)
      sends_two-senders refl
