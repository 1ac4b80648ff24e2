-- ===== src/Tests/Datagram.antt =====
-- The theorems on the sockets of datagrams, at concrete inputs.
use unisock.Prelude.{
  ℕ, ◌≡◌, refl, pos, negsuc, true, [], ◌∷◌, ok, Cmd, false, fault, assertion, arith, Returns,
}
use unisock.Events.Handler.Table.{table}
use unisock.Socket.Address.{family, size}
use unisock.Datagram.Socket.{recvfrom_self, pass_receive, DatagramCall, datagram, Datagram}
use unisock.Datagram.Udp.{send_once, bind_udp}
use unisock.Datagram.Udp.Bind.{bind_udp_again}
use unisock.Events.Handler.{add_socket}
use unisock.Datagram.Udp.Once.{send_once_closes}
use unisock.Tests.Fixtures.{sockets, two_rows}

-- The program marks the state of the kernel when it receives.
abbrev marking : DatagramCall → Cmd (Datagram ℕ) (Unit {0})
marking (datagram n address message) w = ok tt (record w { kernel = 100 })
marking c w = ok tt w

abbrev ready : Datagram ℕ
ready = record {
  kernel = 0;
  handler = two_rows;
  self = 1;
  sock = pos 3;
  address = [];
  readable = record { exec = recvfrom_self; flags = 0 } ∷ [];
  writeable = [];
  closed = [];
  error = [];
  recvmsg = [];
  recvfrom = record { exec = pass_receive; flags = 0 } ∷ [];
  receive = record { exec = 9; flags = 0 } ∷ [];
  bound = [];
  udp_closed = [];
}

send_once_closes_example :
    (w : Datagram ℕ) × (send_once sockets (16 ∷ 2 ∷ []) (7 ∷ []) 0 0 ≡ ok true w)
    × (w.kernel ≡ 3)
    × (w.sock ≡ negsuc 0)
    × (table w.handler ≡ [])
unfolding family size
send_once_closes_example =
    send_once_closes sockets (16 ∷ 2 ∷ []) (7 ∷ []) 0 4 (pos 1) 0 1 2 refl refl

abbrev fresh : Datagram ℕ
fresh = record ready { sock = negsuc 0 }

bind_udp_again_example :
    Returns
      (λ _ t.
        (t.sock ≡ pos 5)
        × (t.handler ≡ add_socket two_rows (pos 5) 1)
        × (bind_udp sockets marking (104 ∷ []) 81 true t ≡ fault assertion))
      (bind_udp sockets marking [] 80 false fresh)
unfolding family
bind_udp_again_example =
    bind_udp_again fresh 5 sockets marking [] (104 ∷ []) 80 81 false true 1 refl refl refl refl
      (λ j. (omega arith, omega arith, refl))
