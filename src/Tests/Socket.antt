-- ===== src/Tests/Socket.antt =====
-- The theorems on socket objects and addresses, at concrete inputs.
use unisock.Prelude.{
  ℕ, ◌+◌, ◌*◌, ◌%◌, ◌/◌, map, take, ◌≡◌, ◌≢◌, ◌⊎◌, refl, pos, negsuc, true, Option, none, some, [],
  ◌∷◌, ◌++◌, length, replicate, drop, arith, ok, fault, out_of_fuel, logic_error, null_pointer, ltb,
  lt→ltb, le→ltb, if◌then◌else◌,
}
use unisock.Events.Handler.Table.{table}
use unisock.Socket.System.{Bytes, eai_again, af_inet, af_inet6, af_unix, af_unspec, System}
use unisock.Socket.Address.{
  AddrinfoResult, sockaddr_in, to, addrinfo, overlay, set_port, write_port, family, size, from_host,
  empty_address, get_ip, inet_ntop_error,
}
use unisock.Socket.Address.Resolve.{addrinfo_resolved, addrinfo-storage}
use unisock.Socket.Address.Ports.{port_of, port_of-set_port, from_host_cases}
use unisock.Socket.Address.Text.{IsNtop, get_ip_ipv6_long}
use unisock.Socket.Address.Print.{inet, unkown, unspec, unknown, signed_char, host_of, to_string}
use unisock.Socket.Address.Print.Cases.{to_string_cases}
use unisock.Socket.World.{listeners, clients, erase_from, World, map_find}
use unisock.Socket.Object.{new_connection}
use unisock.Socket.Container.{make_socket, close_all, erase_flags}
use unisock.Socket.Container.Making.{make_socket_free}
use unisock.Socket.Container.Closing.{close_all_hangs}
use unisock.Tests.Fixtures.{
  found_address, counting, always, second_time, sockets, no_hooks, waiting, world_of,
}

abbrev lone : World ℕ
lone = world_of 0 waiting []

make_socket_free_example :
    (t : World ℕ) × (make_socket sockets no_hooks listeners 2 1 0 lone ≡ ok (some 2) t)
    × (t.heap 2
        ≡ some (record (new_connection (pos 5)) {
          closed = record { exec = erase_from listeners (pos 5); flags = erase_flags } ∷ [];
        }))
    × (map_find (pos 5) (t.containers listeners) ≡ some 2)
    × (table t.handler ≡ table lone.handler ++ (pos 5, 2) ∷ [])
unfolding map_find
make_socket_free_example = make_socket_free sockets no_hooks listeners 2 1 0 lone 5 1 refl refl refl

abbrev half_closed : World ℕ
half_closed = world_of 0 (record waiting { sock = negsuc 0 }) ((pos 3, 1) ∷ [])

close_all_hangs_example : close_all sockets no_hooks 100 clients half_closed ≡ fault out_of_fuel
close_all_hangs_example =
    close_all_hangs sockets no_hooks 100 clients half_closed (pos 3) 1 []
      (record waiting { sock = negsuc 0 }) refl refl refl

abbrev unsure : System ℕ
unsure = counting (always eai_again)

abbrev slow : System ℕ
slow = counting second_time

addrinfo_resolved_example :
    addrinfo slow empty_address (104 ∷ []) 2 0
    ≡ (AddrinfoResult.success, overlay (found_address 2).ai_addr 8 empty_address, 2)
addrinfo_resolved_example =
    addrinfo_resolved slow (104 ∷ []) 2 empty_address 1 0 2 (found_address 2) (omega arith)
      (refl, tt) refl (omega arith)

addrinfo-storage_example :
    (length (addrinfo slow empty_address (104 ∷ []) 2 0).1 ≡ 128)
    × (((addrinfo slow empty_address (104 ∷ []) 2 0).0 ≡ AddrinfoResult.success)
        ⊎ ((addrinfo slow empty_address (104 ∷ []) 2 0).1 ≡ empty_address))
unfolding empty_address
addrinfo-storage_example =
    addrinfo-storage slow (104 ∷ []) 2 empty_address 0 (λ k. omega arith) refl

abbrev address : Bytes
address = 16 ∷ 2 ∷ 0 ∷ 0 ∷ 127 ∷ 0 ∷ 0 ∷ 1 ∷ []

port_of-set_port_example :
    (port_of (write_port 8080 address) ≡ 8080)
    × (family (write_port 8080 address) ≡ family address)
    × (size (write_port 8080 address) ≡ size address)
    × (length (write_port 8080 address) ≡ length address)
    × (drop 4 (write_port 8080 address) ≡ drop 4 address)
unfolding set_port to family
port_of-set_port_example =
    port_of-set_port sockaddr_in 8080 address (write_port 8080 address) (omega arith) (omega arith)
      refl

from_host_cases_example :
    let r = addrinfo sockets empty_address (104 ∷ []) 30 0 in
    ((r.0 ≡ AddrinfoResult.success)
      × (family r.1 ≡ af_inet)
      × (from_host sockets (104 ∷ []) 80 true 0 ≡ ok (write_port 80 r.1) r.2))
    ⊎ ((r.0 ≡ AddrinfoResult.success)
        × (family r.1 ≢ af_inet)
        × (from_host sockets (104 ∷ []) 80 true 0 ≡ fault null_pointer))
    ⊎ ((r.0 ≢ AddrinfoResult.success)
        × (from_host sockets (104 ∷ []) 80 true 0 ≡ fault logic_error))
from_host_cases_example = from_host_cases sockets (104 ∷ []) 80 true 0

-- Texts of 11 and of 39 characters.
abbrev present : ℕ → Bytes → Bytes
present af b = if ltb af 3 then replicate 11 46 else replicate 39 58

abbrev ntop : ℕ → Bytes → ℕ → Option Bytes
ntop af b n = if ltb (length (present af b)) n then some (present af b) else none

ntop-IsNtop : IsNtop ntop present
ntop-IsNtop = record {
  fits = λ af b n lt. rw (lt→ltb (length (present af b)) n lt);
  no_space = λ af b n le. rw (le→ltb (length (present af b)) n le);
}

get_ip_ipv6_long_example : get_ip ntop (28 ∷ 30 ∷ replicate 26 1) ≡ inet_ntop_error
unfolding family size
get_ip_ipv6_long_example =
    get_ip_ipv6_long ntop present ntop-IsNtop (28 ∷ 30 ∷ replicate 26 1) refl refl (omega arith)

-- 127.0.0.1, port 8080
abbrev printed : Bytes
printed = 16 ∷ 2 ∷ 31 ∷ 144 ∷ 127 ∷ 0 ∷ 0 ∷ 1 ∷ replicate 8 0

to_string_cases_example :
    let h = host_of sockets ntop printed 0 in
    let r = to_string sockets ntop printed 0 in
    ((family printed ≡ af_inet)
      × (r
          ≡ ok
              (inet
                (size printed)
                (get_ip ntop printed)
                h.0
                (port_of printed % 256 * 256 + port_of printed / 256)
                (map signed_char (take 8 (drop 8 printed))))
              h.1))
    ⊎ ((family printed ≡ af_inet6) × (r ≡ fault null_pointer))
    ⊎ ((family printed ≡ af_unix) × (r ≡ ok (unkown af_unix) 0))
    ⊎ ((family printed ≡ af_unspec) × (r ≡ ok (unspec (size printed)) 0))
    ⊎ (((family printed ≢ af_inet)
          × (family printed ≢ af_inet6)
          × (family printed ≢ af_unix)
          × (family printed ≢ af_unspec))
        × (r ≡ ok (unknown (family printed)) 0))
to_string_cases_example = to_string_cases sockets ntop printed 0 (omega arith) (omega arith)
