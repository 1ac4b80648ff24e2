-- ===== src/Socket/Address/Ports.antt =====
-- Ports in addresses, and what the constructors from a host name and a port do with each answer of
-- the resolver.
use native.Mathlib.Decide.{ℕ_discrete}
use unisock.Prelude.{
  ℕ, ◌+◌, ◌*◌, ◌≤◌, ◌<◌, ◌≡◌, ◌≢◌, refl, ◌⊎◌, inl, inr, Bool, none, some, [], ◌∷◌, length, get_or,
  drop, if◌then◌else◌, arith, ok, fault, logic_error, null_pointer,
}
use unisock.Socket.System.{Bytes, af_inet, af_inet6, System}
use unisock.Socket.Address.{
  AddrinfoResult, AddressType, sockaddr, sockaddr_in, sockaddr_in6, other_sockaddr, empty_address,
  size, family, address_family_of, to, set_port, write_port, with_port, addrinfo, finish_from,
  from_host,
}

-- `ntohs` of the port field
unfoldable pub port_of : Bytes → ℕ
port_of a = get_or a 2 0 * 256 + get_or a 3 0

write_port-port_of :
    (port : ℕ) (a : Bytes)
    → port < 65536
    → 4 ≤ length a
    → (port_of (write_port port a) ≡ port)
      × (family (write_port port a) ≡ family a)
      × (size (write_port port a) ≡ size a)
      × (length (write_port port a) ≡ length a)
      × (drop 4 (write_port port a) ≡ drop 4 a)
unfolding port_of write_port family size
write_port-port_of port [] b l = absurd (omega arith)
write_port-port_of port (x ∷ []) b l = absurd (omega arith)
write_port-port_of port (x ∷ y ∷ []) b l = absurd (omega arith)
write_port-port_of port (x ∷ y ∷ z ∷ []) b l = absurd (omega arith)
write_port-port_of port (x ∷ y ∷ z ∷ w ∷ a) b l = (omega arith, refl, refl, refl, refl)

-- `to` gives a null pointer exactly for a structure other than `sockaddr` whose family is not the
-- address's; any pointer that it gives is to the storage itself.
to-null :
    (t : AddressType) (a : Bytes)
    → t ≢ sockaddr
    → ((address_family_of t ≡ family a) × (to t a ≡ some a))
      ⊎ ((address_family_of t ≢ family a) × (to t a ≡ none))
unfolding to
to-null sockaddr a ne = absurd (ne refl)
to-null sockaddr_in a ne = ground arith
to-null sockaddr_in6 a ne = ground arith
to-null other_sockaddr a ne = ground arith

set_port-written :
    (t : AddressType) (port : ℕ) (a b : Bytes) → set_port t port a ≡ some b → b ≡ write_port port a
unfolding set_port to
set_port-written sockaddr port a b e = ground arith
set_port-written sockaddr_in port a b e = ground arith
set_port-written sockaddr_in6 port a b e = ground arith
set_port-written other_sockaddr port a b e = ground arith

-- A port that is written through `to` is read back, and the length, the family, the size field and all
-- bytes behind the port stay; this holds of every structure for which the pointer is not null.
pub port_of-set_port :
    (t : AddressType) (port : ℕ) (a b : Bytes)
    → port < 65536
    → 4 ≤ length a
    → set_port t port a ≡ some b
    → (port_of b ≡ port)
      × (family b ≡ family a)
      × (size b ≡ size a)
      × (length b ≡ length a)
      × (drop 4 b ≡ drop 4 a)
port_of-set_port t port a b small l e =
    rw (set_port-written t port a b e) (write_port-port_of port a small l)

module _ {K : Type 0} (sys : System K) (host : Bytes) (port : ℕ) where
  with_port-inet :
      (a : Bytes) (k : K)
      → family a ≡ af_inet
      → with_port sys sockaddr_in port a k ≡ ok (write_port port a) k
  unfolding with_port set_port to
  with_port-inet a k e = ground arith

  with_port-other :
      (a : Bytes) (k : K)
      → family a ≢ af_inet
      → with_port sys sockaddr_in port a k ≡ fault null_pointer
  unfolding with_port set_port to
  with_port-other a k ne = ground arith

  finish_from-cases :
      (r : AddrinfoResult) (a : Bytes) (k : K)
      → ((r ≡ AddrinfoResult.success)
          × (family a ≡ af_inet)
          × (finish_from sys (r, a, k) (with_port sys sockaddr_in port) ≡ ok (write_port port a) k))
        ⊎ ((r ≡ AddrinfoResult.success)
            × (family a ≢ af_inet)
            × (finish_from sys (r, a, k) (with_port sys sockaddr_in port) ≡ fault null_pointer))
        ⊎ ((r ≢ AddrinfoResult.success)
            × (finish_from sys (r, a, k) (with_port sys sockaddr_in port) ≡ fault logic_error))
  finish_from-cases AddrinfoResult.success a k = elim (ℕ_discrete (family a) af_inet) [
    | yes e ↦ inl (refl, e, with_port-inet a k e)
    | no ne ↦ inr (inl (refl, ne, with_port-other a k ne))
  ]
  finish_from-cases AddrinfoResult.error a k = inr (inr ((λ e. cc), refl))
  finish_from-cases AddrinfoResult.unavailable a k = inr (inr ((λ e. cc), refl))
  finish_from-cases AddrinfoResult.address_too_big a k = inr (inr ((λ e. cc), refl))

  -- The three ways in which the constructor from a host name and a port ends, by what `addrinfo` gives
  -- for the family asked for: an IPv4 address gets the port; a name that is not resolved throws; and a
  -- resolved address of any other family, such as every one for `use_IPv6`, is a write through a null
  -- pointer.
  pub from_host_cases :
      (use_ipv6 : Bool) (k : K)
      → let r = addrinfo sys empty_address host (if use_ipv6 then af_inet6 else af_inet) k in
        ((r.0 ≡ AddrinfoResult.success)
          × (family r.1 ≡ af_inet)
          × (from_host sys host port use_ipv6 k ≡ ok (write_port port r.1) r.2))
        ⊎ ((r.0 ≡ AddrinfoResult.success)
            × (family r.1 ≢ af_inet)
            × (from_host sys host port use_ipv6 k ≡ fault null_pointer))
        ⊎ ((r.0 ≢ AddrinfoResult.success)
            × (from_host sys host port use_ipv6 k ≡ fault logic_error))
  unfolding from_host
  from_host_cases use_ipv6 k =
      let (r, a, k') = addrinfo sys empty_address host (if use_ipv6 then af_inet6 else af_inet) k in
      finish_from-cases r a k'
