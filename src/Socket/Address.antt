-- ===== src/Socket/Address.antt =====
-- includes/socket/socket_address.hpp and src/socket/socket_address.cpp: a `sockaddr_storage` of 128 bytes
-- with `sa_len` and `sa_family` in its first two, the checked reinterpretation `to`, and resolving with
-- a bounded number of retries.
pub mod Resolve
pub mod Answers
pub mod Print
pub mod Ports
pub mod Text
use unisock.Prelude.{
  ℕ, zero, suc, ◌+◌, ◌*◌, ◌/◌, ◌%◌, Bool, true, false, ◌&&◌, ◌||◌, not, Option, none, some, List,
  [], ◌∷◌, ◌++◌, length, take, drop, replicate, get_or, modify, ltb, if◌then◌else◌, ◌==◌, Run, ok,
  fault, Cmd, logic_error, null_pointer, out_of_bounds,
}
use unisock.Socket.System.{
  Bytes, af_unspec, af_inet, af_inet6, AddrInfo, Resolved, resolved, eai_again, refused, System,
}

-- `enum class addrinfo_result` and `enum class nameinfo_result`
pub data AddrinfoResult : Type 0 where
  success error unavailable address_too_big : AddrinfoResult

pub data NameinfoResult : Type 0 where
  success error unavailable name_too_big : NameinfoResult

-- `IP_ADDRESS_BUFFER_SIZE`, `HOSTNAME_BUFFER_SIZE`, `MAX_HOST_RESOLVE_RETRIES` and `ADDRESS_STORAGE_SIZE`
abbrev pub ip_address_buffer_size : ℕ
ip_address_buffer_size = 128

abbrev pub hostname_buffer_size : ℕ
hostname_buffer_size = 128

abbrev pub max_host_resolve_retries : ℕ
max_host_resolve_retries = 3

abbrev pub address_storage_size : ℕ
address_storage_size = 128

-- `socket_address::socket_address()`: all bytes zero
unfoldable pub empty_address : Bytes
empty_address = replicate address_storage_size 0

-- `memcpy(dst, src, n)` into the front of `dst`
unfoldable pub overlay : Bytes → ℕ → Bytes → Bytes
overlay src n dst = take n src ++ drop n dst

-- `socket_address(const sockaddr*, size_t)`: the length is not compared with the storage.
unfoldable pub from_sockaddr : Bytes → ℕ → Option Bytes
unfolding overlay empty_address
from_sockaddr addr addr_len =
    if ltb address_storage_size addr_len || ltb (length addr) addr_len
    then none
    else some (overlay addr addr_len empty_address)

unfoldable pub size : Bytes → ℕ
size a = get_or a 0 0

unfoldable pub family : Bytes → ℕ
family a = get_or a 1 0

-- The structures that `to` can be asked for, and `address_family_of`.
pub data AddressType : Type 0 where
  sockaddr sockaddr_in sockaddr_in6 other_sockaddr : AddressType

unfoldable pub address_family_of : AddressType → ℕ
address_family_of sockaddr = af_unspec
address_family_of sockaddr_in = af_inet
address_family_of sockaddr_in6 = af_inet6
address_family_of other_sockaddr = af_unspec

-- `to<_AddressType>()`: a pointer to the storage, or null; the one to `sockaddr` is never null.
unfoldable pub to : AddressType → Bytes → Option Bytes
unfolding address_family_of
to sockaddr a = some a
to sockaddr_in a = if not (address_family_of sockaddr_in == family a) then none else some a
to sockaddr_in6 a = if not (address_family_of sockaddr_in6 == family a) then none else some a
to other_sockaddr a = if not (address_family_of other_sockaddr == family a) then none else some a

-- `htons(port)` written to the port field, which is at the same place in `sockaddr_in` and
-- `sockaddr_in6`.
unfoldable pub write_port : ℕ → Bytes → Bytes
write_port port a = modify (modify a 2 (λ _. port / 256 % 256)) 3 (λ _. port % 256)

-- `a.to<T>()->sin_port = htons(port)`; `none` is the null pointer written through.
unfoldable pub set_port : AddressType → ℕ → Bytes → Option Bytes
set_port t port a = elim (to t a) [ none ↦ none | some b ↦ some (write_port port b) ]

-- How the `do … while (--n_retries > 0)` loop ends.
pub data Attempt (A : Type 0) : Type 0 where
  found : A → Attempt A
  broken exhausted : Attempt A

module _ {A K : Type 0} (call : K → Resolved × A × K) where
  unfoldable pub retry : ℕ → K → Attempt A × K
  retry zero k = (exhausted, k)
  retry (suc n) k =
      let (r, a, k') = call k in
      elim r [ resolved ↦ (found a, k') | refused ↦ (broken, k') | eai_again ↦ retry n k' ]

module _ {K : Type 0} (sys : System K) where
  -- What `addrinfo` does with what the loop found.
  store_found : Bytes → Attempt (Option AddrInfo) → AddrinfoResult × Bytes
  unfolding overlay
  store_found address broken = (AddrinfoResult.error, address)
  store_found address exhausted = (AddrinfoResult.unavailable, address)
  store_found address (found none) = (AddrinfoResult.unavailable, address)
  store_found address (found (some res)) =
      if ltb address_storage_size res.ai_addrlen
      then (AddrinfoResult.address_too_big, address)
      else (AddrinfoResult.success, overlay res.ai_addr res.ai_addrlen address)

  unfoldable pub addrinfo : Bytes → Bytes → ℕ → K → AddrinfoResult × Bytes × K
  unfolding retry store_found
  addrinfo address hostname fam k =
      let (attempt, k') = retry (sys.getaddrinfo hostname fam) max_host_resolve_retries k in
      let (result, address') = store_found address attempt in (result, address', k')

  name_found : Bytes → Attempt Bytes → NameinfoResult × Bytes
  name_found hostname broken = (NameinfoResult.error, hostname)
  name_found hostname exhausted = (NameinfoResult.unavailable, hostname)
  name_found hostname (found []) = (NameinfoResult.unavailable, hostname)
  name_found hostname (found (c ∷ text)) =
      if c == 0 then (NameinfoResult.unavailable, hostname) else (NameinfoResult.success, c ∷ text)

  unfoldable pub nameinfo : Bytes → Bytes → ℕ → K → NameinfoResult × Bytes × K
  unfolding retry name_found
  nameinfo hostname addr addr_len k =
      let (attempt, k') =
        retry (sys.getnameinfo addr addr_len hostname_buffer_size) max_host_resolve_retries k in
      let (result, hostname') = name_found hostname attempt in (result, hostname', k')

  abbrev finish_from : AddrinfoResult × Bytes × K → (Bytes → Cmd K Bytes) → Run K Bytes
  finish_from (AddrinfoResult.success, address, k) next = next address k
  finish_from (AddrinfoResult.error, address, k) next = fault logic_error
  finish_from (AddrinfoResult.unavailable, address, k) next = fault logic_error
  finish_from (AddrinfoResult.address_too_big, address, k) next = fault logic_error

  -- `->sin_port = htons(port)` of an address that is then returned
  with_port : AddressType → ℕ → Bytes → Cmd K Bytes
  unfolding set_port
  with_port t port address k = elim (set_port t port address) [
    | none ↦ fault null_pointer
    | some address' ↦ ok address' k
  ]

  -- `socket_address(const std::string& host, in_port_t port, bool use_IPv6)`
  unfoldable pub from_host : Bytes → ℕ → Bool → Cmd K Bytes
  unfolding addrinfo with_port empty_address
  from_host host port use_ipv6 k =
      finish_from (addrinfo empty_address host (if use_ipv6 then af_inet6 else af_inet) k)
        (with_port sockaddr_in port)

  -- `from(hostname, family)`
  unfoldable pub from_name : Bytes → ℕ → Cmd K Bytes
  unfolding addrinfo empty_address
  from_name hostname fam k =
      finish_from (addrinfo empty_address hostname fam k) (λ address. ok address)

  -- `from(hostname, port, family)`
  unfoldable pub from_name_port : Bytes → ℕ → ℕ → Cmd K Bytes
  unfolding addrinfo with_port empty_address
  from_name_port hostname port fam k =
      finish_from (addrinfo empty_address hostname fam k) λ address.
        if not (family address == af_inet) && not (family address == af_inet6)
        then (λ _. fault logic_error)
        else with_port sockaddr_in port address

-- What `get_ip` returns: the text of the address, or one of its messages in brackets.
pub data IpText : Type 0 where
  text : Bytes → IpText
  inet_ntop_error invalid_address_family : IpText

-- `inet_ntop(af, src, dst, size)`: null if the text and its end do not fit `size`.
module _ (inet_ntop : ℕ → Bytes → ℕ → Option Bytes) where
  ip_of : Option Bytes → IpText
  ip_of none = inet_ntop_error
  ip_of (some t) = text t

  unfoldable pub get_ip : Bytes → IpText
  unfolding ip_of
  get_ip address =
      if family address == af_inet
      then ip_of (inet_ntop af_inet (take 4 (drop 4 address)) (size address))
      else if family address == af_inet6
      then ip_of (inet_ntop af_inet6 (take 16 (drop 8 address)) (size address))
      else invalid_address_family
