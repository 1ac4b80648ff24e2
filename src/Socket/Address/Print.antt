-- ===== src/Socket/Address/Print.antt =====
-- src/socket/socket_address.cpp, `to_string`: which lines it writes, and with what values. The text of a
-- line is its constructor here; numbers are read as on a little-endian machine.
pub mod Cases
use unisock.Prelude.{
  ℕ, ◌+◌, ◌*◌, ℤ, pos, negsuc, Bool, ltb, not, Option, none, some, List, [], map, take, drop,
  get_or, if◌then◌else◌, ◌==◌, ◌-◌, Run, ok, fault, Cmd, null_pointer,
}
use unisock.Socket.System.{Bytes, System, af_unspec, af_unix, af_inet, af_inet6}
use unisock.Socket.Address.{
  NameinfoResult, size, family, to, sockaddr_in, sockaddr_in6, nameinfo, IpText, get_ip,
}

-- The name in parentheses: of the host, or "could not retrieve host: " with the error.
pub data Host : Type 0 where
  host : Bytes → Host
  could_not_retrieve_host : ℤ → Host

pub data AddressText : Type 0 where
  -- sin_len, sin_addr with the host, sin_port and sin_zero
  inet : ℕ → IpText → Host → ℕ → List ℤ → AddressText
  -- sin6_len, sin6_addr with the host, sin6_port, sin6_flowinfo and sin6_scope_id
  inet6 : ℕ → IpText → Host → ℕ → ℕ → ℕ → AddressText
  unspec : ℕ → AddressText
  -- "unkown address family: " of the general template, and "unknown address family: "
  unkown unknown : ℕ → AddressText

-- `static_cast<int>` of a `char`
abbrev pub signed_char : ℕ → ℤ
signed_char n = if ltb n 128 then pos n else negsuc (255 - n)

-- `sin_port` as a number, without `ntohs`
unfoldable pub sin_port : Bytes → ℕ
sin_port a = get_or a 2 0 + get_or a 3 0 * 256

-- Four bytes as a number
word_at : ℕ → Bytes → ℕ
word_at i a =
    get_or a i 0
    + 256 * (get_or a (i + 1) 0 + 256 * (get_or a (i + 2) 0 + 256 * get_or a (i + 3) 0))

module _ {K : Type 0} (sys : System K) (inet_ntop : ℕ → Bytes → ℕ → Option Bytes) where
  -- `nameinfo(host, *this)`, and what is written of it
  unfoldable pub host_of : Bytes → K → Host × K
  host_of address k =
      let (result, hostname, k') = nameinfo sys [] address (size address) k in
      elim result [
        | NameinfoResult.success ↦ (host hostname, k')
        | NameinfoResult.error ↦ (could_not_retrieve_host (sys.errno k'), k')
        | NameinfoResult.unavailable ↦ (could_not_retrieve_host (sys.errno k'), k')
        | NameinfoResult.name_too_big ↦ (could_not_retrieve_host (sys.errno k'), k')
      ]

  -- `_to_string<AF_INET>` with what `to<sockaddr_in>()` gives
  inet_text : Bytes → Host → Option Bytes → Cmd K AddressText
  unfolding sin_port
  inet_text address h none k = fault null_pointer
  inet_text address h (some a) k =
      ok
        (inet (size address) (get_ip inet_ntop address) h (sin_port a)
          (map signed_char (take 8 (drop 8 a))))
        k

  -- `_to_string<AF_INET6>`, which reads the port through `to<sockaddr_in>()` and the rest through
  -- `to<sockaddr_in6>()`
  inet6_text : Bytes → Host → Option Bytes → Option Bytes → Cmd K AddressText
  unfolding sin_port word_at
  inet6_text address h none b k = fault null_pointer
  inet6_text address h (some a) none k = fault null_pointer
  inet6_text address h (some a) (some b) k =
      ok
        (inet6 (size address) (get_ip inet_ntop address) h (sin_port a) (word_at 4 b)
          (word_at 24 b))
        k

  -- `to_string`
  unfoldable pub to_string : Bytes → Cmd K AddressText
  unfolding host_of inet_text inet6_text
  to_string address k =
      let (h, k') = host_of address k in
      if family address == af_inet
      then inet_text address h (to sockaddr_in address) k'
      else if family address == af_inet6
      then inet6_text address h (to sockaddr_in address) (to sockaddr_in6 address) k'
      else if family address == af_unix
      then ok (unkown (family address)) k
      else if family address == af_unspec
      then ok (unspec (size address)) k
      else ok (unknown (family address)) k
