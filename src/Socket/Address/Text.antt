-- ===== src/Socket/Address/Text.antt =====
-- `get_ip`, and the size that it hands to `inet_ntop`.
use unisock.Prelude.{ℕ, ◌≤◌, ◌<◌, ◌≡◌, Option, none, some, length, take, drop, arith}
use unisock.Socket.System.{Bytes, af_inet, af_inet6}
use unisock.Socket.Address.{family, size, text, inet_ntop_error, get_ip}

-- `inet_ntop` as documented: it writes the text of the address with its end mark where they fit the
-- size that it is given, and fails otherwise.
pub record IsNtop (inet_ntop : ℕ → Bytes → ℕ → Option Bytes) (present : ℕ → Bytes → Bytes)
    : Type 0 where
  pub fits :
      (af : ℕ) (b : Bytes) (n : ℕ)
      → length (present af b) < n
      → inet_ntop af b n ≡ some (present af b)
  pub no_space : (af : ℕ) (b : Bytes) (n : ℕ) → n ≤ length (present af b) → inet_ntop af b n ≡ none

module _ (inet_ntop : ℕ → Bytes → ℕ → Option Bytes) (present : ℕ → Bytes → Bytes)
    (doc : IsNtop inet_ntop present) where
  -- For an IPv4 address whose size field is that of `sockaddr_in`, `get_ip` returns its text, which has
  -- at most 15 characters.
  pub get_ip_ipv4 :
      (a : Bytes)
      → family a ≡ af_inet
      → size a ≡ 16
      → length (present af_inet (take 4 (drop 4 a))) ≤ 15
      → get_ip inet_ntop a ≡ text (present af_inet (take 4 (drop 4 a)))
  unfolding get_ip
  get_ip_ipv4 a f s l = rw (f, s, doc.fits 2 (take 4 (drop 4 a)) 16 (omega arith))

  -- The buffer of 128 bytes has room for the text of every IPv6 address, but the size that is passed is
  -- the size field, 28 in a `sockaddr_in6`: from 28 characters on the text does not fit, and `get_ip`
  -- returns its error message for a valid address.
  pub get_ip_ipv6_long :
      (a : Bytes)
      → family a ≡ af_inet6
      → size a ≡ 28
      → 28 ≤ length (present af_inet6 (take 16 (drop 8 a)))
      → get_ip inet_ntop a ≡ inet_ntop_error
  unfolding get_ip
  get_ip_ipv6_long a f s l = rw (f, s, doc.no_space 30 (take 16 (drop 8 a)) 28 l)
