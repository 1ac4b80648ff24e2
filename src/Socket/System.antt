-- ===== src/Socket/System.antt =====
-- The system calls and resolver functions that the library calls, as an interface: `K` is the state of
-- the kernel, and each call returns what the C function returns with the next state. Only documented
-- behaviour is assumed of it, by the theorems that need it.
use unisock.Prelude.{ℕ, ℤ, Option, List}
use unisock.Events.Handler.{PollFd}

-- Bytes, as numbers below 256.
abbrev pub Bytes : Type 0
Bytes = List ℕ

-- Values of <sys/socket.h> and <netdb.h>, as on the systems whose `sockaddr` has `sa_len`.
abbrev pub af_unspec : ℕ
af_unspec = 0

abbrev pub af_unix : ℕ
af_unix = 1

abbrev pub af_inet : ℕ
af_inet = 2

abbrev pub af_inet6 : ℕ
af_inet6 = 30

abbrev pub sock_stream : ℕ
sock_stream = 1

abbrev pub sock_dgram : ℕ
sock_dgram = 2

-- What `getaddrinfo` leaves in `*res`: null, or the first address with its `ai_addrlen`.
pub record AddrInfo : Type 0 where
  pub ai_addr : Bytes
  pub ai_addrlen : ℕ

-- What `getaddrinfo` and `getnameinfo` return, as the code reads it: 0, EAI_AGAIN or another error.
pub data Resolved : Type 0 where
  resolved eai_again refused : Resolved

pub record System (K : Type 0) : Type 0 where
  pub errno : K → ℤ
  pub socket : ℕ → ℕ → ℕ → K → ℤ × K
  pub close : ℤ → K → K
  -- the level, the name of the option, and its value or the size of the buffer for it
  pub setsockopt : ℤ → ℕ → ℕ → Bytes → K → ℤ × K
  pub getsockopt : ℤ → ℕ → ℕ → ℕ → K → ℤ × Bytes × K
  pub bind : ℤ → Bytes → ℕ → K → ℤ × K
  pub listen : ℤ → ℕ → K → ℤ × K
  pub connect : ℤ → Bytes → ℕ → K → ℤ × K
  -- the descriptor and the peer's address
  pub accept : ℤ → K → ℤ × Bytes × K
  pub send : ℤ → Bytes → K → ℤ × K
  pub sendto : ℤ → Bytes → ℕ → Bytes → ℕ → K → ℤ × K
  pub sendmsg : ℤ → Bytes → ℕ → K → ℤ × K
  -- the result and the buffer, of the size that is given
  pub recv : ℤ → ℕ → K → ℤ × Bytes × K
  pub recvmsg : ℤ → ℕ → K → ℤ × Bytes × K
  pub recvfrom : ℤ → ℕ → K → ℤ × Bytes × Bytes × K
  -- the result and the `revents` of each entry
  pub poll : List PollFd → ℤ → K → ℤ × List ℕ × K
  pub getaddrinfo : Bytes → ℕ → K → Resolved × Option AddrInfo × K
  -- the result and the text written to the buffer
  pub getnameinfo : Bytes → ℕ → ℕ → K → Resolved × Bytes × K
