-- ===== src/Tcp/Invariant/Kernel.antt =====
-- What the theorems assume of the kernel and the resolver.
use unisock.Prelude.{ℕ, ◌≡◌, ◌≢◌, ℤ, is_neg, Bool, true, false, List}
use unisock.Events.Handler.{PollFd}
use unisock.Socket.System.{Bytes, System}
use unisock.Socket.Address.Answers.{AnswersFamily}

module _ {K : Type 0} (is_open : K → ℤ → Bool) where
  -- The documented behaviour of the descriptors of the kernel: `accept` gives one that is not open, and
  -- opens it alone; `close` closes its argument alone; the other calls open and close none.
  pub record HasDescriptors (sys : System K) : Type 0 where
    pub accept_new :
        (s : ℤ) (k : K) → is_neg (sys.accept s k).0 ≡ false → is_open k (sys.accept s k).0 ≡ false
    pub accept_opens :
        (s : ℤ) (k : K)
        → is_neg (sys.accept s k).0 ≡ false
        → is_open (sys.accept s k).2 (sys.accept s k).0 ≡ true
    pub accept_keeps :
        (s fd : ℤ) (k : K) → is_open k fd ≡ true → is_open (sys.accept s k).2 fd ≡ true
    pub close_keeps :
        (s fd : ℤ) (k : K) → fd ≢ s → is_open k fd ≡ true → is_open (sys.close s k) fd ≡ true
    pub send_keeps :
        (s fd : ℤ) (m : Bytes) (k : K) → is_open k fd ≡ true → is_open (sys.send s m k).1 fd ≡ true
    pub recv_keeps :
        (s fd : ℤ) (n : ℕ) (k : K) → is_open k fd ≡ true → is_open (sys.recv s n k).2 fd ≡ true
    pub poll_keeps :
        (ss : List PollFd) (timeout fd : ℤ) (k : K)
        → is_open k fd ≡ true
        → is_open (sys.poll ss timeout k).2 fd ≡ true

  -- The same of the calls that set a socket up, and what the resolver answers: an address with its size
  -- and with the family that is asked for.
  pub record HasSetup (sys : System K) : Type 0 where
    pub socket_new :
        (domain type protocol : ℕ) (k : K)
        → is_neg (sys.socket domain type protocol k).0 ≡ false
        → is_open k (sys.socket domain type protocol k).0 ≡ false
    pub socket_opens :
        (domain type protocol : ℕ) (k : K)
        → is_neg (sys.socket domain type protocol k).0 ≡ false
        → is_open (sys.socket domain type protocol k).1 (sys.socket domain type protocol k).0 ≡ true
    pub socket_keeps :
        (domain type protocol : ℕ) (fd : ℤ) (k : K)
        → is_open k fd ≡ true
        → is_open (sys.socket domain type protocol k).1 fd ≡ true
    pub bind_keeps :
        (s fd : ℤ) (a : Bytes) (n : ℕ) (k : K)
        → is_open k fd ≡ true
        → is_open (sys.bind s a n k).1 fd ≡ true
    pub listen_keeps :
        (s fd : ℤ) (n : ℕ) (k : K) → is_open k fd ≡ true → is_open (sys.listen s n k).1 fd ≡ true
    pub connect_keeps :
        (s fd : ℤ) (a : Bytes) (n : ℕ) (k : K)
        → is_open k fd ≡ true
        → is_open (sys.connect s a n k).1 fd ≡ true
    pub getaddrinfo_keeps :
        (hostname : Bytes) (family : ℕ) (fd : ℤ) (k : K)
        → is_open k fd ≡ true
        → is_open (sys.getaddrinfo hostname family k).2 fd ≡ true
    pub answers_family :
        (hostname : Bytes) (family : ℕ) (k : K)
        → AnswersFamily family (sys.getaddrinfo hostname family k).1
