-- ===== src/Events/Handler/Compare.antt =====
-- includes/events/handlers/poll/handler_impl.hpp: the comparisons of `struct pollfd` with a descriptor and
-- with each other. `find` uses `operator==(const pollfd&, int)`; nothing in the library uses the others.
use unisock.Prelude.{
  ◌≡◌, refl, ◌⊎◌, ℤ, Bool, true, false, none, List, [], ◌∷◌, All, All-map, ltb_ℤ, ◌==ℤ◌, arith,
}
use unisock.Events.Handler.{PollFd, find}

-- `operator<(const pollfd&, int)`
unfoldable below : PollFd → ℤ → Bool
below s_socket i_socket = ltb_ℤ s_socket.fd i_socket

-- `operator>(const pollfd&, int)`
unfoldable above : PollFd → ℤ → Bool
above s_socket i_socket = ltb_ℤ i_socket s_socket.fd

-- `operator==(const pollfd&, const pollfd&)`
unfoldable same : PollFd → PollFd → Bool
same a b = a.fd ==ℤ b.fd

-- `operator<(const pollfd&, const pollfd&)`
unfoldable less : PollFd → PollFd → Bool
less a b = ltb_ℤ a.fd b.fd

-- `operator>(const pollfd&, const pollfd&)`
unfoldable greater : PollFd → PollFd → Bool
greater a b = ltb_ℤ b.fd a.fd

ltb_ℤ-trans : (a b c : ℤ) → ltb_ℤ a b ≡ true → ltb_ℤ b c ≡ true → ltb_ℤ a c ≡ true
ltb_ℤ-trans a b c e f = ground arith

ltb_ℤ-not_same : (a b : ℤ) → ltb_ℤ a b ≡ true → (b ==ℤ a) ≡ false
ltb_ℤ-not_same a b e = ground arith

compare_ℤ :
    (a b : ℤ)
    → ((ltb_ℤ a b ≡ true) × ((a ==ℤ b) ≡ false) × (ltb_ℤ b a ≡ false))
      ⊎ (((ltb_ℤ a b ≡ false) × ((a ==ℤ b) ≡ true) × (ltb_ℤ b a ≡ false))
          ⊎ ((ltb_ℤ a b ≡ false) × ((a ==ℤ b) ≡ false) × (ltb_ℤ b a ≡ true)))
compare_ℤ a b = ground arith

-- Exactly one of `<`, `==` and `>` holds of two entries.
compare_cases :
    (a b : PollFd)
    → ((less a b ≡ true) × (same a b ≡ false) × (greater a b ≡ false))
      ⊎ (((less a b ≡ false) × (same a b ≡ true) × (greater a b ≡ false))
          ⊎ ((less a b ≡ false) × (same a b ≡ false) × (greater a b ≡ true)))
unfolding less same greater
compare_cases a b = compare_ℤ a.fd b.fd

find-all_above : (fd : ℤ) (l : List PollFd) → All (λ r. above r fd ≡ true) l → find fd l ≡ none
unfolding find above
find-all_above fd [] more = refl
find-all_above fd (r ∷ rest) more =
    rw (ltb_ℤ-not_same fd r.fd more.0, find-all_above fd rest more.1) refl

-- In a vector in the order of `<`, a search may stop at an entry that is above the descriptor: `find`
-- finds it neither there nor in the rest.
find-above :
    (fd : ℤ) (s : PollFd) (rest : List PollFd)
    → above s fd ≡ true
    → All (λ r. less s r ≡ true) rest
    → find fd (s ∷ rest) ≡ none
unfolding above less
find-above fd s rest e more =
    find-all_above fd (s ∷ rest)
      (e, All-map {A = PollFd} (λ r x. ltb_ℤ-trans fd s.fd r.fd e x) rest more)
