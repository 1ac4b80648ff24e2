-- ===== src/Events/Handler/Interest.antt =====
-- What `socket_want_read` and `socket_want_write` do to the events that the next poll asks for.
use unisock.Prelude.{
  ℕ, suc, ◌≡◌, ◌≢◌, refl, sym, ◌∙◌, ℤ, Bool, inl, inr, Option, none, some, List, [], ◌∷◌, modify,
  has_flag, put_flag, arith, Bool-cases, if◌then◌else◌, ◌==ℤ◌, ==ℤ_iff, has_flag-put_four,
  has_flag-put_four_one, has_flag-put_one, has_flag-put_one_four,
}
use mathlib.Core.Option
use unisock.Events.Handler.{
  PollFd, Handler, pollin, pollout, find, set_events, want, socket_want_read, socket_want_write,
}

-- The events that are asked for on a descriptor, by its first entry.
unfoldable pub interest_in : ℤ → List PollFd → Option ℕ
interest_in fd [] = none
interest_in fd (s ∷ ss) =
    let rest = interest_in fd ss in if s.fd ==ℤ fd then some s.events else rest

abbrev pub interest : Handler → ℤ → Option ℕ
interest h fd = interest_in fd h.sockets

abbrev want_at : Option ℕ → ℕ → Bool → List PollFd → List PollFd
want_at none mask b ss = ss
want_at (some i) mask b ss = modify ss i (λ s. set_events s mask b)

want_at-cons :
    (o : Option ℕ) (mask : ℕ) (b : Bool) (s : PollFd) (ss : List PollFd)
    → want_at (Option.map suc o) mask b (s ∷ ss) ≡ s ∷ want_at o mask b ss
want_at-cons none mask b s ss = refl
want_at-cons (some i) mask b s ss = refl

interest_in-want_at :
    (mask : ℕ) (b : Bool) (fd g : ℤ) (ss : List PollFd)
    → interest_in g (want_at (find fd ss) mask b ss) ≡ (
        if fd ==ℤ g
        then Option.map (λ w. put_flag w mask b) (interest_in g ss)
        else interest_in g ss)
unfolding interest_in find
interest_in-want_at mask b fd g [] = ground arith
interest_in-want_at mask b fd g (s ∷ ss) = elim (Bool-cases (s.fd ==ℤ fd)) [
  | inl hit ↦
      rw hit (unfold set_events in ground (arith, ==ℤ_iff s.fd fd, ==ℤ_iff s.fd g, ==ℤ_iff fd g))
  | inr miss ↦
      rw (miss, want_at-cons (find fd ss) mask b s ss)
        (ground (
          arith,
          ==ℤ_iff s.fd fd,
          ==ℤ_iff s.fd g,
          ==ℤ_iff fd g,
          interest_in-want_at mask b fd g ss,
        ))
]

sockets-want :
    (mask : ℕ) (h : Handler) (fd : ℤ) (b : Bool)
    → (want mask h fd b).sockets ≡ want_at (find fd h.sockets) mask b h.sockets
unfolding want
sockets-want mask h fd b = ground arith

interest-want :
    (mask : ℕ) (h : Handler) (fd g : ℤ) (b : Bool)
    → interest (want mask h fd b) g
      ≡ (if fd ==ℤ g then Option.map (λ w. put_flag w mask b) (interest h g) else interest h g)
interest-want mask h fd g b =
    rw (sockets-want mask h fd b) (interest_in-want_at mask b fd g h.sockets)

-- For a registered descriptor `g`, `socket_want_write` on any descriptor leaves it registered, with
-- the interest in POLLIN as it was, and the interest in POLLOUT as it was unless the call is on `g`:
-- then it is the flag that was given.
pub interest-socket_want_write :
    (h : Handler) (fd g : ℤ) (b : Bool) (w : ℕ)
    → interest h g ≡ some w
    → (v : ℕ) × (interest (socket_want_write h fd b) g ≡ some v)
      × (has_flag v pollin ≡ has_flag w pollin)
      × (has_flag v pollout ≡ (if fd ==ℤ g then b else has_flag w pollout))
unfolding socket_want_write
interest-socket_want_write h fd g b w e = elim (Bool-cases (fd ==ℤ g)) [
  | inl same ↦ (
    put_flag w pollout b,
    interest-want pollout h fd g b ∙ rw (same, e) refl,
    has_flag-put_four_one w b,
    rw same (has_flag-put_four w b),
  )
  | inr other ↦ (w, interest-want pollout h fd g b ∙ rw other e, refl, rw other refl)
]

-- For any other descriptor the next poll asks for what it asked before.
pub interest-socket_want_write_other :
    (h : Handler) (fd g : ℤ) (b : Bool)
    → g ≢ fd
    → interest (socket_want_write h fd b) g ≡ interest h g
unfolding socket_want_write
interest-socket_want_write_other h fd g b ne = elim (Bool-cases (fd ==ℤ g)) [
  | inl same ↦ absurd (ne (sym ((==ℤ_iff fd g).0 same)))
  | inr other ↦ interest-want pollout h fd g b ∙ rw other refl
]

-- The same of `socket_want_read`, with the two flags exchanged.
pub interest-socket_want_read :
    (h : Handler) (fd g : ℤ) (b : Bool) (w : ℕ)
    → interest h g ≡ some w
    → (v : ℕ) × (interest (socket_want_read h fd b) g ≡ some v)
      × (has_flag v pollout ≡ has_flag w pollout)
      × (has_flag v pollin ≡ (if fd ==ℤ g then b else has_flag w pollin))
unfolding socket_want_read
interest-socket_want_read h fd g b w e = elim (Bool-cases (fd ==ℤ g)) [
  | inl same ↦ (
    put_flag w pollin b,
    interest-want pollin h fd g b ∙ rw (same, e) refl,
    has_flag-put_one_four w b,
    rw same (has_flag-put_one w b),
  )
  | inr other ↦ (w, interest-want pollin h fd g b ∙ rw other e, refl, rw other refl)
]
