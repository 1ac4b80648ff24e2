-- ===== src/Events/Poll/Plain.antt =====
-- The plain loop over what `::poll` reported, which the event loop is compared with.
use unisock.Prelude.{
  ℕ, zero, suc, ◌≡◌, refl, ap, ℤ, pos, negsuc, pred_ℤ, is_neg, Bool, true, false, some, List, [],
  ◌∷◌, ◌⊎◌, inr, arith, get_elem?, drop, drop_get, has_flag, if◌then◌else◌, ◌==◌, ◌==ℤ◌, ok, Cmd,
  and_then,
}
use unisock.Events.Handler.{Ptr, PollFd, Handler, pollin, pollout, get_ref, ref_has_changed}
use unisock.Events.Poll.{Program}

-- The entries with the objects beside them: what `::poll` reported, and for whom.
unfoldable pub reports : List PollFd → List Ptr → List (ℕ × Ptr)
reports [] ps = []
reports (s ∷ ss) [] = []
reports (s ∷ ss) (p ∷ ps) = (s.revents, p) ∷ reports ss ps

-- The number of descriptors with something to report, which `::poll` returns.
unfoldable pub ready_count : List (ℕ × Ptr) → ℕ
ready_count [] = 0
ready_count ((r, p) ∷ rs) = let rest = ready_count rs in if r == 0 then rest else suc rest

abbrev pub when {ℓ} : {S : Type ℓ} → Bool → Cmd S (Unit {0}) → Cmd S (Unit {0})
when true m s = m s
when false m s = ok tt s

pub drop-step :
    (h : Handler) (i : ℕ) (x : PollFd) (p : Ptr)
    → get_elem? h.sockets i ≡ some x
    → get_elem? h.socket_ptrs i ≡ some p
    → reports (drop i h.sockets) (drop i h.socket_ptrs)
      ≡ (x.revents, p) ∷ reports (drop (suc i) h.sockets) (drop (suc i) h.socket_ptrs)
unfolding reports
drop-step h i x p ex ep = rw (drop_get h.sockets i ex, drop_get h.socket_ptrs i ep)

module _ {S : Type 0} (P : Program S) where
  open P use {handler, sys_poll, on_readable, on_writeable}

  -- The plain loop: each object in order, its read side before its write side.
  unfoldable pub serve_all : List (ℕ × Ptr) → Cmd S (Unit {0})
  serve_all [] s = ok tt s
  serve_all ((r, p) ∷ rs) s =
      and_then (when (has_flag r pollin) (on_readable p) s)
        (λ _ t. and_then (when (has_flag r pollout) (on_writeable p) t) (λ _. serve_all rs))

  -- A callback that registers and deregisters nothing.
  abbrev pub IsQuiet : (Ptr → Cmd S (Unit {0})) → Type 0
  IsQuiet f = (p : Ptr) (s : S) (u : Unit {0}) (t : S) → f p s ≡ ok u t → handler t ≡ handler s

  -- `::poll` succeeded and returned its count, or failed.
  abbrev pub Counts : ℤ → List (ℕ × Ptr) → Type 0
  Counts n rs = (n ≡ pos (ready_count rs)) ⊎ (is_neg n ≡ true)

  pub serve_all_idle : (rs : List (ℕ × Ptr)) (s : S) → ready_count rs ≡ 0 → serve_all rs s ≡ ok tt s
  unfolding serve_all ready_count
  serve_all_idle [] s e = refl
  serve_all_idle ((zero, p) ∷ rs) s e = serve_all_idle rs s e
  serve_all_idle ((suc r, p) ∷ rs) s e = ground arith

  pub when-quiet :
      (b : Bool) (f : Ptr → Cmd S (Unit {0})) (p : Ptr) (s : S) (u : Unit {0}) (t : S)
      → IsQuiet f
      → when b (f p) s ≡ ok u t
      → handler t ≡ handler s
  when-quiet true f p s u t q e = q p s u t e
  when-quiet false f p s u t q e = ap handler (cc)

  pub ref_of_same : (h : Handler) → ref_has_changed h (get_ref h) ≡ false
  unfolding ref_has_changed
  ref_of_same h = ground arith

  pub Counts-pred :
      (r : ℕ) (p : Ptr) (rs : List (ℕ × Ptr)) (m : ℤ)
      → (r == 0) ≡ false
      → Counts m ((r, p) ∷ rs)
      → Counts (pred_ℤ m) rs × ((pred_ℤ m ==ℤ pos 0) ≡ true → ready_count rs ≡ 0)
  unfolding ready_count
  Counts-pred r p rs (pos zero) ready c = ground arith
  Counts-pred r p rs (pos (suc n)) ready c = ground arith
  Counts-pred r p rs (negsuc n) ready c = (inr refl, λ h. cc)

  pub serve_all_zero :
      (r : ℕ) (p : Ptr) (rs : List (ℕ × Ptr)) (s : S)
      → (r == 0) ≡ true
      → serve_all ((r, p) ∷ rs) s ≡ serve_all rs s
  unfolding serve_all
  serve_all_zero zero p rs s e = refl
  serve_all_zero (suc r) p rs s e = ground arith

  pub Counts-idle :
      (r : ℕ) (p : Ptr) (rs : List (ℕ × Ptr)) (m : ℤ)
      → (r == 0) ≡ true
      → Counts m ((r, p) ∷ rs)
      → Counts m rs
  unfolding ready_count
  Counts-idle r p rs m e c = rw e at c
