-- ===== src/Tcp/Invariant/Rows.antt =====
-- The rows of the handler under additions and deletions.
use unisock.Prelude.{
  ℕ, zero, suc, ◌≡◌, ◌≢◌, sym, ℤ, some, List, [], ◌∷◌, ◌++◌, length, get_elem?, All, All-append,
  arith, inl, inr, Bool-cases, ◌==ℤ◌, ==ℤ_iff,
}
use unisock.Events.Handler.{Ptr, PollFd}
use unisock.Events.Handler.Table.{rows, remove_row}
use unisock.Tcp.Invariant.{Distinct}

abbrev pub IsNot : ℤ → ℤ × Ptr → Type 0
IsNot fd r = r.0 ≢ fd

module _ {κ} (P : ℤ × Ptr → Type κ) where
  pub All-remove_row : (fd : ℤ) (t : List (ℤ × Ptr)) → All P t → All P (remove_row fd t)
  unfolding remove_row
  All-remove_row fd [] h = tt
  All-remove_row fd ((g, p) ∷ t) h = elim (Bool-cases (g ==ℤ fd)) [
    | inl hit ↦ rw hit h.1
    | inr miss ↦ rw miss (h.0, All-remove_row fd t h.1)
  ]

pub Distinct-remove_row : (fd : ℤ) (t : List (ℤ × Ptr)) → Distinct t → Distinct (remove_row fd t)
unfolding remove_row
Distinct-remove_row fd [] d = tt
Distinct-remove_row fd ((g, p) ∷ t) d = elim (Bool-cases (g ==ℤ fd)) [
  | inl hit ↦ rw hit d.1
  | inr miss ↦ rw miss (All-remove_row (IsNot g) fd t d.0, Distinct-remove_row fd t d.1)
]

-- A deletion leaves no row of its descriptor.
pub remove_row-IsNot : (fd : ℤ) (t : List (ℤ × Ptr)) → Distinct t → All (IsNot fd) (remove_row fd t)
unfolding remove_row
remove_row-IsNot fd [] d = tt
remove_row-IsNot fd ((g, p) ∷ t) d = elim (Bool-cases (g ==ℤ fd)) [
  | inl hit ↦ let e = (==ℤ_iff g fd).0 hit in rw hit (rw e at d.0)
  | inr miss ↦ rw miss ((λ e. cc ((==ℤ_iff g fd).1 e)), remove_row-IsNot fd t d.1)
]

pub Distinct-append :
    (fd : ℤ) (p : Ptr) (t : List (ℤ × Ptr))
    → Distinct t
    → All (IsNot fd) t
    → Distinct (t ++ (fd, p) ∷ [])
Distinct-append fd p [] d n = (tt, tt)
Distinct-append fd p (r ∷ t) d n =
    (All-append _ t ((fd, p) ∷ []) d.0 ((λ e. n.0 (sym e)), tt), Distinct-append fd p t d.1 n.1)

-- The object at a position of the second vector has a row.
pub get_elem?-rows :
    (ss : List PollFd) (ps : List Ptr) (i : ℕ) (p : Ptr)
    → length ss ≡ length ps
    → get_elem? ps i ≡ some p
    → (fd : ℤ) × (get_elem? (rows ss ps) i ≡ some (fd, p))
get_elem?-rows [] [] i p l e = cc
get_elem?-rows [] (q ∷ ps) i p l e = absurd (omega arith)
get_elem?-rows (s ∷ ss) [] i p l e = absurd (omega arith)
get_elem?-rows (s ∷ ss) (q ∷ ps) zero p l e = (s.fd, ground arith)
get_elem?-rows (s ∷ ss) (q ∷ ps) (suc i) p l e = get_elem?-rows ss ps i p (omega arith) e
