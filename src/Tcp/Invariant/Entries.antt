-- ===== src/Tcp/Invariant/Entries.antt =====
-- The entries of a container under insertions and deletions.
use unisock.Prelude.{
  ◌≡◌, sym, subst, ℤ, none, some, List, [], ◌∷◌, All, inl, inr, Bool-cases, ◌==ℤ◌, ==ℤ_iff, ltb_ℤ,
}
use unisock.Events.Handler.{Ptr}
use unisock.Socket.World.{map_find, map_insert, map_erase}
use unisock.Tcp.Invariant.{Distinct}
use unisock.Tcp.Invariant.Rows.{IsNot}

pub some_unique {ℓ} : {A : Type ℓ} {a b : A} → some a ≡ some b → a ≡ b
some_unique e = cc e

module _ {κ} (P : ℤ × Ptr → Type κ) where
  pub All-map_insert :
      (key : ℤ) (p : Ptr) (m : List (ℤ × Ptr)) → P (key, p) → All P m → All P (map_insert key p m)
  unfolding map_insert
  All-map_insert key p [] new h = (new, tt)
  All-map_insert key p ((k, q) ∷ m) new h = elim (Bool-cases (ltb_ℤ key k)) [
    | inl before ↦ rw before (new, h)
    | inr after ↦ rw after (h.0, All-map_insert key p m new h.1)
  ]

  pub All-map_erase : (key : ℤ) (m : List (ℤ × Ptr)) → All P m → All P (map_erase key m)
  unfolding map_erase
  All-map_erase key [] h = tt
  All-map_erase key ((k, q) ∷ m) h = elim (Bool-cases (k ==ℤ key)) [
    | inl hit ↦ rw hit h.1
    | inr miss ↦ rw miss (h.0, All-map_erase key m h.1)
  ]

module _ {κ} (P : ℤ × Ptr → Type κ) where
  pub All-map_find :
      (key : ℤ) (p : Ptr) (m : List (ℤ × Ptr)) → All P m → map_find key m ≡ some p → P (key, p)
  unfolding map_find
  All-map_find key p [] h e = cc e
  All-map_find key p ((k, q) ∷ m) h e = elim (Bool-cases (k ==ℤ key)) [
    | inl hit ↦
        let at = rw hit at e in
        let same : some q ≡ some p = at in
        subst P (λ i. ((==ℤ_iff k key).0 hit i, some_unique same i)) h.0
    | inr miss ↦ let rest = rw miss at e in All-map_find key p m h.1 rest
  ]

pub map_find-IsNot : (key : ℤ) (m : List (ℤ × Ptr)) → map_find key m ≡ none → All (IsNot key) m
unfolding map_find
map_find-IsNot key [] e = tt
map_find-IsNot key ((k, q) ∷ m) e = elim (Bool-cases (k ==ℤ key)) [
  | inl hit ↦ let taken = rw hit at e in cc taken
  | inr miss ↦
      let rest = rw miss at e in
      ((λ same. cc (miss, (==ℤ_iff k key).1 same)), map_find-IsNot key m rest)
]

pub Distinct-map_insert :
    (key : ℤ) (p : Ptr) (m : List (ℤ × Ptr))
    → All (IsNot key) m
    → Distinct m
    → Distinct (map_insert key p m)
unfolding map_insert
Distinct-map_insert key p [] n d = (tt, tt)
Distinct-map_insert key p ((k, q) ∷ m) n d = elim (Bool-cases (ltb_ℤ key k)) [
  | inl before ↦ rw before (n, d)
  | inr after ↦ rw after (
    All-map_insert (IsNot k) key p m (λ same. n.0 (sym same)) d.0,
    Distinct-map_insert key p m n.1 d.1,
  )
]

pub Distinct-map_erase : (key : ℤ) (m : List (ℤ × Ptr)) → Distinct m → Distinct (map_erase key m)
unfolding map_erase
Distinct-map_erase key [] d = tt
Distinct-map_erase key ((k, q) ∷ m) d = elim (Bool-cases (k ==ℤ key)) [
  | inl hit ↦ rw hit d.1
  | inr miss ↦ rw miss (All-map_erase (IsNot k) key m d.0, Distinct-map_erase key m d.1)
]

pub map_erase-IsNot :
    (key : ℤ) (m : List (ℤ × Ptr)) → Distinct m → All (IsNot key) (map_erase key m)
unfolding map_erase
map_erase-IsNot key [] d = tt
map_erase-IsNot key ((k, q) ∷ m) d = elim (Bool-cases (k ==ℤ key)) [
  | inl hit ↦ let e = (==ℤ_iff k key).0 hit in rw hit (rw e at d.0)
  | inr miss ↦ rw miss ((λ e. cc (miss, (==ℤ_iff k key).1 e)), map_erase-IsNot key m d.1)
]
