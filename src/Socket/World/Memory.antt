-- ===== src/Socket/World/Memory.antt =====
-- Reading and writing objects and containers.
use unisock.Prelude.{
  ◌≡◌, ◌≢◌, refl, sym, ap, ◌∙◌, ℤ, true, Option, none, some, List, [], ◌∷◌, arith, if◌then◌else◌,
  ◌==ℤ◌, ==_self, ==_iff, ==ℤ_iff, ok,
}
use native.Mathlib.Decide.{ℕ_discrete}
use unisock.Events.Handler.{Ptr}
use unisock.Socket.World.{
  Owner, Connection, World, same_owner, put_object, load, store, map_find, map_erase, map_insert,
}

module _ {K : Type 0} (p : Ptr) (w : World K) where
  pub load-live : {c : Connection} → w.heap p ≡ some c → load p w ≡ ok c w
  unfolding load
  load-live e = rw (e, load)

  pub store-live :
      {c : Connection} (f : Connection → Connection)
      → w.heap p ≡ some c
      → store p f w ≡ ok tt (put_object p (some (f c)) w)
  unfolding store
  store-live f e = rw (e, store)

  pub heap-put_object : (o : Option Connection) → (put_object p o w).heap p ≡ o
  unfolding put_object
  heap-put_object o = rw (==_self p)

  pub load-put_object :
      (c : Connection) → load p (put_object p (some c) w) ≡ ok c (put_object p (some c) w)
  unfolding load
  load-put_object c = rw (heap-put_object (some c), load)

  pub heap-put_object_ne :
      (o : Option Connection) (q : Ptr) → q ≢ p → (put_object p o w).heap q ≡ w.heap q
  unfolding put_object
  heap-put_object_ne o q ne = ground (arith, ==_iff q p)

module _ {K : Type 0} where
  pub heap_unique :
      (w : World K) (p q : Ptr) (c d : Connection)
      → w.heap p ≡ some c
      → w.heap q ≡ some d
      → q ≡ p
      → d ≡ c
  heap_unique w p q c d ec ed same = let e : some d ≡ some c = sym ed ∙ ap w.heap same ∙ ec in cc e

  -- What holds of a new object and of all objects before holds of all objects after.
  pub put_object-all {κ} :
      (p : Ptr) (d : Connection) (w : World K) (P : Ptr → Connection → Type κ)
      → P p d
      → ((q : Ptr) (x : Connection) → w.heap q ≡ some x → P q x)
      → (q : Ptr) (x : Connection) → (put_object p (some d) w).heap q ≡ some x
      → P q x
  put_object-all p d w P new old q x e = elim (ℕ_discrete q p) [
    | yes same ↦
        rw
          (
            same,
            heap_unique (put_object p (some d) w) p q d x (heap-put_object p w (some d)) e same,
          )
          new
    | no ne ↦ old q x (sym (heap-put_object_ne p w (some d) q ne) ∙ e)
  ]

  -- The objects that are left after the destruction of one.
  pub put_object-none {κ} :
      (p : Ptr) (w : World K) (P : Ptr → Connection → Type κ)
      → ((q : Ptr) (x : Connection) → q ≢ p → w.heap q ≡ some x → P q x)
      → (q : Ptr) (x : Connection) → (put_object p none w).heap q ≡ some x
      → P q x
  put_object-none p w P old q x e = elim (ℕ_discrete q p) [
    | yes same ↦ absurd (cc (e, heap-put_object p w none, ap (put_object p none w).heap same))
    | no ne ↦ old q x ne (sym (heap-put_object_ne p w none q ne) ∙ e)
  ]

pub same_owner_iff :
    (a b : Owner) → (same_owner a b ≡ true → a ≡ b) × (a ≡ b → same_owner a b ≡ true)
unfolding same_owner
same_owner_iff a b = ground arith

pub map_find-erase_ne :
    (key other : ℤ) (m : List (ℤ × Ptr))
    → key ≢ other
    → map_find other (map_erase key m) ≡ map_find other m
unfolding map_find map_erase
map_find-erase_ne key other [] ne = refl
map_find-erase_ne key other ((k, q) ∷ m) ne =
    ground (arith, ==ℤ_iff k key, ==ℤ_iff k other, map_find-erase_ne key other m ne)

pub map_find-insert :
    (key other : ℤ) (p : Ptr) (m : List (ℤ × Ptr))
    → map_find key m ≡ none
    → map_find other (map_insert key p m) ≡ (if key ==ℤ other then some p else map_find other m)
unfolding map_find map_insert
map_find-insert key other p [] free = refl
map_find-insert key other p ((k, q) ∷ m) free =
    ground (arith, ==ℤ_iff k key, ==ℤ_iff k other, ==ℤ_iff key other, map_find-insert key other p m)
