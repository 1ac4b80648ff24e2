-- ===== src/Events/Action/Returns.antt =====
-- `execute` with callbacks that all return.
use unisock.Prelude.{
  ℕ, ◌≤◌, ◌≡◌, true, false, Option, some, List, [], ◌∷◌, ◌++◌, All, arith, inl, inr, Bool-cases,
  length, Cmd, Returns, returns, Returns-bind,
}
use unisock.Events.Action.{ActionCallback, is_skipped, stops_after, execute_from, execute}
use unisock.Events.Action.Execute.{execute_from-cons}

module _ {ℓ κ} {F : Type ℓ} {S : Type κ} (call : F → Cmd S (Unit {0})) (current : S → Option ℕ)
    (J : S → Type κ) where
  -- A callback that returns and keeps `J`.
  abbrev pub KeepsAll : ActionCallback F → Type κ
  KeepsAll cb = (s : S) → J s → Returns (λ _. J) (call cb.exec s)

  execute_from-Returns :
      (n : ℕ) (cbs : List (ActionCallback F)) (s : S)
      → All KeepsAll cbs
      → ((t : S) → J t → current t ≡ some n)
      → J s
      → Returns (λ _. J) (execute_from call current n cbs s)
  execute_from-Returns n [] s h e j = unfold execute_from in returns j
  execute_from-Returns n (cb ∷ cbs) s h e j =
      rw (execute_from-cons call current n cb cbs s (e s j)) (elim (Bool-cases (is_skipped cb)) [
        | inl skipped ↦ rw skipped (execute_from-Returns n cbs s h.1 e j)
        | inr runs ↦ rw runs (elim (Bool-cases (stops_after cb)) [
          | inl stops ↦ rw stops (h.0 s j)
          | inr goes ↦
              rw goes (Returns-bind (h.0 s j) λ u t k. execute_from-Returns n cbs t h.1 e k)
        ])
      ])

  -- When callbacks keep `J`, under which the list is as it is, `execute` returns and keeps it.
  pub execute-Returns :
      (cbs : List (ActionCallback F)) (s : S)
      → All KeepsAll cbs
      → ((t : S) → J t → current t ≡ some (length cbs))
      → J s
      → Returns (λ _. J) (execute call current cbs s)
  unfolding execute
  execute-Returns cbs s h e j = execute_from-Returns (length cbs) cbs s h e j

  -- A list of one callback is not read again after it.
  pub execute_single-Returns :
      (cbs : List (ActionCallback F)) (s : S)
      → length cbs ≤ 1
      → current s ≡ some (length cbs)
      → All (λ cb. Returns (λ _. J) (call cb.exec s)) cbs
      → J s
      → Returns (λ _. J) (execute call current cbs s)
  unfolding execute
  execute_single-Returns [] s l e h j = unfold execute_from in returns j
  execute_single-Returns (cb ∷ []) s l e h j =
      rw (execute_from-cons call current 1 cb [] s e) (elim (Bool-cases (is_skipped cb)) [
        | inl skipped ↦ rw skipped (unfold execute_from in returns j)
        | inr runs ↦ rw runs (elim (Bool-cases (stops_after cb)) [
          | inl stops ↦ rw stops h.0
          | inr goes ↦ rw goes (Returns-bind h.0 λ u t k. unfold execute_from in returns k)
        ])
      ])
  execute_single-Returns (cb ∷ next ∷ cbs) s l e h j = absurd (omega arith)

  -- The same of a list whose last callback, of STOP_AFTER, ends what `J` says and brings about `Q`.
  execute_from_last-Returns :
      (Q : S → Type κ) (n : ℕ) (cbs : List (ActionCallback F)) (last : ActionCallback F) (s : S)
      → All KeepsAll cbs
      → All (λ cb. stops_after cb ≡ false) cbs
      → ((t : S) → J t → current t ≡ some n)
      → is_skipped last ≡ false
      → stops_after last ≡ true
      → ((t : S) → J t → Returns (λ _. Q) (call last.exec t))
      → J s
      → Returns (λ _. Q) (execute_from call current n (cbs ++ last ∷ []) s)
  execute_from_last-Returns Q n [] last s h go e runs stops k j =
      rw (execute_from-cons call current n last [] s (e s j), runs, stops) (k s j)
  execute_from_last-Returns Q n (cb ∷ cbs) last s h go e runs stops k j =
      rw (execute_from-cons call current n cb (cbs ++ last ∷ []) s (e s j), go.0)
        (elim (Bool-cases (is_skipped cb)) [
          | inl skipped ↦
              rw skipped (execute_from_last-Returns Q n cbs last s h.1 go.1 e runs stops k j)
          | inr calls ↦ rw calls (
              Returns-bind (h.0 s j)
                λ u t i. execute_from_last-Returns Q n cbs last t h.1 go.1 e runs stops k i)
        ])

  pub execute_last-Returns :
      (Q : S → Type κ) (cbs : List (ActionCallback F)) (last : ActionCallback F) (s : S)
      → All KeepsAll cbs
      → All (λ cb. stops_after cb ≡ false) cbs
      → ((t : S) → J t → current t ≡ some (length (cbs ++ last ∷ [])))
      → is_skipped last ≡ false
      → stops_after last ≡ true
      → ((t : S) → J t → Returns (λ _. Q) (call last.exec t))
      → J s
      → Returns (λ _. Q) (execute call current (cbs ++ last ∷ []) s)
  unfolding execute
  execute_last-Returns Q cbs last s h go e runs stops k j =
      execute_from_last-Returns Q (length (cbs ++ last ∷ [])) cbs last s h go e runs stops k j
