-- ===== src/Events/Action/Execute.antt =====
-- Which callbacks `execute` runs: those that are not skipped, up to the first of STOP_AFTER.
use unisock.Prelude.{
  ℕ, ◌≡◌, ◌∙◌, refl, sym, false, Option, none, some, List, [], ◌∷◌, All, inl, inr, Bool-cases,
  length, if◌then◌else◌, ok, fault, dangling, Cmd, and_then, and_then-cong, and_then-pure, ==_self,
}
use unisock.Events.Action.{ActionCallback, is_skipped, stops_after, execute_from, execute}

module _ {ℓ} {F : Type ℓ} where
  -- What is to run, as a list of its own.
  pub scheduled : List (ActionCallback F) → List F
  scheduled [] = []
  scheduled (cb ∷ cbs) =
      let rest = scheduled cbs in
      if is_skipped cb then rest else cb.exec ∷ (if stops_after cb then [] else rest)

  abbrev pub NoStop : ActionCallback F → Type 0
  NoStop cb = stops_after cb ≡ false

  module _ {κ} {S : Type κ} (call : F → Cmd S (Unit {0})) where
    -- Running functions one after the other.
    pub run_all : List F → Cmd S (Unit {0})
    run_all [] s = ok tt s
    run_all (f ∷ fs) s = and_then (call f s) (λ _. run_all fs)

  -- `call f` leaves the list that `execute` walks as it is.
  abbrev pub LeavesList {κ} :
      {S : Type κ} (call : F → Cmd S (Unit {0})) (current : S → Option ℕ) (n : ℕ) → F → Type κ
  LeavesList {S = S} call current n f =
      (u : Unit {0}) (s t : S) → current s ≡ some n → call f s ≡ ok u t → current t ≡ some n

  -- Only a callback of STOP_AFTER may change or destroy the list.
  abbrev pub IsCareful {κ} :
      {S : Type κ} (call : F → Cmd S (Unit {0})) (current : S → Option ℕ) (n : ℕ)
      → ActionCallback F
      → Type κ
  IsCareful call current n cb = stops_after cb ≡ false → LeavesList call current n cb.exec

module _ {ℓ κ} {F : Type ℓ} {S : Type κ} (call : F → Cmd S (Unit {0}))
    (current : S → Option ℕ) where
  -- One round, while the list is as it was.
  pub execute_from-cons :
      (n : ℕ) (cb : ActionCallback F) (cbs : List (ActionCallback F)) (s : S)
      → current s ≡ some n
      → execute_from call current n (cb ∷ cbs) s ≡ (
          if is_skipped cb
          then execute_from call current n cbs s
          else if stops_after cb
          then call cb.exec s
          else and_then (call cb.exec s) (λ _. execute_from call current n cbs))
  unfolding execute_from
  execute_from-cons n cb cbs s e = rw (e, execute_from) (rw (==_self n))

  execute_from-scheduled :
      (n : ℕ) (cbs : List (ActionCallback F)) (s : S)
      → All (IsCareful call current n) cbs
      → current s ≡ some n
      → execute_from call current n cbs s ≡ run_all call (scheduled cbs) s
  unfolding execute_from scheduled run_all
  execute_from-scheduled n [] s h e = refl
  execute_from-scheduled n (cb ∷ cbs) s h e =
      rw (execute_from-cons n cb cbs s e) (elim (Bool-cases (is_skipped cb)) [
        | inl skipped ↦ rw skipped (execute_from-scheduled n cbs s h.1 e)
        | inr runs ↦ rw runs (elim (Bool-cases (stops_after cb)) [
          | inl stops ↦ rw stops (sym (and_then-pure (call cb.exec s)))
          | inr goes ↦ rw goes (
              and_then-cong (call cb.exec s)
                λ u t r. execute_from-scheduled n cbs t h.1 (h.0 goes u s t e r))
        ])
      ])

  -- `execute` runs exactly the callbacks that are not skipped, in list order, up to and including the
  -- first one of STOP_AFTER, when no other callback changes the list; that last one may destroy it.
  pub execute-scheduled :
      (cbs : List (ActionCallback F)) (s : S)
      → current s ≡ some (length cbs)
      → All (IsCareful call current (length cbs)) cbs
      → execute call current cbs s ≡ run_all call (scheduled cbs) s
  unfolding execute
  execute-scheduled cbs s e h = execute_from-scheduled (length cbs) cbs s h e

  -- A callback that destroys its own list without STOP_AFTER is undefined behaviour as soon as another
  -- callback follows it.
  pub execute_dangling :
      (cb next : ActionCallback F) (cbs : List (ActionCallback F)) (s t : S)
      → current s ≡ some (length (cb ∷ next ∷ cbs))
      → is_skipped cb ≡ false
      → stops_after cb ≡ false
      → call cb.exec s ≡ ok tt t
      → current t ≡ none
      → execute call current (cb ∷ next ∷ cbs) s ≡ fault dangling
  unfolding execute
  execute_dangling cb next cbs s t e runs goes r gone =
      rw (execute_from-cons _ cb (next ∷ cbs) s e, runs, goes, r)
        (unfold execute_from in rw (gone, execute_from))

  -- A list of one callback without flags.
  pub execute_single :
      (f : F) (s : S)
      → current s ≡ some 1
      → execute call current (record { exec = f; flags = 0 } ∷ []) s ≡ call f s
  unfolding execute
  execute_single f s e =
      execute_from-cons 1 (record { exec = f; flags = 0 }) [] s e
      ∙ (unfold is_skipped stops_after execute_from in and_then-pure (call f s))

  pub execute_none : (s : S) → execute call current [] s ≡ ok tt s
  unfolding execute
  execute_none s = unfold execute_from in refl

  -- A list of two callbacks, of which the second is of QUEUE_END and STOP_AFTER.
  pub execute_pair :
      (f g : F) (s t : S)
      → current s ≡ some 2
      → call f s ≡ ok tt t
      → current t ≡ some 2
      → execute call current
          (record { exec = f; flags = 0 } ∷ record { exec = g; flags = 6 } ∷ [])
          s
        ≡ call g t
  unfolding execute is_skipped stops_after
  execute_pair f g s t e run e' =
      execute_from-cons 2 (record { exec = f; flags = 0 }) (record { exec = g; flags = 6 } ∷ []) s e
      ∙ rw run (execute_from-cons 2 (record { exec = g; flags = 6 }) [] t e')
