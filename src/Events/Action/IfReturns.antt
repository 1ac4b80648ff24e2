-- ===== src/Events/Action/IfReturns.antt =====
-- `execute` with callbacks that keep a property where they return.
use unisock.Prelude.{
  ℕ, ◌≤◌, Bool, true, false, Option, none, some, List, [], ◌∷◌, length, arith, Cmd, IfReturns, ◌==◌,
  IfReturns-bind, if◌then◌else◌, dangling, fault, and_then, Run,
}
use unisock.Events.Action.{ActionCallback, is_skipped, stops_after, execute_from, execute}

module _ {ℓ κ ι} {F : Type ℓ} {S : Type κ} (call : F → Cmd S (Unit {0})) (current : S → Option ℕ)
    (J : S → Type ι) where
  run_one-IfReturns :
      (cb : ActionCallback F) (next : Cmd S (Unit {0})) (s : S) (skips stops : Bool)
      → IfReturns J (call cb.exec s)
      → ((t : S) → J t → IfReturns J (next t))
      → J s
      → IfReturns J (
          if skips
          then next s
          else if stops
          then call cb.exec s
          else and_then (call cb.exec s) (λ _. next))
  run_one-IfReturns cb next s true stops called rest j = rest s j
  run_one-IfReturns cb next s false true called rest j = called
  run_one-IfReturns cb next s false false called rest j =
      IfReturns-bind J J (call cb.exec s) (λ _. next) called (λ u. rest)

  execute_from_cons-IfReturns :
      (n : ℕ) (cb : ActionCallback F) (rest : List (ActionCallback F)) (s : S)
      → IfReturns J (call cb.exec s)
      → ((t : S) → J t → IfReturns J (execute_from call current n rest t))
      → J s
      → IfReturns J (execute_from call current n (cb ∷ rest) s)
  unfolding execute_from
  execute_from_cons-IfReturns n cb rest s called later j =
      let runs : Run S (Unit {0}) =
        if is_skipped cb
        then execute_from call current n rest s
        else if stops_after cb
        then call cb.exec s
        else and_then (call cb.exec s) (λ _. execute_from call current n rest) in
      elim (current s)
        as (λ o. IfReturns J (elim o as (λ _. Run S (Unit {0})) [
          | none ↦ fault dangling
          | some m ↦ if m == n then runs else fault dangling
        ])) [
          | none ↦ tt
          | some m ↦
              elim (m == n) as (λ same. IfReturns J (if same then runs else fault dangling)) [
                | true ↦
                    run_one-IfReturns cb (execute_from call current n rest) s (is_skipped cb)
                      (stops_after cb) called later j
                | false ↦ tt
              ]
        ]

  execute_from-IfReturns :
      (n : ℕ) (cbs : List (ActionCallback F)) (s : S)
      → ((f : F) (t : S) → J t → IfReturns J (call f t))
      → J s
      → IfReturns J (execute_from call current n cbs s)
  execute_from-IfReturns n [] s keeps j = unfold execute_from in j
  execute_from-IfReturns n (cb ∷ rest) s keeps j =
      execute_from_cons-IfReturns n cb rest s (keeps cb.exec s j)
        (λ t. execute_from-IfReturns n rest t keeps) j

  -- A property that every callback keeps is kept.
  pub execute-IfReturns :
      (cbs : List (ActionCallback F)) (s : S)
      → ((f : F) (t : S) → J t → IfReturns J (call f t))
      → J s
      → IfReturns J (execute call current cbs s)
  unfolding execute
  execute-IfReturns cbs = execute_from-IfReturns (length cbs) cbs

  -- What each callback brings about by itself holds after a list of one.
  pub execute_single-IfReturns :
      (cbs : List (ActionCallback F)) (s : S)
      → length cbs ≤ 1
      → ((f : F) → IfReturns J (call f s))
      → J s
      → IfReturns J (execute call current cbs s)
  unfolding execute
  execute_single-IfReturns [] s le called j = unfold execute_from in j
  execute_single-IfReturns (cb ∷ []) s le called j =
      execute_from_cons-IfReturns 1 cb [] s (called cb.exec) (λ t k. unfold execute_from in k) j
  execute_single-IfReturns (cb ∷ next ∷ cbs) s le called j = absurd (omega arith)
