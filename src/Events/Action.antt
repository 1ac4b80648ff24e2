-- ===== src/Events/Action.antt =====
-- includes/events/action_hanlder.hpp, `struct action`: the list of callbacks of one action, how a
-- callback is added to it and how the list is executed.
pub mod Order
pub mod Execute
pub mod Returns
pub mod IfReturns
use mathlib.Core.Path.{refl}
use unisock.Prelude.{
  ℕ, zero, suc, ◌≡◌, Bool, true, false, Option, none, some, List, [], ◌∷◌, ◌++◌, reverse, length,
  has_flag, if◌then◌else◌, ◌==◌, Run, ok, fault, Cmd, pure, dangling, and_then, ◌>>◌, ◌>>=◌,
}

-- `enum action_flag`
abbrev pub default_flag : ℕ
default_flag = 0

abbrev pub skip : ℕ
skip = 1

abbrev pub stop_after : ℕ
stop_after = 2

abbrev pub queue_end : ℕ
queue_end = 4

-- `struct action_callback`; the flags are a `ushort` of which three bits are read.
pub record ActionCallback {ℓ} (F : Type ℓ) : Type ℓ where
  pub exec : F
  pub flags : ℕ

module _ {ℓ} {F : Type ℓ} where
  unfoldable pub is_skipped : ActionCallback F → Bool
  is_skipped cb = has_flag cb.flags skip

  unfoldable pub stops_after : ActionCallback F → Bool
  stops_after cb = has_flag cb.flags stop_after

  unfoldable pub is_queued_end : ActionCallback F → Bool
  is_queued_end cb = has_flag cb.flags queue_end

  -- The walk of `add_callback` over the reversed list: past the entries that are queued at the
  -- end, and in at the first other one.
  insert_back : ActionCallback F → List (ActionCallback F) → List (ActionCallback F)
  insert_back cb [] = cb ∷ []
  insert_back cb (c ∷ cs) =
      let further = insert_back cb cs in if is_queued_end c then c ∷ further else cb ∷ c ∷ cs

  unfoldable pub add_callback : F → ℕ → List (ActionCallback F) → List (ActionCallback F)
  unfolding insert_back
  add_callback func flags executor_list =
      reverse (insert_back (record { exec = func; flags = flags }) (reverse executor_list))

-- `action::execute`. `call` runs one callback; `current` is the length that the list has in a
-- state, `none` once the object that owns it is destroyed. The loop reads each callback through an
-- iterator, which is valid while the list is there and has not grown.
module _ {ℓ κ} {F : Type ℓ} {S : Type κ} (call : F → Cmd S (Unit {0}))
    (current : S → Option ℕ) where
  pub execute_from : ℕ → List (ActionCallback F) → Cmd S (Unit {0})
  execute_from n [] s = ok tt s
  execute_from n (cb ∷ rest) s =
      let next = execute_from n rest in
      elim (current s) [
        | none ↦ fault dangling
        | some m ↦
            if m == n
            then (if is_skipped cb
                then next s
                else if stops_after cb
                then call cb.exec s
                else and_then (call cb.exec s) (λ _. next))
            else fault dangling
      ]

  unfoldable pub execute : List (ActionCallback F) → Cmd S (Unit {0})
  unfolding execute_from
  execute executor_list = execute_from (length executor_list) executor_list
