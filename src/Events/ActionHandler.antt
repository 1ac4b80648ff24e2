-- ===== src/Events/ActionHandler.antt =====
-- includes/events/action_hanlder.hpp, `action_handler`: the tuple of actions of an object, `get_action`,
-- which picks one by its tag, and `on`. A failed `static_assert` is `none`: such a program is not compiled.
pub mod Laws
use unisock.Prelude.{ℕ, Option, none, some, List, [], ◌∷◌, map, if◌then◌else◌}
use unisock.Events.Action.{ActionCallback, add_callback}
use unisock.Events.Tags.{Tag, same_tag}

-- The tuple: each action with its tag and its list of callbacks.
abbrev pub ActionHandler {ℓ} : Type ℓ → Type ℓ
ActionHandler F = List (Tag × List (ActionCallback F))

module _ {ℓ} {F : Type ℓ} where
  -- `get_action`: the first of the list whose tag matches; `void` if there is none.
  unfoldable pub get_action : Tag → ActionHandler F → Option (List (ActionCallback F))
  get_action t [] = none
  get_action t ((u, action) ∷ actions) =
      let rest = get_action t actions in if same_tag u t then some action else rest

  -- `std::get<action_type>(actions).add_callback(function, flags)`
  put_callback : Tag → F → ℕ → ActionHandler F → ActionHandler F
  put_callback t function flags [] = []
  put_callback t function flags ((u, action) ∷ actions) =
      let rest = put_callback t function flags actions in
      if same_tag u t then (u, add_callback function flags action) ∷ actions else (u, action) ∷ rest

  unfoldable pub on : Tag → F → ℕ → ActionHandler F → Option (ActionHandler F)
  unfolding put_callback
  on t function flags actions = elim (get_action t actions) [
    | none ↦ none
    | some action ↦ some (put_callback t function flags actions)
  ]

-- An object whose class has the actions `tags`, before any call of `on`.
unfoldable pub init_actions {ℓ} : {F : Type ℓ} → List Tag → ActionHandler F
init_actions = map (λ t. (t, []))
