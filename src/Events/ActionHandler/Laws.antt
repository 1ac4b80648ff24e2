-- ===== src/Events/ActionHandler/Laws.antt =====
-- `on` adds to the action of its tag and to no other, and fails only for a tag that the object's class
-- does not have.
use mathlib.Core.List.{Memᴰ}
use unisock.Prelude.{ℕ, ◌≡◌, refl, sym, some, List, [], ◌∷◌, arith, if◌then◌else◌}
use mathlib.Core.Option
use unisock.Events.Action.{ActionCallback, add_callback}
use unisock.Events.Tags.{Tag, same_tag, same_tag_iff}
use unisock.Events.ActionHandler.{ActionHandler, get_action, put_callback, on, init_actions}

module _ {ℓ} {F : Type ℓ} where
  get_action-put_callback :
      (t u : Tag) (f : F) (flags : ℕ) (actions : ActionHandler F)
      → get_action u (put_callback t f flags actions) ≡ (
          if same_tag t u
          then Option.map (add_callback f flags) (get_action u actions)
          else get_action u actions)
  unfolding get_action put_callback
  get_action-put_callback t u f flags [] = ground arith
  get_action-put_callback t u f flags ((v, action) ∷ actions) = ground (
    arith,
    get_action-put_callback t u f flags actions,
    same_tag_iff v t,
    same_tag_iff v u,
    same_tag_iff t u,
  )

  -- After a call of `on` that compiles, the action of its tag has the new callback and every other
  -- action is as it was.
  pub get_action-on :
      (t u : Tag) (f : F) (flags : ℕ) (actions after : ActionHandler F)
      → on t f flags actions ≡ some after
      → get_action u after ≡ (
          if same_tag t u
          then Option.map (add_callback f flags) (get_action u actions)
          else get_action u actions)
  unfolding on
  get_action-on t u f flags actions after h =
      ground (arith, get_action-put_callback t u f flags actions)

  -- Every tag of the class has an action, which is empty at first.
  pub get_action-init :
      (t : Tag) (ts : List Tag) → Memᴰ t ts → get_action t (init_actions {F = F} ts) ≡ some []
  unfolding get_action init_actions
  get_action-init t [] m = elim m [ ]
  get_action-init t (u ∷ ts) (Memᴰ.head e) = ground (arith, same_tag_iff u t, sym e)
  get_action-init t (u ∷ ts) (Memᴰ.tail m) = ground (arith, get_action-init t ts m)

  -- `on` compiles for every tag that has an action.
  pub on_some :
      (t : Tag) (f : F) (flags : ℕ) (actions : ActionHandler F) (l : List (ActionCallback F))
      → get_action t actions ≡ some l
      → (next : ActionHandler F) × (on t f flags actions ≡ some next)
  unfolding on
  on_some t f flags actions l e = (put_callback t f flags actions, rw (e, on) refl)
