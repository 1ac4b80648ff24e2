-- ===== src/Tcp/Invariant/Spares.antt =====
-- Hooks of ERROR that destroy no object: `listen` and `connect` close the socket after some of them.
use Prim.Native.String.{String}
use mathlib.Core.List.{Memᴰ}
use unisock.Prelude.{ℕ, ◌≡◌, refl, ℤ, Bool, some, All-always, Cmd, Returns, Returns-mono}
use unisock.Events.Action.Returns.{execute-Returns}
use unisock.Events.Tags.{basic, error}
use unisock.Events.Handler.{Ptr}
use unisock.Socket.System.{System}
use unisock.Socket.World.{Connection, error_event, UserCall, World}
use unisock.Socket.Object.{execute_in, server_execute, client_execute}
use unisock.Tcp.Invariant.{Inv}
use unisock.Tcp.Invariant.Keeps.{Reached, Frame-refl, Frame-trans}

module _ {K : Type 0} (is_open : K → ℤ → Bool) where
  -- A state with every object of another.
  abbrev pub HasAll : World K → World K → Type 0
  HasAll w t =
      (p : Ptr) (c : Connection) → w.heap p ≡ some c → (d : Connection) × (t.heap p ≡ some d)

  -- A call that keeps the invariant and destroys no object.
  abbrev pub Spares : Cmd (World K) (Unit {0}) → Type 0
  Spares m = (w : World K) → Inv is_open w → Returns (λ _ t. Reached is_open w t × HasAll w t) (m w)

  HasAll-trans : (u v w : World K) → HasAll u v → HasAll v w → HasAll u w
  HasAll-trans u v w f g p c e = let (d, e') = f p c e in g p d e'

  pub Spares-then :
      (w t : World K) (m : Cmd (World K) (Unit {0}))
      → Spares m
      → Reached is_open w t × HasAll w t
      → Returns (λ _ u. Reached is_open w u × HasAll w u) (m t)
  Spares-then w t m spares (r, h) =
      Returns-mono (spares t r.0)
        λ _ u q. ((q.0.0, Frame-trans is_open w t u r.1 q.0.1), HasAll-trans w t u h q.1)

module _ {K : Type 0} (is_open : K → ℤ → Bool) (sys : System K)
    (user : UserCall → Cmd (World K) (Unit {0}))
    (spares : (n : ℕ) (function : String) (err : ℤ)
      → Spares is_open (user (error_event n function err))) where
  pub server_error-Spares :
      (function : String) (err : ℤ)
      → Spares is_open (server_execute sys user (basic error) (λ n. error_event n function err))
  unfolding server_execute
  server_error-Spares function err w v =
      let (l, e, _) = v.server_tags (basic error) (Memᴰ.head refl) in
      rw (e, server_execute, execute_in)
        (execute-Returns _ _ (λ t. Reached is_open w t × HasAll is_open w t) l w
          (All-always _
            (λ cb s r.
              Spares-then is_open w s (user (error_event cb.exec function err))
                (spares cb.exec function err) r)
            l)
          (λ s r. rw (r.0.1.server_same, e) refl)
          ((v, Frame-refl is_open w), λ p c live. (c, live)))

  pub client_error-Spares :
      (function : String) (err : ℤ)
      → Spares is_open (client_execute sys user (basic error) (λ n. error_event n function err))
  unfolding client_execute
  client_error-Spares function err w v =
      let (l, e, _) = v.client_tags (basic error) (Memᴰ.head refl) in
      rw (e, client_execute, execute_in)
        (execute-Returns _ _ (λ t. Reached is_open w t × HasAll is_open w t) l w
          (All-always _
            (λ cb s r.
              Spares-then is_open w s (user (error_event cb.exec function err))
                (spares cb.exec function err) r)
            l)
          (λ s r. rw (r.0.1.client_same, e) refl)
          ((v, Frame-refl is_open w), λ p c live. (c, live)))
