-- ===== src/Examples/Running/Returning.antt =====
-- The loop of a program returns after any number of turns, and what a lambda writes changes no socket.
use unisock.Prelude.{
  ℕ, zero, suc, ◌≡◌, refl, ℤ, negsuc, Bool, true, false, if◌then◌else◌, List, [], ◌∷◌, Cmd, pure,
  Returns, returns, Returns-bind,
}
use unisock.Events.Action.{ActionCallback}
use unisock.Socket.System.{System}
use unisock.Socket.World.{UserCall, World}
use unisock.Tcp.Loop.{on_readable, on_writeable}
use unisock.Tcp.Invariant.{Inv, IsCalm, KeepsHooks}
use unisock.Tcp.Invariant.Kernel.{HasDescriptors}
use unisock.Tcp.Invariant.Keeps.{Reached-kernel, Frame-refl}
use unisock.Tcp.Invariant.Quiet.{Settles}
use unisock.Tcp.Invariant.Turn.{IsShort, poll_once-Returns}
use unisock.Examples.Running.{no_socket_hooks, serve}

-- An action with one lambda.
abbrev pub lambda : ℕ → List (ActionCallback ℕ)
lambda n = record { exec = n; flags = 0 } ∷ []

module _ {K : Type 0} (is_open : K → ℤ → Bool) where
  -- What holds of a state between two turns of the loop.
  abbrev pub IsRunning : World K → Type 0
  IsRunning w = Inv is_open w × IsCalm w

  pub no_socket_hooks-KeepsHooks : KeepsHooks is_open no_socket_hooks
  no_socket_hooks-KeepsHooks call w v callable = returns (v, Frame-refl is_open w)

  pub emit-Settles :
      (w : World K) (k : K)
      → ((fd : ℤ) → is_open w.kernel fd ≡ true → is_open k fd ≡ true)
      → Inv is_open w
      → Settles is_open w (record w { kernel = k })
  emit-Settles w k keeps v = (Reached-kernel is_open w k keeps v, refl, refl)

module _ {K : Type 0} (is_open : K → ℤ → Bool) (sys : System K) (desc : HasDescriptors is_open sys)
    (user : UserCall → Cmd (World K) (Unit {0})) (kept : KeepsHooks is_open user)
    (short_read : IsShort is_open (on_readable sys user))
    (short_write : IsShort is_open (on_writeable sys user)) where
  pub serve-Returns :
      (turns : ℕ) (w : World K)
      → IsRunning is_open w
      → Returns (λ _. IsRunning is_open) (serve sys user turns w)
  unfolding serve
  serve-Returns zero w r = returns r
  serve-Returns (suc turns) w r =
      Returns-bind
        (poll_once-Returns is_open sys desc user kept (negsuc 0) w short_read short_write r.0 r.1)
        λ more t q.
          elim more
            as (λ b.
              Returns (λ _. IsRunning is_open)
                ((if b then serve sys user turns else pure false) t)) [
                  | true ↦ serve-Returns turns t q
                  | false ↦ returns q
                ]
