-- ===== src/Examples/Running.antt =====
-- What the programs of examples share: their calls in order, the loop around `events::poll`, and what a
-- lambda writes.
pub mod Returning
pub mod Serving
use unisock.Prelude.{
  ℕ, zero, suc, ◌+◌, ℤ, negsuc, Bool, true, false, List, [], ◌∷◌, length, if◌then◌else◌, ok, Cmd,
  ◌>>=◌, ◌>>◌, pure,
}
use unisock.Socket.World.{clients, listeners, UserCall, World}
use unisock.Socket.System.{Bytes, System}
use unisock.Tcp.Server.{close_server}
use unisock.Tcp.Loop.{poll_once}
use unisock.Tcp.Requests.{Request, perform}

-- "127.0.0.1"
abbrev pub localhost : Bytes
localhost = 49 ∷ 50 ∷ 55 ∷ 46 ∷ 48 ∷ 46 ∷ 48 ∷ 46 ∷ 49 ∷ []

-- A program that gives its connections no hooks.
abbrev pub no_socket_hooks : {K : Type 0} → UserCall → Cmd (World K) (Unit {0})
no_socket_hooks call = pure tt

abbrev pub emit : {K : Type 0} → (K → K) → Cmd (World K) (Unit {0})
emit f w = ok tt (record w { kernel = f w.kernel })

module _ {K : Type 0} (sys : System K) (user : UserCall → Cmd (World K) (Unit {0})) where
  unfoldable pub perform_all : List Request → Cmd (World K) (Unit {0})
  perform_all [] = pure tt
  perform_all (r ∷ rs) = perform sys user r >> perform_all rs

  -- `while (events::poll(server));` for at most so many turns, and whether it goes on after them.
  unfoldable pub serve : ℕ → Cmd (World K) Bool
  serve zero w = ok true w
  serve (suc turns) w =
      let rest = serve turns in
      (poll_once sys user (negsuc 0) >>= λ more. if more then rest else pure false) w

  -- A server: its calls of `on` and `listen`, so many turns of its loop, and `close` once the loop has
  -- ended. The loops of `close` have a round for each entry and one more.
  unfoldable pub run_server : List Request → ℕ → Cmd (World K) Bool
  unfolding perform_all serve
  run_server setup turns = do
    perform_all setup
    running ← serve turns
    if running then pure true else (do
      (λ w.
          close_server sys user
            (suc (length (w.containers clients) + length (w.containers listeners))) w)
      pure false)
