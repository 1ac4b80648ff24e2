-- ===== src/Examples/SpeedServer/Runs.antt =====
-- `main` of the speed test's server, whatever the network does.
use unisock.Prelude.{
  ℕ, ◌≡◌, refl, ℤ, pos, Bool, true, false, Option, [], ◌∷◌, arith, Cmd, pure, and_then, Returns,
}
use unisock.Events.Action.{add_callback}
use unisock.Events.ActionHandler.{ActionHandler, get_action, on, init_actions}
use unisock.Events.Tags.{
  basic, error, tcp, listen, tcp_closed, receive, accept, disconnect, same_tag, server_actions_list,
  client_actions_list,
}
use unisock.Socket.System.{Bytes, System}
use unisock.Socket.World.{clients, listeners, UserCall, World}
use unisock.Tcp.Invariant.{Inv, HasActions, KeepsHooks}
use unisock.Tcp.Invariant.Kernel.{HasDescriptors, HasSetup}
use unisock.Tcp.Requests.{perform, started, listen_at}
use unisock.Examples.Running.{perform_all, localhost}
use unisock.Examples.Running.Serving.{server_tag-cases, run_server-Returns}
use unisock.Examples.Running.Returning.{lambda}
use unisock.Examples.SpeedServer.{Output, hooks, setup, main, begin}
use unisock.Examples.SpeedServer.Lambdas.{
  hooks-IsSteady, IsOutput, connection_event-IsQuietOn, socket_event-IsQuiet, hooks-KeepsHooks,
  error_event-Spares,
}

-- The actions of the server after the calls of `on`.
abbrev hooked : ActionHandler ℕ
hooked =
    (basic error, lambda 3)
    ∷ (tcp listen, lambda 0)
    ∷ (tcp tcp_closed, [])
    ∷ (tcp receive, [])
    ∷ (tcp accept, lambda 1)
    ∷ (tcp disconnect, lambda 2)
    ∷ []

hooked-HasActions : HasActions (server_actions_list []) hooked
unfolding get_action same_tag
hooked-HasActions =
    server_tag-cases _ (lambda 3, refl, λ s. omega arith) (lambda 0, refl, λ s. omega arith)
      ([], refl, λ s. omega arith) ([], refl, λ s. omega arith) (lambda 1, refl, λ s. omega arith)
      (lambda 2, refl, λ s. omega arith)

module _ {K : Type 0} (sys : System K) (user : UserCall → Cmd (World K) (Unit {0})) (k : K)
    (garbage : ℕ) (client : ActionHandler ℕ) where
  perform_all-setup :
      perform_all sys user setup (begin k garbage client)
      ≡ and_then
          (perform sys user (listen_at localhost 8000 false) (started k garbage hooked client))
          (λ _. pure tt)
  unfolding perform_all perform on get_action add_callback init_actions same_tag
  perform_all-setup = refl

module _ {K : Type 0} (is_open : K → ℤ → Bool) (sys : System K) (desc : HasDescriptors is_open sys)
    (resolves : HasSetup is_open sys) (inet_ntop : ℕ → Bytes → ℕ → Option Bytes) (out : Output K)
    (output : IsOutput is_open out) where
  abbrev user : UserCall → Cmd (World K) (Unit {0})
  user = hooks inet_ntop out

  abbrev kept : KeepsHooks is_open user
  kept = hooks-KeepsHooks is_open inet_ntop out output

  -- Let the kernel deal in descriptors and the resolver in families as documented, let output close no
  -- descriptor, and let standard input be open at the start. Then `main` of the speed test's server
  -- returns after any number of turns of its loop, and keeps the invariant of the shared state, whatever
  -- clients connect, send and close, and whichever calls fail: it uses no object that is gone. When its
  -- loop has ended, no listener and no client is left.
  pub main-Returns :
      (turns : ℕ) (k : K) (garbage : ℕ) (client : ActionHandler ℕ)
      → is_open k (pos 0) ≡ true
      → HasActions (client_actions_list []) client
      → Returns
          (λ running t.
            Inv is_open t
            × (running ≡ false → (t.containers clients ≡ []) × (t.containers listeners ≡ [])))
          (main sys user turns (begin k garbage client))
  unfolding main
  main-Returns turns k garbage client stdin has_client =
      run_server-Returns is_open sys desc resolves user kept (hooks-IsSteady inet_ntop out)
        (error_event-Spares is_open inet_ntop out output)
        (socket_event-IsQuiet is_open inet_ntop out output)
        (λ t n p closing. connection_event-IsQuietOn is_open inet_ntop out output t n p) turns setup
        k garbage (init_actions (server_actions_list [])) hooked client
        (perform_all-setup sys user k garbage client) stdin hooked-HasActions has_client
