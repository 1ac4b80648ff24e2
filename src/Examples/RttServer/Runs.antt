-- ===== src/Examples/RttServer/Runs.antt =====
-- `main` of the round trip test's server, whatever the network does.
use unisock.Prelude.{
  ℕ, ◌≡◌, refl, ℤ, pos, Bool, true, false, Option, [], ◌∷◌, arith, Cmd, pure, and_then, Returns,
}
use unisock.Events.Action.{add_callback}
use unisock.Events.ActionHandler.{ActionHandler, get_action, on, init_actions}
use unisock.Events.Tags.{
  basic, error, tcp, listen, tcp_closed, receive, accept, disconnect, same_tag, server_actions_list,
  client_actions_list,
}
use unisock.Socket.System.{Bytes, System}
use unisock.Socket.World.{clients, listeners, UserCall, World}
use unisock.Tcp.Invariant.{Inv, HasActions}
use unisock.Tcp.Invariant.Kernel.{HasDescriptors, HasSetup}
use unisock.Tcp.Requests.{perform, started, listen_at}
use unisock.Examples.Running.{perform_all, localhost}
use unisock.Examples.Running.Returning.{lambda}
use unisock.Examples.Running.Serving.{server_tag-cases, run_server-Returns}
use unisock.Examples.RttServer.{
  Counted, with_counts, Screen, rtt_hooks, rtt_setup, rtt_main, rtt_begin,
}
use unisock.Examples.RttServer.Steady.{rtt_hooks-IsSteady}
use unisock.Examples.RttServer.Lambdas.{
  counted_open, with_counts-HasDescriptors, with_counts-HasSetup, IsScreen, rtt_hooks-KeepsHooks,
  rtt_error_event-Spares, rtt_socket_event-IsQuiet, rtt_connection_event-IsQuietOn,
}

-- The actions of the server after the calls of `on`.
abbrev hooked : ActionHandler ℕ
hooked =
    (basic error, lambda 4)
    ∷ (tcp listen, lambda 0)
    ∷ (tcp tcp_closed, [])
    ∷ (tcp receive, lambda 1)
    ∷ (tcp accept, lambda 2)
    ∷ (tcp disconnect, lambda 3)
    ∷ []

hooked-HasActions : HasActions (server_actions_list []) hooked
unfolding get_action same_tag
hooked-HasActions =
    server_tag-cases _ (lambda 4, refl, λ s. omega arith) (lambda 0, refl, λ s. omega arith)
      ([], refl, λ s. omega arith) (lambda 1, refl, λ s. omega arith)
      (lambda 2, refl, λ s. omega arith) (lambda 3, refl, λ s. omega arith)

module _ {K : Type 0} (sys : System (Counted K))
    (user : UserCall → Cmd (World (Counted K)) (Unit {0})) (k : K) (garbage : ℕ)
    (client : ActionHandler ℕ) where
  perform_all-rtt_setup :
      perform_all sys user rtt_setup (rtt_begin k garbage client)
      ≡ and_then
          (perform sys user
            (listen_at localhost 8000 false)
            (started (k, λ p. 0) garbage hooked client))
          (λ _. pure tt)
  unfolding perform_all perform on get_action add_callback init_actions same_tag
  perform_all-rtt_setup = refl

module _ {K : Type 0} (is_open : K → ℤ → Bool) (sys : System K) (desc : HasDescriptors is_open sys)
    (resolves : HasSetup is_open sys) (inet_ntop : ℕ → Bytes → ℕ → Option Bytes) (out : Screen K)
    (output : IsScreen is_open out) where
  -- Let the kernel deal in descriptors and the resolver in families as documented, let output close no
  -- descriptor, and let standard input be open at the start. Then `main` of the round trip test's
  -- server returns after any number of turns of its loop, and keeps the invariant of the shared state,
  -- whatever clients connect, send and close, however much of an answer the kernel takes, and whichever
  -- calls fail. When its loop has ended, no listener and no client is left.
  pub rtt_main-Returns :
      (turns : ℕ) (k : K) (garbage : ℕ) (client : ActionHandler ℕ)
      → is_open k (pos 0) ≡ true
      → HasActions (client_actions_list []) client
      → Returns
          (λ running t.
            Inv (counted_open is_open) t
            × (running ≡ false → (t.containers clients ≡ []) × (t.containers listeners ≡ [])))
          (rtt_main
            (with_counts sys)
            (rtt_hooks sys inet_ntop out)
            turns
            (rtt_begin k garbage client))
  unfolding rtt_main
  rtt_main-Returns turns k garbage client stdin has_client =
      run_server-Returns (counted_open is_open) (with_counts sys)
        (with_counts-HasDescriptors is_open sys desc) (with_counts-HasSetup is_open sys resolves)
        (rtt_hooks sys inet_ntop out) (rtt_hooks-KeepsHooks is_open sys desc inet_ntop out output)
        (rtt_hooks-IsSteady sys inet_ntop out)
        (rtt_error_event-Spares is_open sys desc inet_ntop out output)
        (rtt_socket_event-IsQuiet is_open sys desc inet_ntop out output)
        (λ t n p closing.
          rtt_connection_event-IsQuietOn is_open sys desc inet_ntop out output t n p)
        turns rtt_setup (k, λ p. 0) garbage (init_actions (server_actions_list [])) hooked client
        (perform_all-rtt_setup (with_counts sys) (rtt_hooks sys inet_ntop out) k garbage client)
        stdin hooked-HasActions has_client
