-- ===== src/Examples/TcpClient/Runs.antt =====
-- `main` of the TCP client, whatever its peer does.
use mathlib.Core.List.{Memᴰ}
use unisock.Prelude.{
  ℕ, suc, ◌≡◌, refl, sym, subst, ℤ, pos, Bool, true, false, Option, [], ◌∷◌, length, arith, Cmd,
  ◌>>◌, if◌then◌else◌, pure, and_then, Returns, returns, Returns-bind,
}
use unisock.Events.Action.{add_callback}
use unisock.Events.ActionHandler.{ActionHandler, get_action, on, init_actions}
use unisock.Events.Tags.{
  Tag, basic, error, tcp, connect, tcp_closed, receive, same_tag, server_actions_list,
  client_actions_list,
}
use unisock.Socket.System.{Bytes, System}
use unisock.Socket.World.{connections, listeners, UserCall, World}
use unisock.Tcp.Client.{close_client}
use unisock.Tcp.Invariant.{Inv, HasActions, KeepsHooks}
use unisock.Tcp.Invariant.Kernel.{HasDescriptors, HasSetup}
use unisock.Tcp.Invariant.Keeps.{Frame-IsCalm}
use unisock.Tcp.Invariant.Connect.{connect-Returns}
use unisock.Tcp.Steady.Loop.{on_readable-IsShort, on_writeable-IsShort}
use unisock.Tcp.Invariant.CloseAll.{close_client-Returns}
use unisock.Tcp.Requests.{perform, started, connect_to}
use unisock.Tcp.Requests.Reach.{started-Inv}
use unisock.Tcp.Requests.Closing.{IsCalm-IsSettled}
use unisock.Examples.Running.{emit, perform_all, localhost}
use unisock.Examples.Running.Returning.{lambda, IsRunning, emit-Settles, serve-Returns}
use unisock.Examples.TcpClient.{Printer, client_hooks, client_setup, client_main, client_begin}
use unisock.Examples.TcpClient.Lambdas.{
  client_hooks-IsSteady, IsPrinter, connection_event-IsQuietOn, socket_event-IsQuiet,
  client_hooks-KeepsHooks, error_event-Spares,
}

client_tag-cases :
    (P : Tag → Type 0)
    → P (basic error)
    → P (tcp connect)
    → P (tcp tcp_closed)
    → P (tcp receive)
    → (t : Tag) → Memᴰ t (client_actions_list [])
    → P t
client_tag-cases P a b c d t (Memᴰ.head m) = subst P (sym m) a
client_tag-cases P a b c d t (Memᴰ.tail (Memᴰ.head m)) = subst P (sym m) b
client_tag-cases P a b c d t (Memᴰ.tail (Memᴰ.tail (Memᴰ.head m))) = subst P (sym m) c
client_tag-cases P a b c d t (Memᴰ.tail (Memᴰ.tail (Memᴰ.tail (Memᴰ.head m)))) = subst P (sym m) d
client_tag-cases P a b c d t (Memᴰ.tail (Memᴰ.tail (Memᴰ.tail (Memᴰ.tail m)))) = elim m [ ]

-- The actions of the client after the calls of `on`.
abbrev hooked : ActionHandler ℕ
hooked =
    (basic error, lambda 3)
    ∷ (tcp connect, lambda 0)
    ∷ (tcp tcp_closed, lambda 1)
    ∷ (tcp receive, lambda 2)
    ∷ []

hooked-HasActions : HasActions (client_actions_list []) hooked
unfolding get_action same_tag
hooked-HasActions =
    client_tag-cases _ (lambda 3, refl, λ s. omega arith) (lambda 0, refl, λ s. omega arith)
      (lambda 1, refl, λ s. omega arith) (lambda 2, refl, λ s. omega arith)

module _ {K : Type 0} (sys : System K) (user : UserCall → Cmd (World K) (Unit {0})) (k : K)
    (garbage : ℕ) (server : ActionHandler ℕ) where
  perform_all-client_setup :
      perform_all sys user client_setup (client_begin k garbage server)
      ≡ and_then
          (perform sys user (connect_to localhost 8000 false) (started k garbage server hooked))
          (λ _. pure tt)
  unfolding perform_all perform on get_action add_callback init_actions same_tag
  perform_all-client_setup = refl

module _ {K : Type 0} (is_open : K → ℤ → Bool) (sys : System K) (desc : HasDescriptors is_open sys)
    (resolves : HasSetup is_open sys) (inet_ntop : ℕ → Bytes → ℕ → Option Bytes) (out : Printer K)
    (output : IsPrinter is_open out) where
  abbrev user : UserCall → Cmd (World K) (Unit {0})
  user = client_hooks sys inet_ntop out

  abbrev kept : KeepsHooks is_open user
  kept = client_hooks-KeepsHooks is_open sys desc inet_ntop out output

  set_up-Returns :
      (k : K) (garbage : ℕ) (server : ActionHandler ℕ)
      → is_open k (pos 0) ≡ true
      → HasActions (server_actions_list []) server
      → Returns
          (λ _. IsRunning is_open)
          (perform_all sys user client_setup (client_begin k garbage server))
  unfolding perform
  set_up-Returns k garbage server stdin has_server =
      let w : World K = started k garbage server hooked in
      rw (perform_all-client_setup sys user k garbage server) (
        Returns-bind
          (Returns-bind
            (connect-Returns is_open sys desc resolves user kept
              (error_event-Spares is_open sys desc inet_ntop out output) localhost 8000 false w
              (started-Inv is_open k garbage server hooked stdin has_server hooked-HasActions))
            λ _ t r.
              let running : IsRunning is_open t =
                (r.0, Frame-IsCalm is_open w t r.1 (λ p c e. cc e)) in
              returns running)
          λ _ t r. returns r)

  print-IsRunning :
      (w : World K)
      → IsRunning is_open w
      → Returns (λ _. IsRunning is_open) (emit out.print_handler w)
  print-IsRunning w (v, calm) =
      let u : World K = record w { kernel = out.print_handler w.kernel } in
      let q =
        emit-Settles is_open w (out.print_handler w.kernel) (λ fd. output.handler_keeps fd w.kernel)
          v in
      returns (q.0.0, Frame-IsCalm is_open w u q.0.1 calm)

  close-Returns :
      (running : Bool) (t : World K)
      → IsRunning is_open t
      → Returns
          (λ going u. Inv is_open u × (going ≡ false → u.containers connections ≡ []))
          ((if running then pure true else (do
            (λ w. close_client sys user (suc (length (w.containers connections))) w)
            pure false))
            t)
  close-Returns true t q = returns (q.0, λ e. cc e)
  close-Returns false t q =
      Returns-bind
        (close_client-Returns is_open sys desc user
          (socket_event-IsQuiet is_open sys desc inet_ntop out output)
          (connection_event-IsQuietOn is_open sys desc inet_ntop out output)
          (suc (length (t.containers connections))) t
          (IsCalm-IsSettled is_open t connections q.0 q.1)
          (IsCalm-IsSettled is_open t listeners q.0 q.1) (omega arith) q.0)
        λ _ u c. returns (c.0, λ e. c.1)

  -- Let the kernel deal in descriptors and the resolver in families as documented, let output close no
  -- descriptor, and let standard input be open at the start. Then `main` of the TCP client returns after
  -- any number of turns of its loop, and keeps the invariant of the shared state, whether it gets a
  -- connection, whatever the peer sends, and however much of a message the kernel takes. When its loop
  -- has ended, no connection is left.
  pub client_main-Returns :
      (turns : ℕ) (k : K) (garbage : ℕ) (server : ActionHandler ℕ)
      → is_open k (pos 0) ≡ true
      → HasActions (server_actions_list []) server
      → Returns
          (λ running t. Inv is_open t × (running ≡ false → t.containers connections ≡ []))
          (client_main sys out user turns (client_begin k garbage server))
  unfolding client_main
  client_main-Returns turns k garbage server stdin has_server =
      Returns-bind
        (set_up-Returns (out.print_handler k) garbage server (output.handler_keeps (pos 0) k stdin)
          has_server)
        λ _ w r. Returns-bind (print-IsRunning w r) λ _ u s.
          Returns-bind
            (serve-Returns is_open sys desc user kept
              (on_readable-IsShort sys user (client_hooks-IsSteady sys inet_ntop out) is_open)
              (on_writeable-IsShort sys user (client_hooks-IsSteady sys inet_ntop out) is_open)
              turns u s)
            close-Returns
