-- ===== src/Examples/Running/Serving.antt =====
-- A server as the examples run one, whatever the network does.
use Prim.Native.String.{String}
use mathlib.Core.List.{Memᴰ}
use unisock.Prelude.{
  ℕ, suc, ◌+◌, ◌≡◌, sym, subst, ℤ, pos, Bool, true, false, List, [], length, arith, Cmd, ◌>>◌,
  if◌then◌else◌, pure, and_then, Returns, returns, Returns-bind,
}
use unisock.Events.ActionHandler.{ActionHandler}
use unisock.Events.Tags.{
  Tag, basic, error, tcp, listen, tcp_closed, receive, accept, disconnect, server_actions_list,
  client_actions_list,
}
use unisock.Socket.System.{System}
use unisock.Socket.World.{
  clients, listeners, UserCall, socket_event, connection_event, error_event, World,
}
use unisock.Tcp.Server.{close_server}
use unisock.Tcp.Invariant.{Inv, HasActions, KeepsHooks}
use unisock.Tcp.Invariant.Kernel.{HasDescriptors, HasSetup}
use unisock.Tcp.Invariant.Keeps.{Frame-IsCalm}
use unisock.Tcp.Invariant.Listen.{listen-Returns}
use unisock.Tcp.Steady.Loop.{on_readable-IsShort, on_writeable-IsShort}
use unisock.Tcp.Invariant.CloseAll.{close_server-Returns}
use unisock.Tcp.Invariant.Quiet.{is_closing, IsQuiet, IsQuietOn}
use unisock.Tcp.Invariant.Spares.{Spares}
use unisock.Tcp.Steady.{IsSteady}
use unisock.Events.Handler.{Ptr}
use unisock.Tcp.Requests.{Request, perform, started, listen_at}
use unisock.Tcp.Requests.Reach.{started-Inv}
use unisock.Tcp.Requests.Closing.{IsCalm-IsSettled}
use unisock.Examples.Running.{perform_all, localhost, run_server}
use unisock.Examples.Running.Returning.{IsRunning, serve-Returns}

pub server_tag-cases :
    (P : Tag → Type 0)
    → P (basic error)
    → P (tcp listen)
    → P (tcp tcp_closed)
    → P (tcp receive)
    → P (tcp accept)
    → P (tcp disconnect)
    → (t : Tag) → Memᴰ t (server_actions_list [])
    → P t
server_tag-cases P a b c d e f t (Memᴰ.head m) = subst P (sym m) a
server_tag-cases P a b c d e f t (Memᴰ.tail (Memᴰ.head m)) = subst P (sym m) b
server_tag-cases P a b c d e f t (Memᴰ.tail (Memᴰ.tail (Memᴰ.head m))) = subst P (sym m) c
server_tag-cases P a b c d e f t (Memᴰ.tail (Memᴰ.tail (Memᴰ.tail (Memᴰ.head m)))) =
    subst P (sym m) d
server_tag-cases P a b c d e f t (Memᴰ.tail (Memᴰ.tail (Memᴰ.tail (Memᴰ.tail (Memᴰ.head m))))) =
    subst P (sym m) e
server_tag-cases P a b c d e f t
      (Memᴰ.tail (Memᴰ.tail (Memᴰ.tail (Memᴰ.tail (Memᴰ.tail (Memᴰ.head m)))))) =
    subst P (sym m) f
server_tag-cases P a b c d e f t
      (Memᴰ.tail (Memᴰ.tail (Memᴰ.tail (Memᴰ.tail (Memᴰ.tail (Memᴰ.tail m)))))) =
    elim m [ ]

module _ {K : Type 0} (is_open : K → ℤ → Bool) where
  -- No object and no entry is left behind.
  abbrev pub HasEnded : Bool → World K → Type 0
  HasEnded running t =
      Inv is_open t
      × (running ≡ false → (t.containers clients ≡ []) × (t.containers listeners ≡ []))

module _ {K : Type 0} (is_open : K → ℤ → Bool) (sys : System K) (desc : HasDescriptors is_open sys)
    (resolves : HasSetup is_open sys) (user : UserCall → Cmd (World K) (Unit {0}))
    (kept : KeepsHooks is_open user) (steady : IsSteady user)
    (spares : (n : ℕ) (function : String) (err : ℤ)
      → Spares is_open (user (error_event n function err)))
    (quiet : (n : ℕ) → IsQuiet is_open (user (socket_event n)))
    (quiet_closing : (t : Tag) (n : ℕ) (p : Ptr)
      → is_closing t ≡ true
      → IsQuietOn is_open p (user (connection_event t n p))) where
  -- After the calls of `on` there is the call of `listen`, on actions that have one callback at most.
  abbrev pub IsSetup : List Request → World K → ActionHandler ℕ → Type 0
  IsSetup setup w actions =
      perform_all sys user setup w
      ≡ and_then
          (perform sys user (listen_at localhost 8000 false)
            (record w { server_actions = actions }))
          (λ _. pure tt)

  set_up-Returns :
      (setup : List Request) (k : K) (garbage : ℕ) (server hooked client : ActionHandler ℕ)
      → IsSetup setup (started k garbage server client) hooked
      → is_open k (pos 0) ≡ true
      → HasActions (server_actions_list []) hooked
      → HasActions (client_actions_list []) client
      → Returns
          (λ _. IsRunning is_open)
          (perform_all sys user setup (started k garbage server client))
  unfolding perform
  set_up-Returns setup k garbage server hooked client calls stdin has_server has_client =
      let w : World K = started k garbage hooked client in
      rw calls (
        Returns-bind
          (Returns-bind
            (listen-Returns is_open sys desc resolves user kept spares localhost 8000 false w
              (started-Inv is_open k garbage hooked client stdin has_server has_client))
            λ _ t r.
              let running : IsRunning is_open t =
                (r.0, Frame-IsCalm is_open w t r.1 (λ p c e. cc e)) in
              returns running)
          λ _ t r. returns r)

  close-Returns :
      (running : Bool) (t : World K)
      → IsRunning is_open t
      → Returns (HasEnded is_open) (
          (if running then pure true else (do
            (λ v.
                close_server sys user
                  (suc (length (v.containers clients) + length (v.containers listeners)))
                  v)
            pure false))
            t)
  close-Returns true t q = returns (q.0, λ e. cc e)
  close-Returns false t q =
      Returns-bind
        (close_server-Returns is_open sys desc user quiet quiet_closing
          (suc (length (t.containers clients) + length (t.containers listeners))) t
          (IsCalm-IsSettled is_open t clients q.0 q.1)
          (IsCalm-IsSettled is_open t listeners q.0 q.1) (omega arith) (omega arith) q.0)
        λ _ u c. returns (c.0, λ e. (c.1, c.2))

  -- The server returns after any number of turns of its loop and keeps the invariant. When the loop has
  -- ended, no listener and no client is left.
  pub run_server-Returns :
      (turns : ℕ) (setup : List Request) (k : K) (garbage : ℕ)
      (server hooked client : ActionHandler ℕ)
      → IsSetup setup (started k garbage server client) hooked
      → is_open k (pos 0) ≡ true
      → HasActions (server_actions_list []) hooked
      → HasActions (client_actions_list []) client
      → Returns
          (HasEnded is_open)
          (run_server sys user setup turns (started k garbage server client))
  unfolding run_server
  run_server-Returns turns setup k garbage server hooked client calls stdin has_server has_client =
      Returns-bind
        (set_up-Returns setup k garbage server hooked client calls stdin has_server has_client)
        λ _ w r.
          Returns-bind
            (serve-Returns is_open sys desc user kept (on_readable-IsShort sys user steady is_open)
              (on_writeable-IsShort sys user steady is_open) turns w r)
            close-Returns
