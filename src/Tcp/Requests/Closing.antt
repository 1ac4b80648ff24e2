-- ===== src/Tcp/Requests/Closing.antt =====
-- `close` of the server in any state that a program can bring about.
use Prim.Native.String.{String}
use unisock.Prelude.{
  ℕ, suc, ◌+◌, ◌≡◌, ℤ, pos, Bool, true, [], length, All-map, arith, Cmd, Returns, Returns-mono,
}
use unisock.Events.ActionHandler.{ActionHandler}
use unisock.Events.Tags.{Tag, server_actions_list, client_actions_list}
use unisock.Events.Handler.{Ptr}
use unisock.Socket.System.{System}
use unisock.Socket.World.{
  Owner, listeners, clients, socket_event, connection_event, error_event, UserCall, World,
}
use unisock.Tcp.Server.{close_server}
use unisock.Tcp.Loop.{on_readable, on_writeable}
use unisock.Tcp.Invariant.{IsCalm, HasActions, Inv, KeepsHooks}
use unisock.Tcp.Invariant.Kernel.{HasDescriptors, HasSetup}
use unisock.Tcp.Invariant.Spares.{Spares}
use unisock.Tcp.Invariant.Quiet.{is_closing, IsQuiet, IsQuietOn}
use unisock.Tcp.Invariant.CloseAll.{IsSettled, close_server-Returns}
use unisock.Tcp.Invariant.Turn.{IsShort}
use unisock.Tcp.Requests.{started, Reaches}
use unisock.Tcp.Requests.Reach.{Reaches-Inv, started-Inv}

module _ {K : Type 0} (is_open : K → ℤ → Bool) where
  pub IsCalm-IsSettled : (w : World K) (o : Owner) → Inv is_open w → IsCalm w → IsSettled w o
  IsCalm-IsSettled w o v calm = record {
    entries = All-map (λ r x. (x.0, x.1, calm r.1 x.0 x.1, x.2)) (w.containers o) (v.entries o);
    distinct = v.keys o;
  }

module _ {K : Type 0} (is_open : K → ℤ → Bool) (sys : System K) (desc : HasDescriptors is_open sys)
    (setup : HasSetup is_open sys) (user : UserCall → Cmd (World K) (Unit {0}))
    (hooks : KeepsHooks is_open user)
    (spares : (n : ℕ) (function : String) (err : ℤ)
      → Spares is_open (user (error_event n function err)))
    (short_read : IsShort is_open (on_readable sys user))
    (short_write : IsShort is_open (on_writeable sys user)) where
  -- Take a program as before whose hooks of closing, besides, leave the sockets alone. In every state
  -- that it has brought about since it was started, `close` of the server ends: after one round for each
  -- listener and client and one more, in each of its loops. It leaves no listener and no client, and
  -- keeps the invariant.
  pub close_server-Reaches :
      (quiet : (n : ℕ) → IsQuiet is_open (user (socket_event n)))
      (quiet_closing : (t : Tag) (n : ℕ) (p : Ptr)
        → is_closing t ≡ true
        → IsQuietOn is_open p (user (connection_event t n p)))
      (k : K) (garbage : ℕ) (server client : ActionHandler ℕ) (t : World K)
      → is_open k (pos 0) ≡ true
      → HasActions (server_actions_list []) server
      → HasActions (client_actions_list []) client
      → Reaches sys user (started k garbage server client) t
      → Returns
          (λ _ u. Inv is_open u × (u.containers clients ≡ []) × (u.containers listeners ≡ []))
          (close_server sys user
            (suc (length (t.containers clients) + length (t.containers listeners)))
            t)
  close_server-Reaches quiet quiet_closing k garbage server client t stdin has_server has_client
        before =
      let w = started k garbage server client in
      let (v, calm) =
        Reaches-Inv is_open sys desc setup user hooks spares short_read short_write w t
          (started-Inv is_open k garbage server client stdin has_server has_client) (λ p c e. cc e)
          before in
      Returns-mono
        (close_server-Returns is_open sys desc user quiet quiet_closing
          (suc (length (t.containers clients) + length (t.containers listeners))) t
          (IsCalm-IsSettled is_open t clients v calm) (IsCalm-IsSettled is_open t listeners v calm)
          (omega arith) (omega arith) v)
        λ _ u q. (q.0, q.1, q.2)
