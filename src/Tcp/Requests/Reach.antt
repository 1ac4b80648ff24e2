-- ===== src/Tcp/Requests/Reach.antt =====
-- Every state that a program can bring about satisfies the invariant, and its next call returns.
use Prim.Native.String.{String}
use mathlib.Core.List.{Memᴰ}
use unisock.Prelude.{
  ℕ, ◌≤◌, ◌≡◌, refl, sym, ap, arith, length, ◌∷◌, subst, ◌∙◌, ℤ, pos, Bool, true, some, List, [],
  inl, inr, Bool-cases, Cmd, Returns, returns, Returns-bind, Returns-ok, Returns-eq, Returns-mono,
}
use unisock.Events.Action.{ActionCallback, add_callback}
use unisock.Events.ActionHandler.{ActionHandler, get_action, on}
use unisock.Events.ActionHandler.Laws.{get_action-on, on_some}
use unisock.Events.Tags.{Tag, same_tag, same_tag_iff, server_actions_list, client_actions_list}
use unisock.Events.Handler.{new_handler}
use unisock.Socket.System.{System}
use unisock.Socket.World.{error_event, UserCall, World}
use unisock.Tcp.Loop.{on_readable, on_writeable}
use unisock.Tcp.Invariant.{IsCalm, is_single, HasActions, Inv, KeepsHooks}
use unisock.Tcp.Invariant.Kernel.{HasDescriptors, HasSetup}
use unisock.Tcp.Invariant.Entries.{some_unique}
use unisock.Tcp.Invariant.Keeps.{IsOwned-move, Frame-IsCalm}
use unisock.Tcp.Invariant.Spares.{Spares}
use unisock.Tcp.Invariant.Close.{close-Returns}
use unisock.Tcp.Invariant.Connections.{send-Returns}
use unisock.Tcp.Invariant.Listen.{listen-Returns}
use unisock.Tcp.Invariant.Connect.{connect-Returns}
use unisock.Tcp.Invariant.Turn.{IsShort, poll_once-Returns}
use unisock.Tcp.Requests.{
  Request, server_on, client_on, listen_at, connect_to, send_on, close_on, poll_for, started, IsApt,
  perform, Reaches, here, after,
}

add_callback-length :
    (f flags : ℕ) (l : List (ActionCallback ℕ)) → l ≡ [] → length (add_callback f flags l) ≤ 1
unfolding add_callback
add_callback-length f flags [] e = omega arith
add_callback-length f flags (cb ∷ l) e = cc e

-- `on` with a tag of the class leaves an action for each tag of the class.
on-HasActions :
    (tags : List Tag) (t : Tag) (f flags : ℕ) (actions : ActionHandler ℕ)
    → Memᴰ t tags
    → (is_single t ≡ true → get_action t actions ≡ some [])
    → HasActions tags actions
    → (next : ActionHandler ℕ) × (on t f flags actions ≡ some next) × HasActions tags next
on-HasActions tags t f flags actions m first has =
    let (l, found, _) = has t m in
    let (next, e) = on_some t f flags actions l found in
    (
      next,
      e,
      λ u mem.
          let (k, got, one) = has u mem in
          let law = get_action-on t u f flags actions next e in
          elim (Bool-cases (same_tag t u)) [
            | inr other ↦ (k, law ∙ rw (other, got) refl, one)
            | inl same ↦
                let at = (same_tag_iff t u).0 same in
                (
                  add_callback f flags k,
                  law ∙ rw (same, got) refl,
                  λ single. add_callback-length f flags k (
                      some_unique (
                        sym got
                        ∙ ap (λ x. get_action x actions) (sym at)
                        ∙ first (ap is_single at ∙ single))),
                )
          ],
    )

module _ {K : Type 0} (is_open : K → ℤ → Bool) where
  pub started-Inv :
      (k : K) (garbage : ℕ) (server client : ActionHandler ℕ)
      → is_open k (pos 0) ≡ true
      → HasActions (server_actions_list []) server
      → HasActions (client_actions_list []) client
      → Inv is_open (started k garbage server client)
  unfolding new_handler
  started-Inv k garbage server client stdin has_server has_client = record {
    aligned = refl;
    distinct = tt;
    rows = tt;
    owned = λ p c e. absurd (cc e);
    modest = λ p c e. absurd (cc e);
    entries = λ o. tt;
    keys = λ o. tt;
    fresh = λ p c e. absurd (cc e);
    stdin = stdin;
    server_tags = has_server;
    client_tags = has_client;
  }

  Inv-actions :
      (w : World K) (server client : ActionHandler ℕ)
      → HasActions (server_actions_list []) server
      → HasActions (client_actions_list []) client
      → Inv is_open w
      → Inv is_open (record w { server_actions = server; client_actions = client })
  Inv-actions w server client has_server has_client v = record {
    aligned = v.aligned;
    distinct = v.distinct;
    rows = v.rows;
    owned = λ p c e. IsOwned-move w _ p c.closed (λ o key found. found) (v.owned p c e);
    modest = v.modest;
    entries = v.entries;
    keys = v.keys;
    fresh = v.fresh;
    stdin = v.stdin;
    server_tags = has_server;
    client_tags = has_client;
  }

module _ {K : Type 0} (is_open : K → ℤ → Bool) (sys : System K) (desc : HasDescriptors is_open sys)
    (setup : HasSetup is_open sys) (user : UserCall → Cmd (World K) (Unit {0}))
    (hooks : KeepsHooks is_open user)
    (spares : (n : ℕ) (function : String) (err : ℤ)
      → Spares is_open (user (error_event n function err)))
    (short_read : IsShort is_open (on_readable sys user))
    (short_write : IsShort is_open (on_writeable sys user)) where
  perform-Returns :
      (r : Request) (w : World K)
      → Inv is_open w
      → IsCalm w
      → IsApt w r
      → Returns (λ _ t. Inv is_open t × IsCalm t) (perform sys user r w)
  unfolding perform
  perform-Returns (server_on t f flags) w v calm (m, first) =
      let (next, e, has) =
        on-HasActions (server_actions_list []) t f flags w.server_actions m first v.server_tags in
      rw e (returns (Inv-actions is_open w next w.client_actions has v.client_tags v, calm))
  perform-Returns (client_on t f flags) w v calm (m, first) =
      let (next, e, has) =
        on-HasActions (client_actions_list []) t f flags w.client_actions m first v.client_tags in
      rw e (returns (Inv-actions is_open w w.server_actions next v.server_tags has v, calm))
  perform-Returns (listen_at hostname port use_ipv6) w v calm apt =
      Returns-bind
        (listen-Returns is_open sys desc setup user hooks spares hostname port use_ipv6 w v)
        λ _ t r. returns (r.0, Frame-IsCalm is_open w t r.1 calm)
  perform-Returns (connect_to hostname port use_ipv6) w v calm apt =
      Returns-bind
        (connect-Returns is_open sys desc setup user hooks spares hostname port use_ipv6 w v)
        λ _ t r. returns (r.0, Frame-IsCalm is_open w t r.1 calm)
  perform-Returns (send_on p message) w v calm (c, live, up) =
      Returns-bind (send-Returns is_open sys desc user hooks p message w c live up v)
        λ _ t r. returns (r.0, Frame-IsCalm is_open w t r.1 calm)
  perform-Returns (close_on p) w v calm (c, live) =
      Returns-mono (close-Returns is_open sys desc user hooks w p c live v)
        λ _ t r. (r.0, Frame-IsCalm is_open w t r.1 calm)
  perform-Returns (poll_for timeout) w v calm apt =
      Returns-bind
        (poll_once-Returns is_open sys desc user hooks timeout w short_read short_write v calm)
        λ _ t r. returns r

  pub Reaches-Inv :
      (w t : World K) → Inv is_open w → IsCalm w → Reaches sys user w t → Inv is_open t × IsCalm t
  Reaches-Inv w t v calm here = (v, calm)
  Reaches-Inv w t v calm (after {t = u} r before apt e) =
      let (v', calm') = Reaches-Inv w u v calm before in
      Returns-ok
        (subst (Returns (λ _ s. Inv is_open s × IsCalm s)) e (perform-Returns r u v' calm' apt))

  -- Let the program's callbacks keep the invariant where the library calls them, and those of ERROR
  -- destroy no object; let the kernel deal in descriptors and the resolver in families as documented,
  -- and let no callback make a whole round of 65536 changes of the handler. Then a program may go on
  -- for ever: whatever calls it has made since it was started, each from a state that allows it, the
  -- state satisfies the invariant with no object half closed, and the next call of `on`, `listen`,
  -- `connect`, `send`, `close` or `events::poll` that the state allows returns, in a state that is
  -- reached in its turn.
  pub perform-Reaches :
      (k : K) (garbage : ℕ) (server client : ActionHandler ℕ) (t : World K) (r : Request)
      → is_open k (pos 0) ≡ true
      → HasActions (server_actions_list []) server
      → HasActions (client_actions_list []) client
      → Reaches sys user (started k garbage server client) t
      → IsApt t r
      → Inv is_open t
        × IsCalm t
        × Returns
            (λ _ u. Inv is_open u × Reaches sys user (started k garbage server client) u)
            (perform sys user r t)
  perform-Reaches k garbage server client t r stdin has_server has_client before apt =
      let w = started k garbage server client in
      let (v, calm) =
        Reaches-Inv w t (started-Inv is_open k garbage server client stdin has_server has_client)
          (λ p c e. cc e) before in
      (
        v,
        calm,
        Returns-mono (Returns-eq (perform-Returns r t v calm apt))
            λ _ u q. (q.0.0, after r before apt q.1),
      )
