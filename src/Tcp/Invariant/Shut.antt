-- ===== src/Tcp/Invariant/Shut.antt =====
-- The first state that `close` goes through: the descriptor is closed and its row gone.
use unisock.Prelude.{
  ◌≡◌, ◌≢◌, ◌<◌, refl, sym, ap, ◌∙◌, ℤ, pos, negsuc, is_neg, is_pos, Bool, true, false, some, List,
  [], ◌∷◌, ◌++◌, All-map, All-map₂,
}
use native.Mathlib.Decide.{ℕ_discrete}
use unisock.Events.Action.{ActionCallback}
use unisock.Events.Handler.{Ptr, Handler, delete_socket}
use unisock.Events.Handler.Table.{
  IsAligned, table, remove_row, table-delete_socket, apply_call-IsAligned, deletes, apply_call,
}
use unisock.Socket.System.{System}
use unisock.Socket.World.{Owner, ClosedFn, erase_from, user_closed, Connection, World, put_object}
use unisock.Socket.World.Memory.{heap-put_object, heap-put_object_ne, heap_unique, put_object-all}
use unisock.Tcp.Invariant.{last_exec, IsOwned, IsModest, Inv}
use unisock.Tcp.Invariant.Kernel.{HasDescriptors}
use unisock.Tcp.Invariant.Rows.{All-remove_row, Distinct-remove_row, remove_row-IsNot}
use unisock.Tcp.Invariant.Keeps.{IsOwned-move}

pub last_exec-append :
    (f : ClosedFn) (cbs : List (ActionCallback ClosedFn)) (cb : ActionCallback ClosedFn)
    → last_exec f (cbs ++ cb ∷ []) ≡ cb.exec
last_exec-append f [] cb = refl
last_exec-append f (c ∷ cbs) cb = last_exec-append c.exec cbs cb

pub erases_unique : {o u : Owner} {a b : ℤ} → erase_from o a ≡ erase_from u b → (o ≡ u) × (a ≡ b)
erases_unique e = (cc e, cc e)

delete_socket-IsAligned : (h : Handler) (fd : ℤ) → IsAligned h → IsAligned (delete_socket h fd)
unfolding apply_call
delete_socket-IsAligned h fd a = apply_call-IsAligned (deletes fd) h a

is_pos-not_zero : (z : ℤ) → is_pos z ≡ true → pos 0 ≢ z
is_pos-not_zero z e same = let zero_pos : is_pos (pos 0) ≡ true = ap is_pos same ∙ e in cc zero_pos

IsModest-shut :
    (p : Ptr) (c : Connection) → IsModest p c → IsModest p (record c { sock = negsuc 0 })
IsModest-shut p c m = record {
  readable = m.readable;
  writeable = m.writeable;
  recv = m.recv;
  one_readable = m.one_readable;
  one_writeable = m.one_writeable;
  one_error = m.one_error;
  one_recv = m.one_recv;
  positive = λ up. absurd (cc up);
}

module _ {K : Type 0} (is_open : K → ℤ → Bool) where
  -- The state that `close` leaves for the hooks.
  abbrev pub shut : World K → Ptr → Connection → K → World K
  shut w p c k =
      put_object p (some (record c { sock = negsuc 0 }))
        (record w { handler = delete_socket w.handler c.sock; kernel = k })

  pub Inv-shut :
      (sys : System K) (desc : HasDescriptors is_open sys) (w : World K) (p : Ptr) (c : Connection)
      → w.heap p ≡ some c
      → is_neg c.sock ≡ false
      → Inv is_open w
      → Inv is_open (shut w p c (sys.close c.sock w.kernel))
  unfolding put_object
  Inv-shut sys desc w p c live up v = record {
    aligned = delete_socket-IsAligned w.handler c.sock v.aligned;
    distinct =
        rw (table-delete_socket w.handler c.sock v.aligned)
          (Distinct-remove_row c.sock (table w.handler) v.distinct);
    rows = rw (table-delete_socket w.handler c.sock v.aligned) (
        All-map₂
          (λ r x other. (
            x.0,
            heap-put_object_ne p w (some (record c { sock = negsuc 0 })) r.1
                  (λ at. other (sym x.2 ∙ ap (λ y. y.sock) (heap_unique w p r.1 c x.0 live x.1 at)))
                ∙ x.1,
            x.2,
            x.3,
            desc.close_keeps c.sock r.0 w.kernel other x.4,
          ))
          (remove_row c.sock (table w.handler)) (All-remove_row _ c.sock (table w.handler) v.rows)
          (remove_row-IsNot c.sock (table w.handler) v.distinct));
    owned =
        put_object-all p _ w (λ q x. IsOwned (shut w p c (sys.close c.sock w.kernel)) q x.closed)
          (IsOwned-move w _ p c.closed (λ o key found. found) (v.owned p c live))
          (λ q x e. IsOwned-move w _ q x.closed (λ o key found. found) (v.owned q x e));
    modest = put_object-all p _ w IsModest (IsModest-shut p c (v.modest p c live)) v.modest;
    entries = λ o.
        All-map
          (λ r x. elim (ℕ_discrete r.1 p) [
            | yes at ↦ (
              record c { sock = negsuc 0 },
              ap (put_object p (some (record c { sock = negsuc 0 })) w).heap at
                  ∙ heap-put_object p w (some (record c { sock = negsuc 0 })),
              ap (λ e. last_exec (user_closed 0) e.closed)
                    (sym (heap_unique w p r.1 c x.0 live x.1 at))
                  ∙ x.2,
            )
            | no ne ↦ (
              x.0,
              heap-put_object_ne p w (some (record c { sock = negsuc 0 })) r.1 ne ∙ x.1,
              x.2,
            )
          ])
          (w.containers o) (v.entries o);
    keys = v.keys;
    fresh = put_object-all p _ w (λ q x. q < w.next_ptr) (v.fresh p c live) v.fresh;
    stdin =
        desc.close_keeps c.sock (pos 0) w.kernel
          (is_pos-not_zero c.sock ((v.modest p c live).positive up)) v.stdin;
    server_tags = v.server_tags;
    client_tags = v.client_tags;
  }

  -- What the first step changes: one object is half closed after it.
  pub record ShutFrame (w : World K) (p : Ptr) (u : World K) : Type 0 where
    pub dying :
        (q : Ptr) (c : Connection)
        → w.heap q ≡ some c
        → is_neg c.sock ≡ true
        → (d : Connection) × (u.heap q ≡ some d) × (is_neg d.sock ≡ true) × (d.closed ≡ c.closed)
    pub calm_but :
        (q : Ptr) (d : Connection)
        → q ≢ p
        → u.heap q ≡ some d
        → is_neg d.sock ≡ true
        → (c : Connection) × (w.heap q ≡ some c) × (is_neg c.sock ≡ true)
    pub server_same : u.server_actions ≡ w.server_actions
    pub client_same : u.client_actions ≡ w.client_actions

  pub shut-ShutFrame :
      (w : World K) (p : Ptr) (c : Connection) (k : K)
      → w.heap p ≡ some c
      → is_neg c.sock ≡ false
      → ShutFrame w p (shut w p c k)
  unfolding put_object
  shut-ShutFrame w p c k live up = record {
    dying = λ q x e n. (
      x,
      heap-put_object_ne p w (some (record c { sock = negsuc 0 })) q (λ same.
            absurd (cc (up, n, ap (λ y. is_neg y.sock) (heap_unique w p q c x live e same))))
          ∙ e,
      n,
      refl,
    );
    calm_but = λ q d ne e n.
        (d, sym (heap-put_object_ne p w (some (record c { sock = negsuc 0 })) q ne) ∙ e, n);
    server_same = refl;
    client_same = refl;
  }
