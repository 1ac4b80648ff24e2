-- ===== src/Tcp/Invariant/Keeps.antt =====
-- The changes of state that keep the invariant, and calls made one after the other.
use unisock.Prelude.{
  ◌<◌, ◌≡◌, refl, sym, ap, ◌∙◌, ℤ, pos, negsuc, is_neg, is_pos, Bool, Bool-cases, inl, inr, true,
  false, Option, some, List, All-map, arith, Cmd, Returns, Returns-mono,
}
use native.Mathlib.Decide.{ℕ_discrete}
use unisock.Events.Action.{ActionCallback}
use unisock.Events.Handler.{Ptr, Handler}
use unisock.Events.Handler.Table.{IsAligned, table}
use unisock.Socket.World.{Connection, ClosedFn, user_closed, Owner, World, put_object, map_find}
use unisock.Socket.World.Memory.{heap-put_object, heap-put_object_ne, heap_unique, put_object-all}
use unisock.Tcp.Invariant.{IsCalm, last_exec, IsOwned, IsModest, Inv, Frame}

pub is_pos-not_neg : (z : ℤ) → is_pos z ≡ true → is_neg z ≡ false
is_pos-not_neg (pos n) e = refl
is_pos-not_neg (negsuc n) e = ground arith

module _ {K : Type 0} where
  -- Ownership under a change of the containers that keeps the entry.
  pub IsOwned-move :
      (w t : World K) (p : Ptr) (closed : List (ActionCallback ClosedFn))
      → ((o : Owner) (key : ℤ)
          → map_find key (w.containers o) ≡ some p
          → map_find key (t.containers o) ≡ some p)
      → IsOwned w p closed
      → IsOwned t p closed
  IsOwned-move w t p closed keeps o = record {
    owner = o.owner;
    key = o.key;
    notices = o.notices;
    shape = o.shape;
    all_notices = o.all_notices;
    entry = keeps o.owner o.key o.entry;
  }

module _ {K : Type 0} (is_open : K → ℤ → Bool) where
  pub Frame-refl : (w : World K) → Frame is_open w w
  Frame-refl w = record {
    dying = λ p c e n. (c, e, n, refl);
    calm = λ p d e n. (d, e, n);
    server_same = refl;
    client_same = refl;
  }

  pub Frame-trans : (u v w : World K) → Frame is_open u v → Frame is_open v w → Frame is_open u w
  Frame-trans u v w f g = record {
    dying = λ p c e n.
        let (d, e', n', s) = f.dying p c e n in
        let (d', e'', n'', s') = g.dying p d e' n' in (d', e'', n'', s' ∙ s);
    calm = λ p d e n. let (c, e', n') = g.calm p d e n in f.calm p c e' n';
    server_same = g.server_same ∙ f.server_same;
    client_same = g.client_same ∙ f.client_same;
  }

  -- A call that leaves no object half closed.
  pub Frame-IsCalm : (w t : World K) → Frame is_open w t → IsCalm w → IsCalm t
  Frame-IsCalm w t f calm p d e = elim (Bool-cases (is_neg d.sock)) [
    | inr up ↦ up
    | inl down ↦ let (c, e', down') = f.calm p d e down in absurd (cc (down', calm p c e'))
  ]

  -- A system call that closes nothing, and a change of the interest in events.
  pub Inv-kernel_handler :
      (w : World K) (k : K) (h : Handler)
      → ((fd : ℤ) → is_open w.kernel fd ≡ true → is_open k fd ≡ true)
      → IsAligned h
      → table h ≡ table w.handler
      → Inv is_open w
      → Inv is_open (record w { kernel = k; handler = h })
  Inv-kernel_handler w k h opens a same v = record {
    aligned = a;
    distinct = rw same v.distinct;
    rows = rw same (All-map (λ r x. (x.0, x.1, x.2, x.3, opens r.0 x.4)) (table w.handler) v.rows);
    owned = λ p c e. IsOwned-move w _ p c.closed (λ o key found. found) (v.owned p c e);
    modest = v.modest;
    entries = v.entries;
    keys = v.keys;
    fresh = v.fresh;
    stdin = opens (pos 0) v.stdin;
    server_tags = v.server_tags;
    client_tags = v.client_tags;
  }

  -- What holds of a state that is reached from another.
  abbrev pub Reached : World K → World K → Type 0
  Reached w t = Inv is_open t × Frame is_open w t

  -- A system call that closes nothing.
  pub Reached-kernel :
      (w : World K) (k : K)
      → ((fd : ℤ) → is_open w.kernel fd ≡ true → is_open k fd ≡ true)
      → Inv is_open w
      → Reached w (record w { kernel = k })
  Reached-kernel w k opens v = (
    Inv-kernel_handler w k w.handler opens v.aligned refl v,
    record {
      dying = λ p c e n. (c, e, n, refl);
      calm = λ p d e n. (d, e, n);
      server_same = refl;
      client_same = refl;
    },
  )

  pub Reached-then {ℓ} :
      {A : Type ℓ} (w t : World K) (m : Cmd (World K) A)
      → Reached w t
      → Returns (λ _. Reached t) (m t)
      → Returns (λ _. Reached w) (m t)
  Reached-then w t m r k = Returns-mono k λ a u q. (q.0, Frame-trans w t u r.1 q.1)

  -- An object is written anew with the same descriptor.
  pub Inv-put_object :
      (w : World K) (p : Ptr) (c d : Connection)
      → w.heap p ≡ some c
      → d.sock ≡ c.sock
      → last_exec (user_closed 0) d.closed ≡ last_exec (user_closed 0) c.closed
      → IsOwned w p d.closed
      → IsModest p d
      → Inv is_open w
      → Inv is_open (put_object p (some d) w)
  unfolding put_object
  Inv-put_object w p c d live same last owns modest v = record {
    aligned = v.aligned;
    distinct = v.distinct;
    rows =
        All-map
          (λ r x. elim (ℕ_discrete r.1 p) [
            | yes at ↦ (
              d,
              ap (put_object p (some d) w).heap at ∙ heap-put_object p w (some d),
              same ∙ ap (λ e. e.sock) (sym (heap_unique w p r.1 c x.0 live x.1 at)) ∙ x.2,
              x.3,
              x.4,
            )
            | no ne ↦ (x.0, heap-put_object_ne p w (some d) r.1 ne ∙ x.1, x.2, x.3, x.4)
          ])
          (table w.handler) v.rows;
    owned =
        put_object-all p d w (λ q x. IsOwned (put_object p (some d) w) q x.closed)
          (IsOwned-move w _ p d.closed (λ o key found. found) owns)
          (λ q x e. IsOwned-move w _ q x.closed (λ o key found. found) (v.owned q x e));
    modest = put_object-all p d w IsModest modest v.modest;
    entries = λ o.
        All-map
          (λ r x. elim (ℕ_discrete r.1 p) [
            | yes at ↦ (
              d,
              ap (put_object p (some d) w).heap at ∙ heap-put_object p w (some d),
              last
                  ∙ ap (λ e. last_exec (user_closed 0) e.closed)
                      (sym (heap_unique w p r.1 c x.0 live x.1 at))
                  ∙ x.2,
            )
            | no ne ↦ (x.0, heap-put_object_ne p w (some d) r.1 ne ∙ x.1, x.2)
          ])
          (w.containers o) (v.entries o);
    keys = v.keys;
    fresh = put_object-all p d w (λ q x. q < w.next_ptr) (v.fresh p c live) v.fresh;
    stdin = v.stdin;
    server_tags = v.server_tags;
    client_tags = v.client_tags;
  }

  -- No object of a closed descriptor is written.
  pub Frame-put_object :
      (w : World K) (p : Ptr) (c : Connection) (o : Option Connection)
      → w.heap p ≡ some c
      → is_neg c.sock ≡ false
      → ((d : Connection) → o ≡ some d → is_neg d.sock ≡ false)
      → Frame is_open w (put_object p o w)
  unfolding put_object
  Frame-put_object w p c o live up up' = record {
    dying = λ q x e n. (
      x,
      heap-put_object_ne p w o q (λ same.
            absurd (cc (up, n, ap (λ y. is_neg y.sock) (heap_unique w p q c x live e same))))
          ∙ e,
      n,
      refl,
    );
    calm = λ q d e n. elim (ℕ_discrete q p) [
      | yes at ↦
          absurd (cc (n, up' d (sym (ap (put_object p o w).heap at ∙ heap-put_object p w o) ∙ e)))
      | no ne ↦ (d, sym (heap-put_object_ne p w o q ne) ∙ e, n)
    ];
    server_same = refl;
    client_same = refl;
  }
