-- ===== src/Tcp/Invariant/Erased.antt =====
-- The second state that `close` goes through: the object is destroyed with its entry.
use unisock.Prelude.{
  ◌≡◌, ◌≢◌, ◌<◌, sym, ap, subst, ◌∙◌, ℤ, is_neg, Bool, true, false, Option, none, some, List,
  All-map, All-map₂, inl, inr, Bool-cases,
}
use native.Mathlib.Decide.{ℕ_discrete}
use unisock.Events.Action.{ActionCallback}
use unisock.Events.Handler.{Ptr}
use unisock.Events.Handler.Table.{table}
use unisock.Socket.World.{
  Owner, ClosedFn, erase_from, listener_closed, client_disconnected, connection_closed, user_closed,
  Connection, World, put_object, put_container, map_find, map_erase, same_owner,
}
use unisock.Socket.World.Memory.{
  heap-put_object, heap-put_object_ne, same_owner_iff, map_find-erase_ne, heap_unique,
  put_object-none,
}
use unisock.Tcp.Invariant.{last_exec, HasObject, Row, IsOwned, IsModest, Inv, Frame}
use unisock.Tcp.Invariant.Entries.{
  some_unique, All-map_find, All-map_erase, Distinct-map_erase, map_erase-IsNot,
}
use unisock.Tcp.Invariant.Keeps.{is_pos-not_neg, IsOwned-move}
use unisock.Tcp.Invariant.Shut.{ShutFrame, erases_unique, last_exec-append}

module _ {K : Type 0} (is_open : K → ℤ → Bool) where
  -- The state after the erasure of an object with its entry.
  abbrev pub erased : World K → Owner → ℤ → Ptr → World K
  erased t o key p = put_object p none (put_container o (map_erase key (t.containers o)) t)

  pub Inv-erased :
      (t : World K) (o : Owner) (key : ℤ) (p : Ptr) (d : Connection)
      → t.heap p ≡ some d
      → is_neg d.sock ≡ true
      → map_find key (t.containers o) ≡ some p
      → Inv is_open t
      → Inv is_open (erased t o key p)
  unfolding put_object put_container
  Inv-erased t o key p d live down found v = record {
    aligned = v.aligned;
    distinct = v.distinct;
    rows =
        All-map
          (λ r x. (
            x.0,
            heap-put_object_ne p t none r.1
                  (λ at. up_row r x (heap_unique t p r.1 d x.0 live x.1 at))
                ∙ x.1,
            x.2,
            x.3,
            x.4,
          ))
          (table t.handler) v.rows;
    owned =
        put_object-none p t (λ q x. IsOwned (erased t o key p) q x.closed)
          (λ q x ne e. IsOwned-move t _ q x.closed (other_entry q ne) (v.owned q x e));
    modest = put_object-none p t IsModest (λ q x ne e. v.modest q x e);
    entries = λ u. elim (Bool-cases (same_owner u o)) [
      | inr other ↦ rw other (
          All-map (λ r x. kept u r (λ e. absurd (cc (other, (same_owner_iff u o).1 e.0))) x)
            (t.containers u) (v.entries u))
      | inl same ↦
          let at = (same_owner_iff u o).0 same in
          rw same (
            All-map₂ (λ r x ne. kept u r (λ e. ne e.1) (subst (λ y. HasObject t y r) (sym at) x))
              (map_erase key (t.containers o))
              (All-map_erase (HasObject t o) key (t.containers o) (v.entries o))
              (map_erase-IsNot key (t.containers o) (v.keys o)))
    ];
    keys = λ u. elim (Bool-cases (same_owner u o)) [
      | inr other ↦ rw other (v.keys u)
      | inl same ↦ rw same (Distinct-map_erase key (t.containers o) (v.keys o))
    ];
    fresh = put_object-none p t (λ q x. q < t.next_ptr) (λ q x ne e. v.fresh q x e);
    stdin = v.stdin;
    server_tags = v.server_tags;
    client_tags = v.client_tags;
  }
    where
      kept :
          (u : Owner) (r : ℤ × Ptr)
          → ¬ ((u ≡ o) × (r.0 ≡ key))
          → HasObject t u r
          → HasObject (erased t o key p) u r
      kept u r other (x, e, last) =
          let (y, e', last') =
            All-map_find (HasObject t o) key p (t.containers o) (v.entries o) found in
          (
            x,
            heap-put_object_ne p t none r.1 (λ at. other (
                  erases_unique (
                    sym last
                    ∙ ap (λ z. last_exec (user_closed 0) z.closed) (heap_unique t p r.1 y x e' e at)
                    ∙ last')))
                ∙ e,
            last,
          )

      up_row : (r : ℤ × Ptr) (x : Row is_open t r) → x.0 ≡ d → ⊥
      up_row r x same = cc (down, is_pos-not_neg r.0 x.3, x.2, ap (λ y. is_neg y.sock) same)

      other_entry :
          (q : Ptr)
          → q ≢ p
          → (owner : Owner) (k : ℤ) → map_find k (t.containers owner) ≡ some q
          → map_find k ((put_container o (map_erase key (t.containers o)) t).containers owner)
            ≡ some q
      other_entry q ne owner k e = elim (Bool-cases (same_owner owner o)) [
        | inr other ↦ rw other e
        | inl same ↦
            let e' : map_find k (t.containers o) ≡ some q =
              ap (λ x. map_find k (t.containers x)) (sym ((same_owner_iff owner o).0 same)) ∙ e in
            rw same (
              map_find-erase_ne key k (t.containers o) (λ at.
                ne (some_unique (sym e' ∙ ap (λ x. map_find x (t.containers o)) (sym at) ∙ found)))
              ∙ e')
      ]

  -- The two steps together, with the hooks between them.
  pub Frame-erased :
      (w u t : World K) (o : Owner) (key : ℤ) (p : Ptr) (c : Connection)
      → w.heap p ≡ some c
      → is_neg c.sock ≡ false
      → ShutFrame is_open w p u
      → Frame is_open u t
      → Frame is_open w (erased t o key p)
  unfolding put_object put_container
  Frame-erased w u t o key p c live up f g = record {
    dying = λ q x e n.
        let (b, e', n', s) = f.dying q x e n in
        let (d, e'', n'', s') = g.dying q b e' n' in
        (
          d,
          heap-put_object_ne p t none q
                (λ at. cc (up, n, ap (λ y. is_neg y.sock) (heap_unique w p q c x live e at)))
              ∙ e'',
          n'',
          s' ∙ s,
        );
    calm = λ q d e n. elim (ℕ_discrete q p) [
      | yes at ↦
          let gone = sym (ap (put_object p none t).heap at ∙ heap-put_object p t none) ∙ e in
          cc gone
      | no ne ↦
          let (b, e', n') = g.calm q d (sym (heap-put_object_ne p t none q ne) ∙ e) n in
          f.calm_but q b ne e' n'
    ];
    server_same = g.server_same ∙ f.server_same;
    client_same = g.client_same ∙ f.client_same;
  }

  abbrev entry_of : World K → ClosedFn → Option Ptr
  entry_of t (erase_from o key) = map_find key (t.containers o)
  entry_of t (listener_closed p) = none
  entry_of t (client_disconnected p) = none
  entry_of t (connection_closed p) = none
  entry_of t (user_closed n) = none

  -- The entry that the last callback erases, whatever ran since the list was read.
  pub entry_of_last :
      (u t : World K) (p : Ptr) (closed : List (ActionCallback ClosedFn)) (own : IsOwned u p closed)
      → IsOwned t p closed
      → map_find own.key (t.containers own.owner) ≡ some p
  entry_of_last u t p closed own own' =
      let same : erase_from own.owner own.key ≡ erase_from own'.owner own'.key =
        sym (last_exec-append (user_closed 0) own.notices _)
        ∙ ap (last_exec (user_closed 0)) (sym own.shape ∙ own'.shape)
        ∙ last_exec-append (user_closed 0) own'.notices _ in
      ap (entry_of t) same ∙ own'.entry
