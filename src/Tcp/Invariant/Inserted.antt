-- ===== src/Tcp/Invariant/Inserted.antt =====
-- The state after a container takes a new object in, which has its descriptor and its place there.
use native.Mathlib.Decide.{ℕ_discrete}
use unisock.Prelude.{
  zero, suc, ◌<◌, ◌≡◌, ◌≢◌, refl, sym, ap, subst, ◌∙◌, ℤ, pos, negsuc, is_neg, is_pos, Bool, true,
  false, none, some, [], All, All-map, All-append, inl, inr, Bool-cases, arith, ◌==ℤ◌, ==ℤ_iff,
  ==ℤ_self,
}
use unisock.Events.Handler.{Ptr, Handler, add_socket}
use unisock.Events.Handler.Table.{
  IsAligned, table, table-add_socket, apply_call-IsAligned, adds, apply_call,
}
use unisock.Socket.World.{
  Owner, erase_from, World, put_object, put_container, map_find, map_insert, same_owner,
}
use unisock.Socket.World.Memory.{
  heap-put_object, heap-put_object_ne, put_object-all, same_owner_iff, map_find-insert,
}
use unisock.Socket.Object.{new_connection}
use unisock.Tcp.Invariant.{HasObject, IsOwned, IsModest, Inv, Frame}
use unisock.Tcp.Invariant.Rows.{IsNot, Distinct-append}
use unisock.Tcp.Invariant.Entries.{some_unique, All-map_insert, Distinct-map_insert, map_find-IsNot}
use unisock.Tcp.Invariant.Keeps.{IsOwned-move}
use unisock.Tcp.Invariant.Welcome.{owned_connection, IsModest-owned}

pub is_pos-new : (z : ℤ) → is_neg z ≡ false → z ≢ pos 0 → is_pos z ≡ true
is_pos-new (pos zero) up ne = absurd (ne refl)
is_pos-new (pos (suc n)) up ne = refl
is_pos-new (negsuc n) up ne = cc up

module _ {K : Type 0} (is_open : K → ℤ → Bool) where
  -- The state after the insertion of a new object.
  abbrev pub inserted : World K → Owner → ℤ → World K
  inserted w o fd =
      record (put_object w.next_ptr (some (owned_connection o fd))
        (put_container o (map_insert fd w.next_ptr (w.containers o)) w)) {
          next_ptr = suc w.next_ptr;
          handler = add_socket w.handler fd w.next_ptr;
        }

  old_entry :
      (w : World K) (o : Owner) (fd : ℤ) (p q : Ptr)
      → map_find fd (w.containers o) ≡ none
      → (owner : Owner) (k : ℤ) → map_find k (w.containers owner) ≡ some q
      → map_find k ((put_container o (map_insert fd p (w.containers o)) w).containers owner)
        ≡ some q
  unfolding put_container
  old_entry w o fd p q free owner k e = elim (Bool-cases (same_owner owner o)) [
    | inr other ↦ rw other e
    | inl same ↦
        let e' : map_find k (w.containers o) ≡ some q =
          ap (λ x. map_find k (w.containers x)) (sym ((same_owner_iff owner o).0 same)) ∙ e in
        rw same (
          map_find-insert fd k p (w.containers o) free ∙ elim (Bool-cases (fd ==ℤ k)) [
            | inl hit ↦
                absurd (cc (free, e', ap (λ x. map_find x (w.containers o)) ((==ℤ_iff fd k).0 hit)))
            | inr miss ↦ rw miss e'
          ])
  ]

  pub new_entry :
      (w : World K) (o : Owner) (fd : ℤ) (p : Ptr)
      → map_find fd (w.containers o) ≡ none
      → map_find fd ((put_container o (map_insert fd p (w.containers o)) w).containers o) ≡ some p
  unfolding put_container
  new_entry w o fd p free =
      rw ((same_owner_iff o o).1 refl)
        (map_find-insert fd fd p (w.containers o) free ∙ rw (==ℤ_self fd) refl)

  add_socket-IsAligned :
      (h : Handler) (fd : ℤ) (p : Ptr) → IsAligned h → IsAligned (add_socket h fd p)
  unfolding apply_call
  add_socket-IsAligned h fd p a = apply_call-IsAligned (adds fd p) h a

  pub Inv-inserted :
      (w : World K) (o : Owner) (fd : ℤ)
      → map_find fd (w.containers o) ≡ none
      → is_pos fd ≡ true
      → is_open w.kernel fd ≡ true
      → All (IsNot fd) (table w.handler)
      → Inv is_open w
      → Inv is_open (inserted w o fd)
  unfolding put_object put_container
  Inv-inserted w o fd free up opened fresh_fd v =
      let p = w.next_ptr in
      record {
        aligned = add_socket-IsAligned w.handler fd p v.aligned;
        distinct =
            rw (table-add_socket w.handler fd p v.aligned)
              (Distinct-append fd p (table w.handler) v.distinct fresh_fd);
        rows = rw (table-add_socket w.handler fd p v.aligned) (
            All-append _ (table w.handler) _
              (All-map
                (λ r x. (
                  x.0,
                  heap-put_object_ne p w (some (owned_connection o fd)) r.1
                        (λ at. absurd (omega (arith, at, v.fresh r.1 x.0 x.1)))
                      ∙ x.1,
                  x.2,
                  x.3,
                  x.4,
                ))
                (table w.handler) v.rows)
              (
                (
                  owned_connection o fd,
                  heap-put_object p w (some (owned_connection o fd)),
                  unfold new_connection in refl,
                  up,
                  opened,
                ),
                tt,
              ));
        owned =
            put_object-all p (owned_connection o fd) w (λ q x. IsOwned (inserted w o fd) q x.closed)
              (record {
                owner = o;
                key = fd;
                notices = [];
                shape = refl;
                all_notices = tt;
                entry = new_entry w o fd p free;
              })
              (λ q x e. IsOwned-move w _ q x.closed (old_entry w o fd p q free) (v.owned q x e));
        modest =
            put_object-all p (owned_connection o fd) w IsModest (IsModest-owned p o fd up) v.modest;
        entries = λ u. elim (Bool-cases (same_owner u o)) [
          | inr other ↦ rw other (All-map (λ r x. kept u r x) (w.containers u) (v.entries u))
          | inl same ↦
              let at = (same_owner_iff u o).0 same in
              rw same (
                All-map_insert (HasObject (inserted w o fd) u) fd p (w.containers o)
                  (
                    owned_connection o fd,
                    heap-put_object p w (some (owned_connection o fd)),
                    unfold new_connection in ap (λ y. erase_from y fd) (sym at),
                  )
                  (All-map (λ r x. kept u r (subst (λ y. HasObject w y r) (sym at) x))
                    (w.containers o) (v.entries o)))
        ];
        keys = λ u. elim (Bool-cases (same_owner u o)) [
          | inr other ↦ rw other (v.keys u)
          | inl same ↦ rw same (
              Distinct-map_insert fd p (w.containers o) (map_find-IsNot fd (w.containers o) free)
                (v.keys o))
        ];
        fresh =
            put_object-all p (owned_connection o fd) w (λ q x. q < suc w.next_ptr) (omega arith)
              (λ q x e. omega (arith, v.fresh q x e));
        stdin = v.stdin;
        server_tags = v.server_tags;
        client_tags = v.client_tags;
      }
    where
      kept : (u : Owner) (r : ℤ × Ptr) → HasObject w u r → HasObject (inserted w o fd) u r
      kept u r (x, e, last) = (
        x,
        heap-put_object_ne w.next_ptr w (some (owned_connection o fd)) r.1
              (λ at. absurd (omega (arith, at, v.fresh r.1 x e)))
            ∙ e,
        last,
      )

  pub Frame-inserted :
      (w : World K) (o : Owner) (fd : ℤ)
      → is_neg fd ≡ false
      → Inv is_open w
      → Frame is_open w (inserted w o fd)
  unfolding put_object put_container
  Frame-inserted w o fd up v = record {
    dying = λ q x e n. (
      x,
      heap-put_object_ne w.next_ptr w (some (owned_connection o fd)) q
            (λ at. absurd (omega (arith, at, v.fresh q x e)))
          ∙ e,
      n,
      refl,
    );
    calm = λ q d e n. elim (ℕ_discrete q w.next_ptr) [
      | yes at ↦
          let new =
            sym (
              ap (put_object w.next_ptr (some (owned_connection o fd)) w).heap at
              ∙ heap-put_object w.next_ptr w (some (owned_connection o fd)))
            ∙ e in
          let same : is_neg fd ≡ is_neg d.sock =
            unfold new_connection in ap (λ y. is_neg y.sock) (some_unique new) in
          absurd (cc (n, up, same))
      | no ne ↦
          (d, sym (heap-put_object_ne w.next_ptr w (some (owned_connection o fd)) q ne) ∙ e, n)
    ];
    server_same = refl;
    client_same = refl;
  }
