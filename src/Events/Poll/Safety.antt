-- ===== src/Events/Poll/Safety.antt =====
-- A turn of the event loop keeps every invariant that the callbacks keep, calls them only on objects
-- that are registered, and ends.
use unisock.Prelude.{
  ℕ, zero, suc, ◌+◌, ◌≤◌, ◌<◌, ◌≡◌, refl, sym, subst, ◌∙◌, ℤ, pos, pred_ℤ, Bool, true, false, some,
  length, inl, inr, arith, Bool-cases, Option-cases, get_elem?, get_elem?-lt, lt_of_get_elem?,
  has_flag, ◌==◌, ◌==ℤ◌, Cmd, Returns, returns, Returns-bind,
}
use unisock.Events.Handler.{Ptr, PollFd, Handler, get_ref, ref_has_changed}
use unisock.Events.Handler.Table.{IsAligned}
use unisock.Events.Poll.{
  Program, dispatch, finish_round, write_side, serve_entry, poll_from, poll_impl,
}

module _ {S : Type 0} (P : Program S) (I : S → Type 0) where
  open P use {handler, sys_poll, on_readable, on_writeable}

  -- A call from a state keeps the invariant, and does not resize the handler behind its counter.
  abbrev pub After : S → Unit {0} → S → Type 0
  After s u t =
      I t
      × (ref_has_changed (handler t) (get_ref (handler s)) ≡ false
          → length (handler t).sockets ≡ length (handler s).sockets)

  -- What a callback has to satisfy on the objects that are registered.
  abbrev pub KeepsRegistered : (Ptr → Cmd S (Unit {0})) → Type 0
  KeepsRegistered f =
      (s : S) (i : ℕ) (p : Ptr)
      → I s
      → get_elem? (handler s).socket_ptrs i ≡ some p
      → Returns (After s) (f p s)

module _ {S : Type 0} (P : Program S) (I : S → Type 0)
    (aligned : (s : S) → I s → IsAligned (P.handler s))
    (readable : KeepsRegistered P I P.on_readable)
    (writeable : KeepsRegistered P I P.on_writeable) where
  open P use {handler, sys_poll, on_readable, on_writeable}

  dispatch-Returns :
      (b : Bool) (f : Ptr → Cmd S (Unit {0})) (i : ℕ) (s : S)
      → KeepsRegistered P I f
      → I s
      → i < length (handler s).sockets
      → Returns (After P I s) (dispatch P b f i s)
  unfolding dispatch
  dispatch-Returns false f i s k h lt = returns (h, λ _. refl)
  dispatch-Returns true f i s k h lt =
      let (p, e) = get_elem?-lt (handler s).socket_ptrs i (omega (arith, aligned s h)) in
      rw (e, dispatch) (k s i p h e)

  get_ref_of_unchanged : (h : Handler) (r : ℕ) → ref_has_changed h r ≡ false → get_ref h ≡ r
  unfolding ref_has_changed
  get_ref_of_unchanged h r e = ground arith

  finish_round-Returns :
      (r : ℕ) (m : ℤ) (next : ℤ → Cmd S (Unit {0})) (s : S)
      → I s
      → (ref_has_changed (handler s) r ≡ false → Returns (λ _. I) (next (pred_ℤ m) s))
      → Returns (λ _. I) (finish_round P r m next s)
  unfolding finish_round
  finish_round-Returns r m next s h k = elim (Bool-cases (pred_ℤ m ==ℤ pos 0)) [
    | inl done ↦ rw done (returns h)
    | inr more ↦ rw more (elim (Bool-cases (ref_has_changed (handler s) r)) [
      | inl changed ↦ rw changed (returns h)
      | inr same ↦ rw same (k same)
    ])
  ]

  write_side-Returns :
      (r i : ℕ) (m : ℤ) (next : ℤ → Cmd S (Unit {0})) (s : S)
      → I s
      → (ref_has_changed (handler s) r ≡ false → i < length (handler s).sockets)
      → ((t : S)
          → I t
          → ref_has_changed (handler s) r ≡ false
          → length (handler t).sockets ≡ length (handler s).sockets
          → Returns (λ _. I) (next (pred_ℤ m) t))
      → Returns (λ _. I) (write_side P r i m next s)
  unfolding write_side
  write_side-Returns r i m next s h lt k = elim (Bool-cases (ref_has_changed (handler s) r)) [
    | inl changed ↦ rw changed (returns h)
    | inr same ↦
        let (socket, e) = get_elem?-lt (handler s).sockets i (lt same) in
        rw (same, e, write_side)
          (Returns-bind
            (dispatch-Returns (has_flag socket.revents 4) on_writeable i s writeable h (lt same))
            λ u t after. finish_round-Returns r m next t after.0 λ unchanged. k t after.0 same (
              after.1 (
                subst (λ x. ref_has_changed (handler t) x ≡ false)
                  (sym (get_ref_of_unchanged (handler s) r same)) unchanged)))
  ]

  serve_entry-Returns :
      (socket : PollFd) (i : ℕ) (m : ℤ) (next : ℤ → Cmd S (Unit {0})) (s : S)
      → I s
      → i < length (handler s).sockets
      → ((t : S)
          → I t
          → length (handler t).sockets ≡ length (handler s).sockets
          → Returns (λ _. I) (next (pred_ℤ m) t))
      → Returns (λ _. I) (serve_entry P socket i m next s)
  unfolding serve_entry
  serve_entry-Returns socket i m next s h lt k =
      Returns-bind (dispatch-Returns (has_flag socket.revents 1) on_readable i s readable h lt)
        λ u t after.
          write_side-Returns (get_ref (handler s)) i m next t after.0
            (λ same. omega (arith, after.1 same)) (λ v kept same len. k v kept (len ∙ after.1 same))

  poll_from-Returns :
      (fuel i : ℕ) (m : ℤ) (s : S)
      → I s
      → i ≤ length (handler s).sockets
      → length (handler s).sockets < fuel + i
      → Returns (λ _. I) (poll_from P fuel i m s)
  unfolding poll_from
  poll_from-Returns zero i m s h le lt = absurd (omega arith)
  poll_from-Returns (suc fuel) i m s h le lt =
      elim (Option-cases (get_elem? (handler s).sockets i)) [
        | inl end ↦ rw (end, poll_from) (returns h)
        | inr (socket, e) ↦
            let inside = lt_of_get_elem? (handler s).sockets i e in
            rw (e, poll_from)
              (elim (Bool-cases (socket.revents == 0)) [
                | inl idle ↦ rw idle (poll_from-Returns fuel (suc i) m s h inside (omega arith))
                | inr ready ↦ rw ready (
                    serve_entry-Returns socket i m (poll_from P fuel (suc i)) s h inside
                      λ t kept len.
                        poll_from-Returns fuel (suc i) (pred_ℤ m) t kept (omega arith)
                          (omega arith))
              ])
      ]

  -- Let the callbacks keep an invariant on every registered object, under which the two vectors of the
  -- handler have the same size, and let them not resize the vectors unless its counter shows it; let
  -- `::poll` keep the invariant too. Then a turn of the loop ends, whatever `::poll` reports, uses no
  -- iterator or index that is out of range, and keeps the invariant.
  pub poll_impl-Returns :
      (timeout : ℤ) (s : S)
      → ((t : S) → I t → I (sys_poll timeout t).1)
      → I s
      → Returns (λ _. I) (poll_impl P timeout s)
  unfolding poll_impl
  poll_impl-Returns timeout s polled h =
      poll_from-Returns (suc (length (handler (sys_poll timeout s).1).sockets)) 0
        (sys_poll timeout s).0 (sys_poll timeout s).1 (polled s h) (omega arith) (omega arith)
