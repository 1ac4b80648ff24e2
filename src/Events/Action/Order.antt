-- ===== src/Events/Action/Order.antt =====
-- The order in which `add_callback` leaves the list: the plain callbacks as they were added, then
-- those of QUEUE_END, the last added first.
use mathlib.Core.List.{reverse-append, reverse-reverse, reverse-cons, append_assoc, append-nil}
use unisock.Prelude.{
  ◌≡◌, refl, ap, ◌∙◌, Bool, true, false, not, List, [], ◌∷◌, ◌++◌, reverse, keep, keep_hit,
  keep_miss, All, inl, inr, Bool-cases, All-append, All-reverse,
}
use unisock.Events.Action.{ActionCallback, is_queued_end, insert_back, add_callback}

module _ {ℓ} {F : Type ℓ} where
  -- A history of calls of `add_callback`, the oldest first.
  unfoldable pub add_all :
      List (ActionCallback F) → List (ActionCallback F) → List (ActionCallback F)
  add_all [] l = l
  add_all (cb ∷ cbs) l = add_all cbs (add_callback cb.exec cb.flags l)

  abbrev pub is_plain : ActionCallback F → Bool
  is_plain cb = not (is_queued_end cb)

  abbrev pub IsPlain : ActionCallback F → Type 0
  IsPlain cb = is_queued_end cb ≡ false

  abbrev pub IsQueuedEnd : ActionCallback F → Type 0
  IsQueuedEnd cb = is_queued_end cb ≡ true

  insert_back_plain :
      (cb : ActionCallback F) (rs : List (ActionCallback F))
      → All IsPlain rs
      → insert_back cb rs ≡ cb ∷ rs
  unfolding insert_back
  insert_back_plain cb [] h = refl
  insert_back_plain cb (r ∷ rs) h = rw h.0

  insert_back-append :
      (cb : ActionCallback F) (qs rs : List (ActionCallback F))
      → All IsQueuedEnd qs
      → All IsPlain rs
      → insert_back cb (qs ++ rs) ≡ qs ++ cb ∷ rs
  unfolding insert_back
  insert_back-append cb [] rs hq hr = insert_back_plain cb rs hr
  insert_back-append cb (q ∷ qs) rs hq hr =
      rw hq.0 (ap (◌∷◌ q) (insert_back-append cb qs rs hq.1 hr))

  -- One call, on a list whose plain callbacks `ps` stand before those of QUEUE_END: the new one goes
  -- between the two groups.
  pub add_callback-append :
      (cb : ActionCallback F) (ps qs : List (ActionCallback F))
      → All IsPlain ps
      → All IsQueuedEnd qs
      → add_callback cb.exec cb.flags (ps ++ qs) ≡ ps ++ cb ∷ qs
  unfolding add_callback
  add_callback-append cb ps qs hp hq = rw (
    reverse-append ps qs,
    insert_back-append cb (reverse qs) (reverse ps) (All-reverse _ qs hq) (All-reverse _ ps hp),
    reverse-append (reverse qs) (cb ∷ reverse ps),
    reverse-cons cb (reverse ps),
    reverse-reverse ps,
    reverse-reverse qs,
    append_assoc,
  )

  add_all-append :
      (cbs ps qs : List (ActionCallback F))
      → All IsPlain ps
      → All IsQueuedEnd qs
      → add_all cbs (ps ++ qs) ≡ (ps ++ keep is_plain cbs) ++ reverse (keep is_queued_end cbs) ++ qs
  unfolding add_all
  add_all-append [] ps qs hp hq = simp append-nil
  add_all-append (cb ∷ cbs) ps qs hp hq = elim (Bool-cases (is_queued_end cb)) [
    | inl end ↦
        rw
          (
            keep_hit is_queued_end cb cbs end,
            keep_miss is_plain cb cbs (ap not end),
            add_callback-append cb ps qs hp hq,
            add_all-append cbs ps (cb ∷ qs) hp (end, hq),
          )
          (simp (reverse-cons, append_assoc))
    | inr plain ↦
        rw
          (
            keep_miss is_queued_end cb cbs plain,
            keep_hit is_plain cb cbs (ap not plain),
            add_callback-append cb ps qs hp hq,
            shift,
          )
          (rw (add_all-append cbs (ps ++ cb ∷ []) qs (All-append _ ps _ hp (plain, tt)) hq)
            (simp append_assoc))
  ]
    where
      shift : (ps ++ cb ∷ qs) ≡ (ps ++ cb ∷ []) ++ qs
      shift = simp append_assoc

  -- The list after any calls of `add_callback` on a fresh action, whatever their flags: the callbacks
  -- without QUEUE_END in the order of the calls, then those with it in the reverse order.
  add_all-nil :
      (cbs : List (ActionCallback F))
      → add_all cbs [] ≡ keep is_plain cbs ++ reverse (keep is_queued_end cbs)
  add_all-nil cbs = add_all-append cbs [] [] tt tt ∙ append-nil _

  -- A callback that was added to a fresh action with QUEUE_END stays the last of the list, whatever is
  -- added after it.
  pub add_all_last :
      (cb : ActionCallback F) (cbs : List (ActionCallback F))
      → IsQueuedEnd cb
      → add_all (cb ∷ cbs) [] ≡ (keep is_plain cbs ++ reverse (keep is_queued_end cbs)) ++ cb ∷ []
  unfolding add_all
  add_all_last cb cbs end =
      rw (add_callback-append cb [] [] tt tt) (add_all-append cbs [] (cb ∷ []) tt (end, tt))
