-- ===== src/Events/Poll/Serve.antt =====
-- Which callbacks a turn of the event loop makes, and in what order.
use unisock.Prelude.{
  ℕ, zero, suc, ◌+◌, ◌≤◌, ◌<◌, ◌≡◌, refl, sym, ap, ◌∙◌, ℤ, pos, pred_ℤ, Bool, true, false, some,
  List, ◌∷◌, length, inl, inr, arith, Bool-cases, Option-cases, get_elem?, get_elem?-lt,
  lt_of_get_elem?, drop, drop_end, has_flag, ◌==◌, ◌==ℤ◌, Cmd, and_then, and_then-cong,
}
use unisock.Events.Handler.{Ptr, PollFd, Handler, pollout, get_ref}
use unisock.Events.Handler.Table.{IsAligned}
use unisock.Events.Poll.{
  Program, dispatch, finish_round, write_side, serve_entry, poll_from, poll_impl,
}
use unisock.Events.Poll.Plain.{
  reports, when, serve_all, IsQuiet, Counts, drop-step, serve_all_idle, when-quiet, ref_of_same,
  Counts-pred, serve_all_zero, Counts-idle,
}

module _ {S : Type 0} (P : Program S) where
  open P use {handler, sys_poll, on_readable, on_writeable}

  dispatch-when :
      (b : Bool) (f : Ptr → Cmd S (Unit {0})) (i : ℕ) (p : Ptr) (s : S)
      → get_elem? (handler s).socket_ptrs i ≡ some p
      → dispatch P b f i s ≡ when b (f p) s
  unfolding dispatch
  dispatch-when true f i p s e = rw (e, dispatch)
  dispatch-when false f i p s e = refl

  finish_round-serve :
      (r : ℕ) (p : Ptr) (rs : List (ℕ × Ptr)) (m : ℤ) (next : ℤ → Cmd S (Unit {0})) (s : S)
      (old : ℕ)
      → get_ref (handler s) ≡ old
      → (r == 0) ≡ false
      → Counts P m ((r, p) ∷ rs)
      → (Counts P (pred_ℤ m) rs → next (pred_ℤ m) s ≡ serve_all P rs s)
      → finish_round P old m next s ≡ serve_all P rs s
  unfolding finish_round
  finish_round-serve r p rs m next s old e ready c k =
      let (c', stop) = Counts-pred P r p rs m ready c in
      rw (← e, ref_of_same P (handler s))
        (elim (Bool-cases (pred_ℤ m ==ℤ pos 0)) [
          | inl done ↦ rw done (sym (serve_all_idle P rs s (stop done)))
          | inr more ↦ rw more (k c')
        ])

  write_side-serve :
      (h : Handler) (i : ℕ) (p : Ptr) (x : PollFd) (rs : List (ℕ × Ptr)) (m : ℤ)
      (next : ℤ → Cmd S (Unit {0})) (s : S)
      → IsQuiet P on_writeable
      → handler s ≡ h
      → get_elem? h.sockets i ≡ some x
      → get_elem? h.socket_ptrs i ≡ some p
      → (x.revents == 0) ≡ false
      → Counts P m ((x.revents, p) ∷ rs)
      → ((t : S) → handler t ≡ h → Counts P (pred_ℤ m) rs → next (pred_ℤ m) t ≡ serve_all P rs t)
      → write_side P (get_ref h) i m next s
        ≡ and_then (when (has_flag x.revents pollout) (on_writeable p) s) (λ _. serve_all P rs)
  unfolding write_side
  write_side-serve h i p x rs m next s q e ex ep ready c k =
      rw (e, ref_of_same P h, ex, write_side)
        (rw (dispatch-when (has_flag x.revents 4) on_writeable i p s (rw e ep)) (
          and_then-cong (when (has_flag x.revents 4) (on_writeable p) s) λ u t run.
            let same = when-quiet P (has_flag x.revents 4) on_writeable p s u t q run ∙ e in
            finish_round-serve x.revents p rs m next t (get_ref h) (ap get_ref same) ready c
              (k t same)))

  serve_entry-serve :
      (h : Handler) (i : ℕ) (p : Ptr) (x : PollFd) (rs : List (ℕ × Ptr)) (m : ℤ)
      (next : ℤ → Cmd S (Unit {0})) (s : S)
      → IsQuiet P on_readable
      → IsQuiet P on_writeable
      → handler s ≡ h
      → get_elem? h.sockets i ≡ some x
      → get_elem? h.socket_ptrs i ≡ some p
      → (x.revents == 0) ≡ false
      → Counts P m ((x.revents, p) ∷ rs)
      → ((t : S) → handler t ≡ h → Counts P (pred_ℤ m) rs → next (pred_ℤ m) t ≡ serve_all P rs t)
      → serve_entry P x i m next s ≡ serve_all P ((x.revents, p) ∷ rs) s
  unfolding serve_entry serve_all
  serve_entry-serve h i p x rs m next s qr qw e ex ep ready c k = rw e (
      rw (dispatch-when (has_flag x.revents 1) on_readable i p s (rw e ep)) (
        and_then-cong (when (has_flag x.revents 1) (on_readable p) s) λ u t run.
          write_side-serve h i p x rs m next t qw
            (when-quiet P (has_flag x.revents 1) on_readable p s u t qr run ∙ e) ex ep ready c k))

  poll_from-serve :
      (h : Handler) (fuel i : ℕ) (m : ℤ) (s : S)
      → IsQuiet P on_readable
      → IsQuiet P on_writeable
      → IsAligned h
      → handler s ≡ h
      → i ≤ length h.sockets
      → length h.sockets < fuel + i
      → Counts P m (reports (drop i h.sockets) (drop i h.socket_ptrs))
      → poll_from P fuel i m s ≡ serve_all P (reports (drop i h.sockets) (drop i h.socket_ptrs)) s
  unfolding poll_from
  poll_from-serve h zero i m s qr qw a e le lt c = absurd (omega arith)
  poll_from-serve h (suc fuel) i m s qr qw a e le lt c =
      elim (Option-cases (get_elem? h.sockets i)) [
        | inl end ↦
            rw (e, end, poll_from)
              (rw (drop_end h.sockets i end) (unfold serve_all reports in refl))
        | inr (x, ex) ↦
            let inside = lt_of_get_elem? h.sockets i ex in
            let (p, ep) = get_elem?-lt h.socket_ptrs i (omega arith) in
            let step = drop-step h i x p ex ep in
            let c' = rw step at c in
            rw (e, ex, step, poll_from)
              (elim (Bool-cases (x.revents == 0)) [
                | inl idle ↦
                    rw (idle, serve_all_zero P x.revents p _ s idle)
                      (poll_from-serve h fuel (suc i) m s qr qw a e inside (omega arith)
                        (Counts-idle P x.revents p _ m idle c'))
                | inr ready ↦ rw ready (
                    serve_entry-serve h i p x _ m (poll_from P fuel (suc i)) s qr qw e ex ep ready
                      c'
                      λ t same counts.
                        poll_from-serve h fuel (suc i) (pred_ℤ m) t qr qw a same inside
                          (omega arith) counts)
              ])
      ]

  -- Let the callbacks leave the handler as it is, and let `::poll` either return the number of entries
  -- with `revents` set or fail. Then a turn of the loop serves the objects of all entries whose
  -- `revents` are set when it returns, in the order of the table, the read side of each before its
  -- write side: it leaves none out by its count. After a failure these are the entries of an earlier turn.
  pub poll_impl-serve :
      (timeout : ℤ) (s : S)
      → IsQuiet P on_readable
      → IsQuiet P on_writeable
      → IsAligned (handler (sys_poll timeout s).1)
      → Counts P (sys_poll timeout s).0 (
          reports
            (handler (sys_poll timeout s).1).sockets
            (handler (sys_poll timeout s).1).socket_ptrs)
      → poll_impl P timeout s
        ≡ serve_all P
            (reports
              (handler (sys_poll timeout s).1).sockets
              (handler (sys_poll timeout s).1).socket_ptrs)
            (sys_poll timeout s).1
  unfolding poll_impl
  poll_impl-serve timeout s qr qw a c =
      let (n, s') = sys_poll timeout s in
      poll_from-serve (handler s') (suc (length (handler s').sockets)) 0 n s' qr qw a refl
        (omega arith) (omega arith) c
