-- ===== src/Tcp/Invariant/Turn.antt =====
-- A turn of the event loop over the shared state of a TCP program.
use unisock.Prelude.{
  ℕ, suc, ◌≡◌, refl, ap, ◌∙◌, inl, inr, ℤ, is_neg, Bool, false, some, List, [], ◌∷◌, length,
  get_elem?, All-get, All-map, Bool-cases, ok, Cmd, Returns, returns, Returns-bind, Returns-mono,
  Returns-eq,
}
use unisock.Events.Action.Returns.{execute_single-Returns}
use unisock.Events.Handler.{Ptr, PollFd, empty, get_ref, ref_has_changed}
use unisock.Events.Handler.Table.{rows, table}
use unisock.Events.Poll.{poll}
use unisock.Events.Poll.Safety.{poll_impl-Returns}
use unisock.Socket.System.{System}
use unisock.Socket.World.{
  ReadableFn, accept_on, recv_on, user_readable, WriteableFn, flush_on, user_writeable, Connection,
  UserCall, socket_event, World,
}
use unisock.Socket.World.Memory.{load-live}
use unisock.Tcp.Loop.{
  write_revents, run_readable, run_writeable, on_readable, on_writeable, sys_poll, program,
  poll_once,
}
use unisock.Tcp.Invariant.{IsCalm, Row, OwnReadable, OwnWriteable, Inv, KeepsHooks}
use unisock.Tcp.Invariant.Kernel.{HasDescriptors}
use unisock.Tcp.Invariant.Rows.{get_elem?-rows}
use unisock.Tcp.Invariant.Keeps.{
  Frame-IsCalm, Reached, is_pos-not_neg, Frame-refl, Inv-kernel_handler,
}
use unisock.Tcp.Invariant.Connections.{recv-Returns, send_flush-Returns}
use unisock.Tcp.Invariant.Accept.{accept_from-Returns}

-- `::poll` changes the `revents` only.
pub write_revents-rows :
    (ss : List PollFd) (rs : List ℕ) (ps : List Ptr)
    → (length (write_revents ss rs) ≡ length ss) × (rows (write_revents ss rs) ps ≡ rows ss ps)
unfolding write_revents
write_revents-rows [] rs ps = (refl, refl)
write_revents-rows (s ∷ ss) [] ps = (refl, refl)
write_revents-rows (s ∷ ss) (r ∷ rs) [] = (ap suc (write_revents-rows ss rs []).0, refl)
write_revents-rows (s ∷ ss) (r ∷ rs) (p ∷ ps) =
    (ap suc (write_revents-rows ss rs ps).0, ap (◌∷◌ (s.fd, p)) (write_revents-rows ss rs ps).1)

module _ {K : Type 0} (is_open : K → ℤ → Bool) where
  -- An object that the handler has is alive, with an open descriptor.
  pub registered :
      (w : World K) (i : ℕ) (p : Ptr)
      → Inv is_open w
      → get_elem? w.handler.socket_ptrs i ≡ some p
      → (c : Connection) × (w.heap p ≡ some c) × (is_neg c.sock ≡ false)
  registered w i p v e =
      let (fd, at) = get_elem?-rows w.handler.sockets w.handler.socket_ptrs i p v.aligned e in
      let (c, live, same, up, _) = All-get (Row is_open w) (table w.handler) i v.rows at in
      (c, live, ap is_neg same ∙ is_pos-not_neg fd up)

  -- A callback of the loop that leaves the counter of the handler as it was leaves its size, too: it does
  -- not make a whole round of 65536 changes.
  abbrev pub IsShort : (Ptr → Cmd (World K) (Unit {0})) → Type 0
  IsShort f =
      (w t : World K) (i : ℕ) (p : Ptr) (u : Unit {0})
      → Inv is_open w
      → get_elem? w.handler.socket_ptrs i ≡ some p
      → f p w ≡ ok u t
      → ref_has_changed t.handler (get_ref w.handler) ≡ false
      → length t.handler.sockets ≡ length w.handler.sockets

module _ {K : Type 0} (is_open : K → ℤ → Bool) (sys : System K) (desc : HasDescriptors is_open sys)
    (user : UserCall → Cmd (World K) (Unit {0})) (hooks : KeepsHooks is_open user) where
  run_readable-Returns :
      (p : Ptr) (w : World K) (c : Connection) (f : ReadableFn)
      → w.heap p ≡ some c
      → is_neg c.sock ≡ false
      → Inv is_open w
      → IsCalm w
      → OwnReadable p f
      → Returns (λ _. Reached is_open w) (run_readable sys user f w)
  unfolding run_readable
  run_readable-Returns p w c (accept_on q) live up v calm own =
      rw own (accept_from-Returns is_open sys desc user hooks p w c live up v)
  run_readable-Returns p w c (recv_on q) live up v calm own = rw own (
      Returns-bind (recv-Returns is_open sys desc user hooks p w c live up v calm)
        λ u t r. returns r)
  run_readable-Returns p w c (user_readable n) live up v calm own = hooks (socket_event n) w v tt

  run_writeable-Returns :
      (p : Ptr) (w : World K) (c : Connection) (f : WriteableFn)
      → w.heap p ≡ some c
      → is_neg c.sock ≡ false
      → Inv is_open w
      → OwnWriteable p f
      → Returns (λ _. Reached is_open w) (run_writeable sys user f w)
  unfolding run_writeable
  run_writeable-Returns p w c (flush_on q) live up v own =
      rw own (send_flush-Returns is_open sys desc user hooks p w c live up v)
  run_writeable-Returns p w c (user_writeable n) live up v own = hooks (socket_event n) w v tt

  -- Let the program's callbacks keep the invariant where the library calls them, and let the kernel deal
  -- in descriptors as documented. Then, where no object is half closed, `on_readable` of an object that
  -- the handler has returns, and keeps the invariant: accepting, receiving, closing at the end of the
  -- stream and all hooks touch no object that is gone.
  pub on_readable-Returns :
      (w : World K) (i : ℕ) (p : Ptr)
      → Inv is_open w
      → IsCalm w
      → get_elem? w.handler.socket_ptrs i ≡ some p
      → Returns (λ _. Reached is_open w) (on_readable sys user p w)
  unfolding on_readable
  on_readable-Returns w i p v calm e =
      let (c, live, up) = registered is_open w i p v e in
      let m = v.modest p c live in
      rw (load-live p w live) (
        execute_single-Returns _ _ (Reached is_open w) c.readable w m.one_readable (rw live refl)
          (All-map (λ cb own. run_readable-Returns p w c cb.exec live up v calm own) c.readable
            m.readable)
          (v, Frame-refl is_open w))

  -- Under the same assumptions on the program and the kernel, `on_writeable` of an object that the handler
  -- has, which flushes its queue, returns and keeps the invariant.
  on_writeable-Returns :
      (w : World K) (i : ℕ) (p : Ptr)
      → Inv is_open w
      → get_elem? w.handler.socket_ptrs i ≡ some p
      → Returns (λ _. Reached is_open w) (on_writeable sys user p w)
  unfolding on_writeable
  on_writeable-Returns w i p v e =
      let (c, live, up) = registered is_open w i p v e in
      let m = v.modest p c live in
      rw (load-live p w live) (
        execute_single-Returns _ _ (Reached is_open w) c.writeable w m.one_writeable (rw live refl)
          (All-map (λ cb own. run_writeable-Returns p w c cb.exec live up v own) c.writeable
            m.writeable)
          (v, Frame-refl is_open w))

  sys_poll-Inv :
      (timeout : ℤ) (w : World K) → Inv is_open w → Inv is_open (sys_poll sys user timeout w).1
  unfolding sys_poll
  sys_poll-Inv timeout w v =
      let r = sys.poll w.handler.sockets timeout w.kernel in
      let same = write_revents-rows w.handler.sockets r.1 w.handler.socket_ptrs in
      Inv-kernel_handler is_open w r.2
        (record (w.handler) { sockets = write_revents w.handler.sockets r.1 })
        (λ fd. desc.poll_keeps w.handler.sockets timeout fd w.kernel) (same.0 ∙ v.aligned) same.1 v

  sys_poll-IsCalm : (timeout : ℤ) (w : World K) → IsCalm w → IsCalm (sys_poll sys user timeout w).1
  unfolding sys_poll
  sys_poll-IsCalm timeout w calm = calm

  -- Let the program's callbacks keep the invariant where the library calls them, let the kernel deal in
  -- descriptors as documented, and let no callback make a whole round of 65536 changes of the handler.
  -- Then a turn of the loop, from a state with no object half closed, returns and keeps the invariant,
  -- whatever `::poll` reports and the other system calls give, and leaves no object half closed: it uses no
  -- object that is gone and no position out of range.
  pub poll_once-Returns :
      (timeout : ℤ) (w : World K)
      → IsShort is_open (on_readable sys user)
      → IsShort is_open (on_writeable sys user)
      → Inv is_open w
      → IsCalm w
      → Returns (λ _ t. Inv is_open t × IsCalm t) (poll_once sys user timeout w)
  unfolding poll_once poll
  poll_once-Returns timeout w short_read short_write v calm =
      let turn =
        poll_impl-Returns (program sys user) (λ s. Inv is_open s × IsCalm s) (λ s h. h.0.aligned)
          (λ s i p h e.
            Returns-mono (Returns-eq (on_readable-Returns s i p h.0 h.1 e)) λ u t r.
              ((r.0.0, Frame-IsCalm is_open s t r.0.1 h.1), short_read s t i p u h.0 e r.1))
          (λ s i p h e.
            Returns-mono (Returns-eq (on_writeable-Returns s i p h.0 e)) λ u t r.
              ((r.0.0, Frame-IsCalm is_open s t r.0.1 h.1), short_write s t i p u h.0 e r.1))
          timeout w (λ s h. (sys_poll-Inv timeout s h.0, sys_poll-IsCalm timeout s h.1))
          (v, calm) in
      elim (Bool-cases (empty w.handler)) [
        | inl nothing ↦ rw nothing (returns (v, calm))
        | inr some_row ↦ rw some_row (Returns-bind turn λ u t k. returns k)
      ]
