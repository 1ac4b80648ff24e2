-- ===== src/Tcp/Invariant/Connections.antt =====
-- `recv` and `send_flush` of a registered connection keep the invariant.
use unisock.Prelude.{
  ◌≡◌, refl, sym, ap, ◌∙◌, ℤ, pos, is_neg, to_size, Bool, true, false, some, List, [], ◌∷◌, length,
  take, drop, ◌++◌, ltb, inl, inr, Bool-cases, ◌==ℤ◌, Cmd, Returns, returns, Returns-bind,
}
use unisock.Events.Handler.{Ptr, Handler, socket_want_write}
use unisock.Events.Handler.Table.{
  IsAligned, table, wants_write, apply_call, apply_calls, table_call, table_calls,
  table-apply_calls,
}
use unisock.Socket.System.{Bytes, System}
use unisock.Socket.World.{Connection, UserCall, World, put_object}
use unisock.Socket.World.Memory.{load-live, store-live, load-put_object}
use unisock.Tcp.Connection.{
  after_recv, after_flush, flush_queue, recv, send_flush, send, after_send,
}
use unisock.Tcp.Invariant.{IsModest, IsCalm, Inv, KeepsHooks}
use unisock.Tcp.Invariant.Kernel.{HasDescriptors}
use unisock.Tcp.Invariant.Entries.{some_unique}
use unisock.Tcp.Invariant.Keeps.{
  Reached, Reached-kernel, Reached-then, Inv-kernel_handler, Inv-put_object, Frame-put_object,
  Frame-refl,
}
use unisock.Tcp.Invariant.Hooks.{execute_error-Returns, execute_recv-Returns}
use unisock.Tcp.Invariant.Close.{close-Returns}

want_write-table :
    (h : Handler) (fd : ℤ) (b : Bool)
    → IsAligned h
    → IsAligned (socket_want_write h fd b) × (table (socket_want_write h fd b) ≡ table h)
unfolding apply_calls apply_call table_calls table_call
want_write-table h fd b a = table-apply_calls (wants_write fd b ∷ []) h a

IsModest-buffer :
    (p : Ptr) (c : Connection) (queue : List Bytes)
    → IsModest p c
    → IsModest p (record c { send_buffer = queue })
IsModest-buffer p c queue m = record {
  readable = m.readable;
  writeable = m.writeable;
  recv = m.recv;
  one_readable = m.one_readable;
  one_writeable = m.one_writeable;
  one_error = m.one_error;
  one_recv = m.one_recv;
  positive = m.positive;
}

module _ {K : Type 0} (is_open : K → ℤ → Bool) (sys : System K) (desc : HasDescriptors is_open sys)
    (user : UserCall → Cmd (World K) (Unit {0})) (hooks : KeepsHooks is_open user) where
  after_recv-Returns :
      (p : Ptr) (n : ℤ) (buffer : Bytes) (w : World K) (c : Connection)
      → w.heap p ≡ some c
      → is_neg c.sock ≡ false
      → Inv is_open w
      → IsCalm w
      → Returns (λ _. Reached is_open w) (after_recv sys user p n buffer w)
  unfolding after_recv
  after_recv-Returns p n buffer w c live up v calm = elim (Bool-cases (is_neg n)) [
    | inl failed ↦ rw failed (
        Returns-bind (execute_error-Returns is_open sys user hooks p "recv" _ w c live v)
          λ u t r. returns r)
    | inr got ↦ rw got (elim (Bool-cases (n ==ℤ pos 0)) [
      | inl end ↦
          rw end (
            Returns-bind (close-Returns is_open sys desc user hooks w p c live v)
              λ u t r. returns r)
      | inr message ↦ rw message (
          Returns-bind
            (execute_recv-Returns is_open sys user hooks p (take (to_size n) buffer) w c live up v
              calm)
            λ u t r. returns r)
    ])
  ]

  -- `recv` on a connection with an open descriptor, whatever the kernel gives.
  pub recv-Returns :
      (p : Ptr) (w : World K) (c : Connection)
      → w.heap p ≡ some c
      → is_neg c.sock ≡ false
      → Inv is_open w
      → IsCalm w
      → Returns (λ _. Reached is_open w) (recv sys user p w)
  unfolding recv
  recv-Returns p w c live up v calm =
      let r = sys.recv c.sock 4096 w.kernel in
      let reached =
        Reached-kernel is_open w r.2 (λ fd. desc.recv_keeps c.sock fd 4096 w.kernel) v in
      rw (load-live p w live) (
        Reached-then is_open w (record w { kernel = r.2 }) (after_recv sys user p r.0 r.1) reached
          (after_recv-Returns p r.0 r.1 (record w { kernel = r.2 }) c live up reached.0 calm))

  -- The state with another queue and another interest in WRITEABLE.
  queued-Reached :
      (p : Ptr) (w : World K) (c : Connection) (rest : List Bytes) (b : Bool)
      → w.heap p ≡ some c
      → is_neg c.sock ≡ false
      → Inv is_open w
      → Reached is_open w (record (put_object p (some (record c { send_buffer = rest })) w) {
        handler = socket_want_write w.handler c.sock b;
      })
  unfolding put_object
  queued-Reached p w c rest b live up v =
      let d : Connection = record c { send_buffer = rest } in
      let f =
        Frame-put_object is_open w p c (some d) live up
          (λ x e. ap (λ y. is_neg y.sock) (sym (some_unique e)) ∙ up) in
      let v' =
        Inv-put_object is_open w p c d live refl refl (v.owned p c live)
          (IsModest-buffer p c rest (v.modest p c live)) v in
      let (a, same) = want_write-table w.handler c.sock b v.aligned in
      (
        Inv-kernel_handler is_open (put_object p (some d) w) w.kernel
            (socket_want_write w.handler c.sock b) (λ fd o. o) a same v',
        record { dying = f.dying; calm = f.calm; server_same = refl; client_same = refl },
      )

  after_flush-Returns :
      (p : Ptr) (front : Bytes) (rest : List Bytes) (n : ℤ) (w : World K) (c : Connection)
      → w.heap p ≡ some c
      → is_neg c.sock ≡ false
      → Inv is_open w
      → Returns (λ _. Reached is_open w) (after_flush sys user p front rest n w)
  unfolding after_flush put_object
  after_flush-Returns p front rest n w c live up v = elim (Bool-cases (is_neg n)) [
    | inl failed ↦ rw failed (execute_error-Returns is_open sys user hooks p "send" _ w c live v)
    | inr went ↦ rw went (elim (Bool-cases (ltb (to_size n) (length front))) [
      | inl part ↦ rw part (returns (v, Frame-refl is_open w))
      | inr whole ↦
          rw (whole, store-live p w (λ d. record d { send_buffer = rest }) live)
            (rw (load-put_object p w (record c { send_buffer = rest }))
              (returns (queued-Reached p w c rest false live up v)))
    ])
  ]

  flush_queue-Returns :
      (p : Ptr) (queue : List Bytes) (w : World K) (c : Connection)
      → w.heap p ≡ some c
      → is_neg c.sock ≡ false
      → Inv is_open w
      → Returns (λ _. Reached is_open w) (flush_queue sys user p c.sock queue w)
  unfolding flush_queue
  flush_queue-Returns p [] w c live up v = returns (v, Frame-refl is_open w)
  flush_queue-Returns p (front ∷ rest) w c live up v =
      let r = sys.send c.sock front w.kernel in
      let reached =
        Reached-kernel is_open w r.1 (λ fd. desc.send_keeps c.sock fd front w.kernel) v in
      Reached-then is_open w (record w { kernel = r.1 }) (after_flush sys user p front rest r.0)
        reached
        (after_flush-Returns p front rest r.0 (record w { kernel = r.1 }) c live up reached.0)

  -- `send_flush` on a connection with an open descriptor, whatever the kernel takes.
  pub send_flush-Returns :
      (p : Ptr) (w : World K) (c : Connection)
      → w.heap p ≡ some c
      → is_neg c.sock ≡ false
      → Inv is_open w
      → Returns (λ _. Reached is_open w) (send_flush sys user p w)
  unfolding send_flush
  send_flush-Returns p w c live up v =
      rw (load-live p w live) (flush_queue-Returns p c.send_buffer w c live up v)

  after_send-Returns :
      (p : Ptr) (message : Bytes) (n : ℤ) (w : World K) (c : Connection)
      → w.heap p ≡ some c
      → is_neg c.sock ≡ false
      → Inv is_open w
      → Returns (λ _. Reached is_open w) (after_send sys user p message n w)
  unfolding after_send put_object
  after_send-Returns p message n w c live up v = elim (Bool-cases (is_neg n)) [
    | inl failed ↦ rw failed (
        Returns-bind (execute_error-Returns is_open sys user hooks p "send" _ w c live v)
          λ u t r. returns r)
    | inr went ↦ rw went (elim (Bool-cases (ltb (to_size n) (length message))) [
      | inr whole ↦ rw whole (returns (v, Frame-refl is_open w))
      | inl part ↦
          let queue : Connection → Connection =
            λ d. record d { send_buffer = d.send_buffer ++ drop (to_size n) message ∷ [] } in
          rw (part, store-live p w queue live)
            (rw (load-put_object p w (queue c))
              (returns (queued-Reached p w c (queue c).send_buffer true live up v)))
    ])
  ]

  -- `send` on a connection with an open descriptor, however much of the message the kernel takes.
  pub send-Returns :
      (p : Ptr) (message : Bytes) (w : World K) (c : Connection)
      → w.heap p ≡ some c
      → is_neg c.sock ≡ false
      → Inv is_open w
      → Returns (λ _. Reached is_open w) (send sys user p message w)
  unfolding send
  send-Returns p message w c live up v =
      let r = sys.send c.sock message w.kernel in
      let reached =
        Reached-kernel is_open w r.1 (λ fd. desc.send_keeps c.sock fd message w.kernel) v in
      rw (load-live p w live) (
        Reached-then is_open w (record w { kernel = r.1 }) (after_send sys user p message r.0)
          reached
          (after_send-Returns p message r.0 (record w { kernel = r.1 }) c live up reached.0))
