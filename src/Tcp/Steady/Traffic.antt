-- ===== src/Tcp/Steady/Traffic.antt =====
-- What sending and receiving change of the handler, where the program's callbacks register and
-- deregister nothing: only a connection whose stream has ended leaves it.
use Prim.Native.String.{String}
use unisock.Prelude.{
  ℤ, pos, is_neg, to_size, Bool, true, false, List, [], ◌∷◌, length, take, ltb, ◌==ℤ◌, arith, Cmd,
  inl, inr, Bool-cases,
}
use unisock.Events.Tags.{tcp, receive}
use unisock.Events.Handler.{Ptr, Handler, socket_want_write}
use unisock.Events.Handler.Ref.{socket_want_write-invalid, length-socket_want_write}
use unisock.Socket.System.{Bytes, System}
use unisock.Socket.World.{
  RecvFn, server_receive, client_receive, user_recv, UserCall, socket_recv, receive_event, World,
  load, store,
}
use unisock.Socket.Object.{execute_error, close}
use unisock.Tcp.Connection.{
  send, after_send, send_flush, flush_queue, after_flush, run_recv, execute_recv, after_recv, recv,
  recv_buffer_size,
}
use unisock.Tcp.Steady.{Moved, Moved-refl, Ends, Ends-bind, IsSteady}
use unisock.Tcp.Steady.Calls.{
  load-Ends, store-Ends, execute-Ends, execute_error-Ends, server_execute-Ends, client_execute-Ends,
  close-Ends,
}

want_write-Moved : (h : Handler) (fd : ℤ) (b : Bool) → Moved 0 h (socket_want_write h fd b)
want_write-Moved h fd b = record {
  changes = 0;
  at_most = omega arith;
  counter = omega (arith, socket_want_write-invalid h fd b);
  same_size = λ z. length-socket_want_write h fd b;
}

module _ {K : Type 0} (sys : System K) (user : UserCall → Cmd (World K) (Unit {0}))
    (steady : IsSteady user) where
  report_error-Ends :
      (p : Ptr) (function : String) (w : World K)
      → Ends 0 w (execute_error sys user p function (sys.errno w.kernel) w)
  report_error-Ends p function w =
      execute_error-Ends sys user steady p function (sys.errno w.kernel) w

  pub flush_queue-Ends :
      (p : Ptr) (sock : ℤ) (queue : List Bytes) (w : World K)
      → Ends 0 w (flush_queue sys user p sock queue w)
  unfolding flush_queue after_flush
  flush_queue-Ends p sock [] w = Moved-refl 0 w.handler
  flush_queue-Ends p sock (front ∷ rest) w =
      let r = sys.send sock front w.kernel in
      let u : World K = record w { kernel = r.1 } in
      elim (Bool-cases (is_neg r.0)) [
        | inl failed ↦ rw failed (report_error-Ends p "send" u)
        | inr sent ↦ rw sent (elim (Bool-cases (ltb (to_size r.0) (length front))) [
          | inl part ↦ rw part (Moved-refl 0 w.handler)
          | inr whole ↦ rw whole (
              Ends-bind 0 0 u (store p (λ c. record c { send_buffer = rest }) u) _
                (store-Ends p (λ c. record c { send_buffer = rest }) u)
                λ _ s.
                  Ends-bind 0 0 s (load p s) _ (load-Ends p s)
                    λ c v. want_write-Moved v.handler c.sock false)
        ])
      ]

  pub send_flush-Ends : (p : Ptr) (w : World K) → Ends 0 w (send_flush sys user p w)
  unfolding send_flush
  send_flush-Ends p w =
      Ends-bind 0 0 w (load p w) _ (load-Ends p w) λ c s. flush_queue-Ends p c.sock c.send_buffer s

  run_recv-Ends :
      (message : Bytes) (f : RecvFn) (w : World K) → Ends 0 w (run_recv sys user message f w)
  unfolding run_recv
  run_recv-Ends message (server_receive p) w =
      server_execute-Ends sys user steady (tcp receive) (λ n. receive_event n p message) w
  run_recv-Ends message (client_receive p) w =
      client_execute-Ends sys user steady (tcp receive) (λ n. receive_event n p message) w
  run_recv-Ends message (user_recv n) w = steady (socket_recv n message) w

  execute_recv-Ends :
      (p : Ptr) (message : Bytes) (w : World K) → Ends 0 w (execute_recv sys user p message w)
  unfolding execute_recv
  execute_recv-Ends p message w = Ends-bind 0 0 w (load p w) _ (load-Ends p w) λ c s.
      execute-Ends sys user steady (run_recv sys user message) _ c.recv s (run_recv-Ends message)

  after_recv-Ends :
      (p : Ptr) (n_bytes : ℤ) (buffer : Bytes) (w : World K)
      → Ends 1 w (after_recv sys user p n_bytes buffer w)
  unfolding after_recv
  after_recv-Ends p n_bytes buffer w = elim (Bool-cases (is_neg n_bytes)) [
    | inl failed ↦ rw failed (
        Ends-bind 0 1 w (execute_error sys user p "recv" (sys.errno w.kernel) w) _
          (report_error-Ends p "recv" w) λ u s. Moved-refl 1 s.handler)
    | inr got ↦ rw got (elim (Bool-cases (n_bytes ==ℤ pos 0)) [
      | inl ends ↦ rw ends (
          Ends-bind 1 0 w (close sys user p w) _ (close-Ends sys user steady p w)
            λ u s. Moved-refl 0 s.handler)
      | inr bytes ↦ rw bytes (
          Ends-bind 0 1 w (execute_recv sys user p (take (to_size n_bytes) buffer) w) _
            (execute_recv-Ends p (take (to_size n_bytes) buffer) w) λ u s. Moved-refl 1 s.handler)
    ])
  ]

  pub recv-Ends : (p : Ptr) (w : World K) → Ends 1 w (recv sys user p w)
  unfolding recv
  recv-Ends p w = Ends-bind 0 1 w (load p w) _ (load-Ends p w) λ c s.
      let r = sys.recv c.sock recv_buffer_size s.kernel in
      after_recv-Ends p r.0 r.1 (record s { kernel = r.2 })

  -- `send` from a callback makes no change.
  pub send-Ends : (p : Ptr) (message : Bytes) (w : World K) → Ends 0 w (send sys user p message w)
  unfolding send after_send
  send-Ends p message w = Ends-bind 0 0 w (load p w) _ (load-Ends p w) λ c s.
      let r = sys.send c.sock message s.kernel in
      let u : World K = record s { kernel = r.1 } in
      elim (Bool-cases (is_neg r.0)) [
        | inl failed ↦ rw failed (
            Ends-bind 0 0 u (execute_error sys user p "send" (sys.errno u.kernel) u) _
              (report_error-Ends p "send" u) λ _ v. Moved-refl 0 v.handler)
        | inr sent ↦ rw sent (elim (Bool-cases (ltb (to_size r.0) (length message))) [
          | inl part ↦ rw part (
              Ends-bind 0 0 u _ _
                (Ends-bind 0 0 u _ _ (store-Ends p _ u) λ _ v.
                  Ends-bind 0 0 v _ _ (load-Ends p v) λ d x. want_write-Moved x.handler d.sock true)
                λ _ y. Moved-refl 0 y.handler)
          | inr whole ↦ rw whole (Moved-refl 0 s.handler)
        ])
      ]
