-- ===== src/Tcp/Steady/Loop.antt =====
-- A callback of the loop makes one change at most, when the program's callbacks make none: so no round of
-- the counter is missed.
use unisock.Prelude.{
  ℕ, ◌<◌, ◌≡◌, ℤ, pos, is_neg, is_pos, Bool, false, Option, none, some, length, arith, ok, Run, Cmd,
  inl, inr, Bool-cases, subst,
}
use unisock.Events.Action.IfReturns.{execute_single-IfReturns}
use unisock.Events.Tags.{basic, error, tcp, accept}
use unisock.Events.Handler.{Ptr, Handler, add_socket, get_ref, ref_has_changed}
use unisock.Socket.System.{Bytes, System}
use unisock.Socket.World.{
  clients, recv_on, flush_on, Connection, UserCall, socket_event, error_event, Owner, World, load,
  ReadableFn, accept_on, user_readable, WriteableFn, user_writeable, put_object, put_container,
  map_find,
}
use unisock.Socket.World.Memory.{load-live}
use unisock.Socket.Object.{
  server_execute, on_readable as object_on_readable, on_writeable as object_on_writeable, on_closed,
  on_recv, new_connection,
}
use unisock.Socket.Container.{insert_new, insert_socket, make_socket_of}
use unisock.Tcp.Server.{welcome, accept_socket, accept_from}
use unisock.Tcp.Loop.{run_readable, run_writeable, on_readable, on_writeable}
use unisock.Tcp.Invariant.Turn.{registered, IsShort}
use unisock.Tcp.Steady.{Moved, Moved-refl, Ends, Ends-bind, Ends-le, IsSteady}
use unisock.Tcp.Steady.Calls.{store-Ends, load-Ends, server_execute-Ends}
use unisock.Tcp.Steady.Traffic.{recv-Ends, send_flush-Ends}

add_socket-Moved : (h : Handler) (fd : ℤ) (p : Ptr) → Moved 1 h (add_socket h fd p)
unfolding add_socket
add_socket-Moved h fd p = record {
  changes = 1;
  at_most = omega arith;
  counter = omega arith;
  same_size = λ z. absurd (omega arith);
}

module _ {K : Type 0} (sys : System K) (user : UserCall → Cmd (World K) (Unit {0}))
    (steady : IsSteady user) where
  insert_socket-Ends :
      (o : Owner) (c : Connection) (w : World K) → Ends 1 w (insert_socket sys user o c w)
  unfolding insert_socket insert_new put_object put_container
  insert_socket-Ends o c w =
      elim (map_find c.sock (w.containers o))
        as (λ x. Ends 1 w (elim x as (λ _. Run (World K) (Option Ptr)) [
          | some _ ↦ ok none w
          | none ↦ let (p, w') = insert_new sys user o c w in ok (some p) w'
        ])) [
          | some p ↦ Moved-refl 1 w.handler
          | none ↦ add_socket-Moved w.handler c.sock w.next_ptr
        ]

  make_socket_of-Ends :
      (o : Owner) (fd : ℤ) (w : World K) → Ends 1 w (make_socket_of sys user o fd w)
  unfolding make_socket_of
  make_socket_of-Ends o fd w = elim (Bool-cases (is_pos fd)) [
    | inl up ↦ rw up (insert_socket-Ends o (new_connection fd) w)
    | inr zero ↦ rw zero tt
  ]

  welcome-Ends : (p : Ptr) (address : Bytes) (w : World K) → Ends 0 w (welcome sys user p address w)
  unfolding welcome object_on_readable object_on_writeable on_closed on_recv
  welcome-Ends p address w = Ends-bind 0 0 w _ _ (store-Ends p _ w) λ _ a.
      Ends-bind 0 0 a _ _ (store-Ends p _ a) λ _ b. Ends-bind 0 0 b _ _ (store-Ends p _ b) λ _ c.
        Ends-bind 0 0 c _ _ (store-Ends p _ c) λ _ d.
          Ends-bind 0 0 d _ _ (store-Ends p _ d)
            λ _ e. server_execute-Ends sys user steady (tcp accept) _ e

  accept_socket-Ends :
      (fd : ℤ) (address : Bytes) (w : World K) → Ends 1 w (accept_socket sys user fd address w)
  unfolding accept_socket
  accept_socket-Ends fd address w = elim (Bool-cases (is_neg fd)) [
    | inl failed ↦
        rw failed
          (Ends-le 0 1 w _ (omega arith) (server_execute-Ends sys user steady (basic error) _ w))
    | inr got ↦ rw got (
        Ends-bind 1 0 w (make_socket_of sys user clients fd w) _ (make_socket_of-Ends clients fd w)
          λ made s.
            elim made
              as (λ m. Ends 0 s (
                (elim m as (λ _. Cmd (World K) (Unit {0})) [
                  | none ↦
                      server_execute sys user (basic error) (λ n. error_event n "insert" (pos 0))
                  | some client ↦ welcome sys user client address
                ])
                  s)) [
                    | none ↦ server_execute-Ends sys user steady (basic error) _ s
                    | some client ↦ welcome-Ends client address s
                  ])
  ]

  accept_from-Ends : (p : Ptr) (w : World K) → Ends 1 w (accept_from sys user p w)
  unfolding accept_from
  accept_from-Ends p w = Ends-bind 0 1 w (load p w) _ (load-Ends p w) λ c s.
      elim (Bool-cases (is_neg c.sock)) [
        | inl closed ↦ rw closed tt
        | inr up ↦
            let r = sys.accept c.sock s.kernel in
            rw up (accept_socket-Ends r.0 r.1 (record s { kernel = r.2 }))
      ]

  run_readable-Ends : (f : ReadableFn) (w : World K) → Ends 1 w (run_readable sys user f w)
  unfolding run_readable
  run_readable-Ends (accept_on p) w = accept_from-Ends p w
  run_readable-Ends (recv_on p) w =
      Ends-bind 1 0 w _ _ (recv-Ends sys user steady p w) λ n s. Moved-refl 0 s.handler
  run_readable-Ends (user_readable n) w = Ends-le 0 1 w _ (omega arith) (steady (socket_event n) w)

  run_writeable-Ends : (f : WriteableFn) (w : World K) → Ends 0 w (run_writeable sys user f w)
  unfolding run_writeable
  run_writeable-Ends (flush_on p) w = send_flush-Ends sys user steady p w
  run_writeable-Ends (user_writeable n) w = steady (socket_event n) w

  -- A call that made less than a round of changes shows by the counter whether it made any.
  Ends-IsShort :
      (n : ℕ) (w t : World K) (r : Run (World K) (Unit {0})) (u : Unit {0})
      → n < 65536
      → Ends n w r
      → r ≡ ok u t
      → ref_has_changed t.handler (get_ref w.handler) ≡ false
      → length t.handler.sockets ≡ length w.handler.sockets
  unfolding ref_has_changed get_ref
  Ends-IsShort n w t r u lt ends run same =
      let q : Ends n w (ok u t) = subst (Ends n w) run ends in q.same_size (ground arith)

  pub on_readable-IsShort : (is_open : K → ℤ → Bool) → IsShort is_open (on_readable sys user)
  unfolding on_readable
  on_readable-IsShort is_open w t i p u v e run =
      let (c, live, up) = registered is_open w i p v e in
      Ends-IsShort 1 w t (on_readable sys user p w) u (omega arith)
        (rw (load-live p w live) (
          execute_single-IfReturns (run_readable sys user) _ (λ s. Moved 1 w.handler s.handler)
            c.readable w (v.modest p c live).one_readable (λ f. run_readable-Ends f w)
            (Moved-refl 1 w.handler)))
        run

  pub on_writeable-IsShort : (is_open : K → ℤ → Bool) → IsShort is_open (on_writeable sys user)
  unfolding on_writeable
  on_writeable-IsShort is_open w t i p u v e run =
      let (c, live, up) = registered is_open w i p v e in
      Ends-IsShort 1 w t (on_writeable sys user p w) u (omega arith)
        (rw (load-live p w live) (
          execute_single-IfReturns (run_writeable sys user) _ (λ s. Moved 1 w.handler s.handler)
            c.writeable w (v.modest p c live).one_writeable
            (λ f. Ends-le 0 1 w _ (omega arith) (run_writeable-Ends f w)) (Moved-refl 1 w.handler)))
        run
