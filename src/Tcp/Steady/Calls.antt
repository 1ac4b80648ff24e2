-- ===== src/Tcp/Steady/Calls.antt =====
-- The calls on a connection, of a program whose callbacks register and deregister nothing: `close` makes
-- one change, and the callbacks that the others execute none.
use Prim.Native.String.{String}
use unisock.Prelude.{
  ℕ, ℤ, negsuc, is_neg, Option, none, some, List, length, arith, ok, fault, dangling, assertion,
  Run, Cmd, and_then, inl, inr, Bool-cases,
}
use mathlib.Core.Option
use unisock.Events.Action.{ActionCallback, execute}
use unisock.Events.Action.IfReturns.{execute-IfReturns}
use unisock.Events.ActionHandler.{ActionHandler, get_action}
use unisock.Events.Tags.{Tag, tcp, tcp_closed, disconnect}
use unisock.Events.Handler.{Ptr, Handler, delete_socket}
use unisock.Events.Handler.Ref.{delete_socket-invalid}
use unisock.Socket.System.{System}
use unisock.Socket.World.{
  Connection, ClosedFn, erase_from, listener_closed, client_disconnected, connection_closed,
  user_closed, UserCall, socket_event, socket_error, Owner, World, load, store, put_object,
  put_container, map_find, map_erase,
}
use unisock.Socket.Object.{
  execute_in, server_execute, client_execute, execute_error, erase_object, run_closed,
  execute_closed, base_close, close,
}
use unisock.Tcp.Steady.{Moved, Moved-refl, Ends, Ends-then, Ends-bind, IsSteady}

module _ {K : Type 0} where
  pub load-Ends : (p : Ptr) (w : World K) → Ends 0 w (load p w)
  unfolding load
  load-Ends p w =
      elim (w.heap p)
        as (λ o.
          Ends 0 w (elim o as (λ _. Run (World K) Connection) [
            | none ↦ fault dangling
            | some c ↦ ok c w
          ])) [ none ↦ tt | some c ↦ Moved-refl 0 w.handler ]

  pub store-Ends : (p : Ptr) (f : Connection → Connection) (w : World K) → Ends 0 w (store p f w)
  unfolding store put_object
  store-Ends p f w =
      elim (w.heap p)
        as (λ o. Ends 0 w (elim o as (λ _. Run (World K) (Unit {0})) [
          | none ↦ fault dangling
          | some c ↦ ok tt (put_object p (some (f c)) w)
        ])) [ none ↦ tt | some c ↦ Moved-refl 0 w.handler ]

delete_socket-Moved : (h : Handler) (fd : ℤ) → Moved 1 h (delete_socket h fd)
delete_socket-Moved h fd = record {
  changes = 1;
  at_most = omega arith;
  counter = omega (arith, delete_socket-invalid h fd);
  same_size = λ z. absurd (omega arith);
}

module _ {K : Type 0} (sys : System K) (user : UserCall → Cmd (World K) (Unit {0}))
    (steady : IsSteady user) where
  -- `execute` with callbacks of the program.
  pub execute-Ends {ℓ} :
      {F : Type ℓ} (call : F → Cmd (World K) (Unit {0})) (current : World K → Option ℕ)
      (cbs : List (ActionCallback F)) (w : World K)
      → ((f : F) (s : World K) → Ends 0 s (call f s))
      → Ends 0 w (execute call current cbs w)
  execute-Ends call current cbs w each =
      execute-IfReturns call current (λ t. Moved 0 w.handler t.handler) cbs w
        (λ f s m. Ends-then 0 0 w s (call f s) m (each f s)) (Moved-refl 0 w.handler)

  execute_in-Ends :
      (actions : World K → ActionHandler ℕ) (t : Tag) (call : ℕ → UserCall) (w : World K)
      → Ends 0 w (execute_in sys user actions t call w)
  execute_in-Ends actions t call w =
      let current : World K → Option ℕ = λ v. Option.map length (get_action t (actions v)) in
      elim (get_action t (actions w))
        as (λ o. Ends 0 w (elim o as (λ _. Run (World K) (Unit {0})) [
          | none ↦ fault assertion
          | some cbs ↦ execute (λ n. user (call n)) current cbs w
        ])) [
          | none ↦ tt
          | some cbs ↦ execute-Ends (λ n. user (call n)) current cbs w (λ n. steady (call n))
        ]

  pub server_execute-Ends :
      (t : Tag) (call : ℕ → UserCall) (w : World K) → Ends 0 w (server_execute sys user t call w)
  unfolding server_execute
  server_execute-Ends = execute_in-Ends (λ w. w.server_actions)

  pub client_execute-Ends :
      (t : Tag) (call : ℕ → UserCall) (w : World K) → Ends 0 w (client_execute sys user t call w)
  unfolding client_execute
  client_execute-Ends = execute_in-Ends (λ w. w.client_actions)

  pub execute_error-Ends :
      (p : Ptr) (function : String) (err : ℤ) (w : World K)
      → Ends 0 w (execute_error sys user p function err w)
  unfolding execute_error
  execute_error-Ends p function err w = Ends-bind 0 0 w (load p w) _ (load-Ends p w) λ c s.
      execute-Ends (λ n. user (socket_error n function err)) _ c.error s
        (λ n. steady (socket_error n function err))

  erase_object-Ends : (o : Owner) (key : ℤ) (w : World K) → Ends 0 w (erase_object sys user o key w)
  unfolding erase_object put_object put_container
  erase_object-Ends o key w =
      elim (map_find key (w.containers o))
        as (λ x. Ends 0 w (elim x as (λ _. Run (World K) (Unit {0})) [
          | none ↦ ok tt w
          | some p ↦ ok tt (put_object p none (put_container o (map_erase key (w.containers o)) w))
        ])) [ none ↦ Moved-refl 0 w.handler | some p ↦ Moved-refl 0 w.handler ]

  run_closed-Ends : (f : ClosedFn) (w : World K) → Ends 0 w (run_closed sys user f w)
  unfolding run_closed
  run_closed-Ends (erase_from o key) w = erase_object-Ends o key w
  run_closed-Ends (listener_closed p) w = server_execute-Ends (tcp tcp_closed) _ w
  run_closed-Ends (client_disconnected p) w = server_execute-Ends (tcp disconnect) _ w
  run_closed-Ends (connection_closed p) w = client_execute-Ends (tcp tcp_closed) _ w
  run_closed-Ends (user_closed n) w = steady (socket_event n) w

  execute_closed-Ends : (p : Ptr) (w : World K) → Ends 0 w (execute_closed sys user p w)
  unfolding execute_closed
  execute_closed-Ends p w =
      Ends-bind 0 0 w (load p w) _ (load-Ends p w)
        λ c s. execute-Ends (run_closed sys user) _ c.closed s run_closed-Ends

  base_close-Ends : (p : Ptr) (w : World K) → Ends 0 w (base_close sys user p w)
  unfolding base_close
  base_close-Ends p w = Ends-bind 0 0 w (load p w) _ (load-Ends p w) λ c s.
      elim (Bool-cases (is_neg c.sock)) [
        | inl closed ↦ rw closed (Moved-refl 0 s.handler)
        | inr up ↦ rw up (
            store-Ends p (λ d. record d { sock = negsuc 0 })
              (record s { kernel = sys.close c.sock s.kernel }))
      ]

  pub close-Ends : (p : Ptr) (w : World K) → Ends 1 w (close sys user p w)
  unfolding close
  close-Ends p w = Ends-bind 0 1 w (load p w) _ (load-Ends p w) λ c s.
      elim (Bool-cases (is_neg c.sock)) [
        | inl closed ↦ rw closed (Moved-refl 1 s.handler)
        | inr up ↦
            let u : World K = record s { handler = delete_socket s.handler c.sock } in
            rw up (
              Ends-then 1 0 s u
                (and_then (base_close sys user p u) (λ _. execute_closed sys user p))
                (delete_socket-Moved s.handler c.sock)
                (Ends-bind 0 0 u (base_close sys user p u) _ (base_close-Ends p u)
                  (λ _. execute_closed-Ends p)))
      ]
