-- ===== src/Tcp/Invariant/Hooks.antt =====
-- The hooks that the objects, the server and the client run, when the program's callbacks keep the
-- invariant.
use Prim.Native.String.{String}
use mathlib.Core.List.{Memᴰ}
use unisock.Prelude.{
  ℕ, ◌≡◌, refl, ℤ, Bool, false, some, List, [], ◌∷◌, All-always, All-map, true, is_neg, Cmd,
  Returns,
}
use unisock.Events.Action.Returns.{execute-Returns, execute_single-Returns}
use unisock.Events.Tags.{
  Tag, tcp, tcp_closed, disconnect, receive, server_actions_list, client_actions_list,
}
use unisock.Events.Handler.{Ptr}
use unisock.Socket.System.{Bytes, System}
use unisock.Socket.World.{
  ClosedFn, erase_from, listener_closed, client_disconnected, connection_closed, user_closed,
  RecvFn, server_receive, client_receive, user_recv, Connection, UserCall, socket_error, World,
}
use unisock.Socket.World.Memory.{load-live}
use unisock.Socket.Object.{execute_in, server_execute, client_execute, execute_error, run_closed}
use unisock.Tcp.Connection.{run_recv, execute_recv}
use unisock.Tcp.Invariant.{
  Inv, IsCalm, KeepsHooks, erases, IsCallable, IsLive, is_single, OwnClosed, OwnRecv,
}
use unisock.Tcp.Invariant.Keeps.{Reached, Reached-then, Frame-refl}

pub third : {A : Type 0} {a x y z : A} {l : List A} → a ≡ z → Memᴰ a (x ∷ y ∷ z ∷ l)
third e = Memᴰ.tail (Memᴰ.tail (Memᴰ.head e))

module _ {K : Type 0} (is_open : K → ℤ → Bool) (sys : System K)
    (user : UserCall → Cmd (World K) (Unit {0})) (hooks : KeepsHooks is_open user) where
  Reached-refl : (w : World K) → Inv is_open w → Reached is_open w w
  Reached-refl w v = (v, Frame-refl is_open w)

  -- A dying object is there as long as the hooks of its closing run.
  stays_there :
      (p : Ptr) (w s : World K) (c : Connection)
      → w.heap p ≡ some c
      → is_neg c.sock ≡ true
      → Reached is_open w s
      → IsLive s p
  stays_there p w s c live down r = let (d, e, _, _) = r.1.dying p c live down in (d, e)

  -- Callbacks that may all be called, whatever those before them do.
  pub server_execute-Returns :
      (t : Tag) (call : ℕ → UserCall) (w : World K)
      → Memᴰ t (server_actions_list [])
      → Inv is_open w
      → ((s : World K) → Reached is_open w s → (n : ℕ) → IsCallable s (call n))
      → Returns (λ _. Reached is_open w) (server_execute sys user t call w)
  unfolding server_execute
  server_execute-Returns t call w m v callable =
      let (l, e, _) = v.server_tags t m in
      rw (e, server_execute, execute_in)
        (execute-Returns _ _ (Reached is_open w) l w
          (All-always _
            (λ cb s r.
              Reached-then is_open w s (user (call cb.exec)) r
                (hooks (call cb.exec) s r.0 (callable s r cb.exec)))
            l)
          (λ s r. rw (r.1.server_same, e) refl) (Reached-refl w v))

  -- One callback at most.
  pub server_execute_single-Returns :
      (t : Tag) (call : ℕ → UserCall) (w : World K)
      → Memᴰ t (server_actions_list [])
      → is_single t ≡ true
      → Inv is_open w
      → ((n : ℕ) → IsCallable w (call n))
      → Returns (λ _. Reached is_open w) (server_execute sys user t call w)
  unfolding server_execute
  server_execute_single-Returns t call w m single v callable =
      let (l, e, one) = v.server_tags t m in
      rw (e, server_execute, execute_in)
        (execute_single-Returns _ _ (Reached is_open w) l w (one single) (rw e refl)
          (All-always _ (λ cb. hooks (call cb.exec) w v (callable cb.exec)) l) (Reached-refl w v))

  pub client_execute-Returns :
      (t : Tag) (call : ℕ → UserCall) (w : World K)
      → Memᴰ t (client_actions_list [])
      → Inv is_open w
      → ((s : World K) → Reached is_open w s → (n : ℕ) → IsCallable s (call n))
      → Returns (λ _. Reached is_open w) (client_execute sys user t call w)
  unfolding client_execute
  client_execute-Returns t call w m v callable =
      let (l, e, _) = v.client_tags t m in
      rw (e, client_execute, execute_in)
        (execute-Returns _ _ (Reached is_open w) l w
          (All-always _
            (λ cb s r.
              Reached-then is_open w s (user (call cb.exec)) r
                (hooks (call cb.exec) s r.0 (callable s r cb.exec)))
            l)
          (λ s r. rw (r.1.client_same, e) refl) (Reached-refl w v))

  pub client_execute_single-Returns :
      (t : Tag) (call : ℕ → UserCall) (w : World K)
      → Memᴰ t (client_actions_list [])
      → is_single t ≡ true
      → Inv is_open w
      → ((n : ℕ) → IsCallable w (call n))
      → Returns (λ _. Reached is_open w) (client_execute sys user t call w)
  unfolding client_execute
  client_execute_single-Returns t call w m single v callable =
      let (l, e, one) = v.client_tags t m in
      rw (e, client_execute, execute_in)
        (execute_single-Returns _ _ (Reached is_open w) l w (one single) (rw e refl)
          (All-always _ (λ cb. hooks (call cb.exec) w v (callable cb.exec)) l) (Reached-refl w v))

  pub execute_error-Returns :
      (p : Ptr) (function : String) (err : ℤ) (w : World K) (c : Connection)
      → w.heap p ≡ some c
      → Inv is_open w
      → Returns (λ _. Reached is_open w) (execute_error sys user p function err w)
  unfolding execute_error
  execute_error-Returns p function err w c live v = rw (load-live p w live) (
      execute_single-Returns _ _ (Reached is_open w) c.error w ((v.modest p c live).one_error)
        (rw live refl)
        (All-always _ (λ cb. hooks (socket_error cb.exec function err) w v tt) c.error)
        (Reached-refl w v))

  -- A notice of closing, to callbacks that get the object while it is there.
  pub run_closed-Returns :
      (p : Ptr) (f : ClosedFn) (w : World K) (c : Connection)
      → erases f ≡ false
      → OwnClosed p f
      → w.heap p ≡ some c
      → is_neg c.sock ≡ true
      → Inv is_open w
      → Returns (λ _. Reached is_open w) (run_closed sys user f w)
  unfolding run_closed
  run_closed-Returns p (erase_from o key) w c n own live down v = absurd (cc n)
  run_closed-Returns p (listener_closed q) w c n own live down v = rw own (
      server_execute-Returns (tcp tcp_closed) _ w (third refl) v
        (λ s r k. (stays_there p w s c live down r, λ single. absurd (cc single))))
  run_closed-Returns p (client_disconnected q) w c n own live down v = rw own (
      server_execute-Returns (tcp disconnect) _ w (Memᴰ.tail (Memᴰ.tail (Memᴰ.tail (third refl)))) v
        (λ s r k. (stays_there p w s c live down r, λ single. absurd (cc single))))
  run_closed-Returns p (connection_closed q) w c n own live down v = rw own (
      client_execute-Returns (tcp tcp_closed) _ w (third refl) v
        (λ s r k. (stays_there p w s c live down r, λ single. absurd (cc single))))
  run_closed-Returns p (user_closed k) w c n own live down v = hooks _ w v tt

  pub run_recv-Returns :
      (p : Ptr) (message : Bytes) (f : RecvFn) (w : World K) (c : Connection)
      → OwnRecv p f
      → w.heap p ≡ some c
      → is_neg c.sock ≡ false
      → Inv is_open w
      → IsCalm w
      → Returns (λ _. Reached is_open w) (run_recv sys user message f w)
  unfolding run_recv
  run_recv-Returns p message (server_receive q) w c own live up v calm = rw own (
      server_execute_single-Returns (tcp receive) _ w (Memᴰ.tail (third refl)) refl v
        (λ n. ((c, live, up), calm)))
  run_recv-Returns p message (client_receive q) w c own live up v calm = rw own (
      client_execute_single-Returns (tcp receive) _ w (Memᴰ.tail (third refl)) refl v
        (λ n. ((c, live, up), calm)))
  run_recv-Returns p message (user_recv n) w c own live up v calm = hooks _ w v tt

  pub execute_recv-Returns :
      (p : Ptr) (message : Bytes) (w : World K) (c : Connection)
      → w.heap p ≡ some c
      → is_neg c.sock ≡ false
      → Inv is_open w
      → IsCalm w
      → Returns (λ _. Reached is_open w) (execute_recv sys user p message w)
  unfolding execute_recv
  execute_recv-Returns p message w c live up v calm =
      let m = v.modest p c live in
      rw (load-live p w live) (
        execute_single-Returns _ _ (Reached is_open w) c.recv w m.one_recv (rw live refl)
          (All-map (λ cb own. run_recv-Returns p message cb.exec w c own live up v calm) c.recv
            m.recv)
          (Reached-refl w v))
