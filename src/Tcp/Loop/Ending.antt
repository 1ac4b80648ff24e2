-- ===== src/Tcp/Loop/Ending.antt =====
-- The end of a stream, when a program has hooked READABLE of a client beside the server.
use unisock.Prelude.{
  ◌≡◌, refl, sym, ap, subst, ℤ, pos, is_neg, false, none, some, List, [], ◌∷◌, length, ok, fault,
  dangling, Cmd,
}
use unisock.Events.Action.{ActionCallback, execute, is_skipped, stops_after}
use unisock.Events.Action.Execute.{execute_dangling}
use unisock.Events.ActionHandler.{get_action}
use unisock.Events.Tags.{tcp, disconnect}
use unisock.Events.Handler.{Ptr}
use unisock.Socket.System.{Bytes, System}
use unisock.Socket.World.{
  clients, ReadableFn, recv_on, erase_from, client_disconnected, Connection, UserCall, World,
  put_object, put_container, map_find, length_of,
}
use unisock.Socket.World.Memory.{load-live, heap-put_object}
use unisock.Socket.Object.Closing.{shut_down, destroyed, close_client_unhooked}
use unisock.Tcp.Connection.{recv, after_recv}
use unisock.Tcp.Loop.{run_readable, on_readable}

module _ {K : Type 0} (sys : System K) (user : UserCall → Cmd (World K) (Unit {0})) where
  -- The callback of a client at the end of its stream.
  recv_ends :
      (w : World K) (p : Ptr) (c : Connection) (key : ℤ) (buffer : Bytes) (k : K)
      → w.heap p ≡ some c
      → is_neg c.sock ≡ false
      → c.closed
        ≡ record { exec = client_disconnected p; flags = 0 }
          ∷ record { exec = erase_from clients key; flags = 6 }
          ∷ []
      → map_find key (w.containers clients) ≡ some p
      → get_action (tcp disconnect) w.server_actions ≡ some []
      → sys.recv c.sock 4096 w.kernel ≡ (pos 0, buffer, k)
      → run_readable sys user (recv_on p) w
        ≡ ok tt
            (destroyed (shut_down (record w { kernel = k }) p c (sys.close c.sock k)) clients key p)
  unfolding run_readable recv after_recv
  recv_ends w p c key buffer k live up shape found unhooked ended = rw (load-live p w live) (
      rw ended (
        rw (
          close_client_unhooked sys user (record w { kernel = k }) p c key live up shape found
            unhooked)))

  -- When a client of the server has, beside the server's own callback, another one hooked to READABLE, no
  -- hook of DISCONNECT is set and its stream ends, `on_readable` is undefined behaviour: the first callback
  -- destroys the object, whose list is then read on.
  pub on_readable_dangling :
      (w : World K) (p : Ptr) (c : Connection) (key : ℤ) (next : ActionCallback ReadableFn)
      (more : List (ActionCallback ReadableFn)) (buffer : Bytes) (k : K)
      → w.heap p ≡ some c
      → is_neg c.sock ≡ false
      → c.readable ≡ record { exec = recv_on p; flags = 0 } ∷ next ∷ more
      → c.closed
        ≡ record { exec = client_disconnected p; flags = 0 }
          ∷ record { exec = erase_from clients key; flags = 6 }
          ∷ []
      → map_find key (w.containers clients) ≡ some p
      → get_action (tcp disconnect) w.server_actions ≡ some []
      → sys.recv c.sock 4096 w.kernel ≡ (pos 0, buffer, k)
      → on_readable sys user p w ≡ fault dangling
  unfolding on_readable put_object put_container
  on_readable_dangling w p c key next more buffer k live up reads shape found unhooked ended =
      let v : World K = record w { kernel = k } in
      let t = destroyed (shut_down v p c (sys.close c.sock k)) clients key p in
      let current = length_of p (λ x. x.readable) in
      rw (load-live p w live) (
        subst (λ l. execute (run_readable sys user) current l w ≡ fault dangling) (sym reads)
          (execute_dangling (run_readable sys user) current (record { exec = recv_on p; flags = 0 })
            next more w t (rw live (ap (λ l. some (length l)) reads)) (unfold is_skipped in refl)
            (unfold stops_after in refl)
            (recv_ends w p c key buffer k live up shape found unhooked ended)
            (rw (heap-put_object p (shut_down v p c (sys.close c.sock k)) none) refl)))
