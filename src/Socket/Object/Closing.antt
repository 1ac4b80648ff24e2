-- ===== src/Socket/Object/Closing.antt =====
-- `socket::close`, step by step.
use unisock.Prelude.{
  ◌≡◌, sym, ap, subst, ◌∙◌, ℤ, negsuc, is_neg, false, none, some, [], ◌∷◌, length, ok, Cmd,
}
use unisock.Events.Action.{execute}
use unisock.Events.Action.Execute.{execute_pair, execute_none}
use unisock.Events.ActionHandler.{get_action}
use unisock.Events.Tags.{tcp, disconnect}
use unisock.Events.Handler.{Ptr, delete_socket}
use unisock.Socket.System.{System}
use unisock.Socket.World.{
  Owner, clients, erase_from, client_disconnected, Connection, UserCall, World, put_object,
  put_container, map_find, map_erase, length_of,
}
use unisock.Socket.World.Memory.{load-live, store-live, heap-put_object}
use unisock.Socket.Object.{
  close, base_close, execute_closed, run_closed, erase_object, server_execute, execute_in,
}

-- The descriptor is closed and its row gone.
abbrev pub shut_down : {K : Type 0} → World K → Ptr → Connection → K → World K
shut_down w p c k =
    put_object p (some (record c { sock = negsuc 0 }))
      (record w { handler = delete_socket w.handler c.sock; kernel = k })

-- The object is destroyed with its entry.
abbrev pub destroyed : {K : Type 0} → World K → Owner → ℤ → Ptr → World K
destroyed t o key p = put_object p none (put_container o (map_erase key (t.containers o)) t)

module _ {K : Type 0} (sys : System K) (user : UserCall → Cmd (World K) (Unit {0})) where
  -- What comes before the callbacks of CLOSED.
  pub close_step :
      (w : World K) (p : Ptr) (c : Connection)
      → w.heap p ≡ some c
      → is_neg c.sock ≡ false
      → close sys user p w ≡ execute_closed sys user p (shut_down w p c (sys.close c.sock w.kernel))
  unfolding close base_close
  close_step w p c live up =
      rw (load-live p w live, up)
        (rw (load-live p (record w { handler = delete_socket w.handler c.sock }) live, up)
          (rw (
            store-live p
              (record w {
                handler = delete_socket w.handler c.sock;
                kernel = sys.close c.sock w.kernel;
              })
              _ live)))

  pub erase_object_found :
      (o : Owner) (key : ℤ) (p : Ptr) (t : World K)
      → map_find key (t.containers o) ≡ some p
      → erase_object sys user o key t ≡ ok tt (destroyed t o key p)
  unfolding erase_object
  erase_object_found o key p t found = rw (found, erase_object)

  disconnect_unhooked :
      (p : Ptr) (w : World K)
      → get_action (tcp disconnect) w.server_actions ≡ some []
      → run_closed sys user (client_disconnected p) w ≡ ok tt w
  unfolding run_closed server_execute
  disconnect_unhooked p w none_hooked =
      rw (none_hooked, server_execute, execute_in) (execute_none _ _ w)

  -- When an object with an open descriptor has the two closing callbacks that `accept` and its container
  -- leave it with, is the entry of the key of the second among the clients, and no hook of DISCONNECT is
  -- set, `close` returns in the state in which the descriptor is closed, its first row of the handler
  -- gone, and the object destroyed with its entry.
  pub close_client_unhooked :
      (w : World K) (p : Ptr) (c : Connection) (key : ℤ)
      → w.heap p ≡ some c
      → is_neg c.sock ≡ false
      → c.closed
        ≡ record { exec = client_disconnected p; flags = 0 }
          ∷ record { exec = erase_from clients key; flags = 6 }
          ∷ []
      → map_find key (w.containers clients) ≡ some p
      → get_action (tcp disconnect) w.server_actions ≡ some []
      → close sys user p w
        ≡ ok tt (destroyed (shut_down w p c (sys.close c.sock w.kernel)) clients key p)
  unfolding execute_closed put_object
  close_client_unhooked w p c key live up shape found unhooked =
      let u = shut_down w p c (sys.close c.sock w.kernel) in
      let here : u.heap p ≡ some (record c { sock = negsuc 0 }) =
        heap-put_object p w (some (record c { sock = negsuc 0 })) in
      let two : length_of p (λ x. x.closed) u ≡ some 2 =
        rw here (ap (λ l. some (length l)) shape) in
      close_step w p c live up
      ∙ rw (load-live p u here) (
          subst
            (λ l.
              execute (run_closed sys user) (length_of p (λ x. x.closed)) l u
              ≡ ok tt (destroyed u clients key p))
            (sym shape)
            (execute_pair (run_closed sys user) (length_of p (λ x. x.closed))
                (client_disconnected p) (erase_from clients key) u u two
                (disconnect_unhooked p u (unfold put_object in unhooked)) two
              ∙ erased_run u found))
    where
      erased_run :
          (u : World K)
          → map_find key (u.containers clients) ≡ some p
          → run_closed sys user (erase_from clients key) u ≡ ok tt (destroyed u clients key p)
      erased_run u e = unfold run_closed in erase_object_found clients key p u e
