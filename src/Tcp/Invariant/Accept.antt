-- ===== src/Tcp/Invariant/Accept.antt =====
-- `accept` keeps the invariant, whatever descriptor the kernel gives.
use Prim.Native.String.{String}
use mathlib.Core.List.{Memᴰ}
use unisock.Prelude.{
  ◌≡◌, refl, ap, ℤ, pos, is_neg, is_pos, Bool, true, false, none, some, All, All-map, inl, inr,
  Bool-cases, Option-cases, ok, Cmd, Returns,
}
use unisock.Events.Action.{add_callback}
use unisock.Events.Tags.{basic, error}
use unisock.Events.Handler.{Ptr, add_socket}
use unisock.Events.Handler.Table.{table}
use unisock.Socket.System.{Bytes, System}
use unisock.Socket.Address.{empty_address}
use unisock.Socket.World.{
  Owner, clients, Connection, UserCall, error_event, World, put_object, put_container, map_find,
}
use unisock.Socket.World.Memory.{load-live, heap-put_object}
use unisock.Socket.Object.{new_connection, server_execute}
use unisock.Socket.Container.{insert_new, insert_socket, make_socket_of}
use unisock.Tcp.Server.{welcome, accept_socket, accept_from}
use unisock.Tcp.Invariant.{Inv, Keeps, KeepsHooks}
use unisock.Tcp.Invariant.Kernel.{HasDescriptors}
use unisock.Tcp.Invariant.Rows.{IsNot}
use unisock.Tcp.Invariant.Keeps.{is_pos-not_neg, Reached, Reached-kernel, Reached-then}
use unisock.Tcp.Invariant.Hooks.{server_execute-Returns}
use unisock.Tcp.Invariant.Welcome.{owned_connection, welcome-Returns}
use unisock.Tcp.Invariant.Inserted.{is_pos-new, inserted, Inv-inserted, Frame-inserted, new_entry}

module _ {K : Type 0} (is_open : K → ℤ → Bool) (sys : System K) (desc : HasDescriptors is_open sys)
    (user : UserCall → Cmd (World K) (Unit {0})) (hooks : KeepsHooks is_open user) where
  server_error-Keeps :
      (function : String) (err : ℤ)
      → Keeps is_open (server_execute sys user (basic error) (λ n. error_event n function err))
  server_error-Keeps function err w v =
      server_execute-Returns is_open sys user hooks (basic error) (λ n. error_event n function err)
        w (Memᴰ.head refl) v (λ s r n. tt)

  make_socket_of_free :
      (o : Owner) (fd : ℤ) (w : World K)
      → is_pos fd ≡ true
      → map_find fd (w.containers o) ≡ none
      → make_socket_of sys user o fd w ≡ ok (some w.next_ptr) (inserted is_open w o fd)
  unfolding make_socket_of insert_new add_callback new_connection put_object add_socket
      put_container empty_address
  make_socket_of_free o fd w up free = rw up (rw (free, insert_socket))

  make_socket_of_taken :
      (o : Owner) (fd : ℤ) (w : World K) (q : Ptr)
      → is_pos fd ≡ true
      → map_find fd (w.containers o) ≡ some q
      → make_socket_of sys user o fd w ≡ ok none w
  unfolding make_socket_of new_connection
  make_socket_of_taken o fd w q up taken = rw up (rw (taken, insert_socket))

  accepted-Returns :
      (fd : ℤ) (a : Bytes) (w : World K)
      → is_pos fd ≡ true
      → is_open w.kernel fd ≡ true
      → All (IsNot fd) (table w.handler)
      → map_find fd (w.containers clients) ≡ none
      → Inv is_open w
      → Returns
          (λ _. Reached is_open w)
          (welcome sys user w.next_ptr a (inserted is_open w clients fd))
  accepted-Returns fd a w up opened fresh_fd free v =
      let v' = Inv-inserted is_open w clients fd free up opened fresh_fd v in
      Reached-then is_open w (inserted is_open w clients fd) (welcome sys user w.next_ptr a)
        (v', Frame-inserted is_open w clients fd (is_pos-not_neg fd up) v)
        (welcome-Returns is_open sys user hooks (inserted is_open w clients fd) w.next_ptr fd a
          (heap-put_object w.next_ptr _ (some (owned_connection clients fd))) up
          (unfold put_object in new_entry is_open w clients fd w.next_ptr free) v')

  accept_socket-Returns :
      (fd : ℤ) (a : Bytes) (w : World K)
      → (is_neg fd ≡ false
          → (is_pos fd ≡ true) × (is_open w.kernel fd ≡ true) × All (IsNot fd) (table w.handler))
      → Inv is_open w
      → Returns (λ _. Reached is_open w) (accept_socket sys user fd a w)
  unfolding accept_socket
  accept_socket-Returns fd a w new v = elim (Bool-cases (is_neg fd)) [
    | inl failed ↦ rw failed (server_error-Keeps "accept" _ w v)
    | inr got ↦ rw got (
        let (up, opened, fresh_fd) = new got in
        elim (Option-cases (map_find fd (w.containers clients))) [
          | inr (q, taken) ↦
              rw (make_socket_of_taken clients fd w q up taken)
                (server_error-Keeps "insert" (pos 0) w v)
          | inl free ↦
              rw (make_socket_of_free clients fd w up free)
                (accepted-Returns fd a w up opened fresh_fd free v)
        ])
  ]

  -- `accept` on a live listener, whether the kernel gives a descriptor and whether it is a key already.
  pub accept_from-Returns :
      (p : Ptr) (w : World K) (c : Connection)
      → w.heap p ≡ some c
      → is_neg c.sock ≡ false
      → Inv is_open w
      → Returns (λ _. Reached is_open w) (accept_from sys user p w)
  unfolding accept_from
  accept_from-Returns p w c live up v =
      let r = sys.accept c.sock w.kernel in
      let reached = Reached-kernel is_open w r.2 (λ fd. desc.accept_keeps c.sock fd w.kernel) v in
      rw (load-live p w live, up)
        (Reached-then is_open w (record w { kernel = r.2 }) (accept_socket sys user r.0 r.1) reached
          (accept_socket-Returns r.0 r.1 (record w { kernel = r.2 })
            (λ got. (
              is_pos-new r.0 got (λ zero.
                  cc (v.stdin, desc.accept_new c.sock w.kernel got, ap (is_open w.kernel) zero)),
              desc.accept_opens c.sock w.kernel got,
              All-map
                  (λ row x same.
                    cc (x.4, desc.accept_new c.sock w.kernel got, ap (is_open w.kernel) same))
                  (table w.handler) v.rows,
            ))
            reached.0))
