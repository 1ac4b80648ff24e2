-- ===== src/Socket/Container/Making.antt =====
-- `make_socket`: what a new socket is registered with.
use unisock.Prelude.{ℕ, ◌≡◌, refl, pos, none, some, [], ◌∷◌, ◌++◌, ok, Cmd, ==_self}
use unisock.Events.Action.{add_callback}
use unisock.Events.Handler.Table.{IsAligned, table, table-add_socket}
use unisock.Socket.System.{System}
use unisock.Socket.World.{Owner, erase_from, UserCall, World, put_object, put_container, map_find}
use unisock.Socket.World.Memory.{heap-put_object, map_find-insert, same_owner_iff}
use unisock.Socket.Object.{new_connection}
use unisock.Socket.Container.{make_socket, insert_socket, insert_new, erase_flags}

module _ {K : Type 0} (sys : System K) (user : UserCall → Cmd (World K) (Unit {0})) (o : Owner)
    (domain type protocol : ℕ) (w : World K) (fd : ℕ) (k : K)
    (opened : sys.socket domain type protocol w.kernel ≡ (pos fd, k)) where
  -- When the key is free, `make_socket` returns a new object: it is in the map under its descriptor, the
  -- handler has it at the end of its table, and its one callback of CLOSED is the erasure of its entry.
  pub make_socket_free :
      map_find (pos fd) (w.containers o) ≡ none
      → IsAligned w.handler
      → (t : World K) × (make_socket sys user o domain type protocol w ≡ ok (some w.next_ptr) t)
        × (t.heap w.next_ptr
            ≡ some (record (new_connection (pos fd)) {
              closed = record { exec = erase_from o (pos fd); flags = erase_flags } ∷ [];
            }))
        × (map_find (pos fd) (t.containers o) ≡ some w.next_ptr)
        × (table t.handler ≡ table w.handler ++ (pos fd, w.next_ptr) ∷ [])
  unfolding make_socket add_callback
  make_socket_free free aligned =
      let v : World K = record w { kernel = k } in
      (
        (insert_new sys user o (new_connection (pos fd)) v).1,
        rw opened (rw (free, insert_socket)),
        heap-put_object w.next_ptr _ _,
        unfold put_container put_object in
            rw ((same_owner_iff o o).1 refl) (
              rw (map_find-insert (pos fd) (pos fd) w.next_ptr (w.containers o) free)
                (rw (==_self fd))),
        unfold put_container put_object in table-add_socket w.handler (pos fd) w.next_ptr aligned,
      )
