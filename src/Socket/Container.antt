-- ===== src/Socket/Container.antt =====
-- includes/socket/socket_container.hpp: the map from descriptors to the objects that a container owns.
pub mod Making
pub mod Closing
use unisock.Prelude.{
  ℕ, zero, suc, ◌+◌, ℤ, is_neg, is_pos, Bool, true, false, Option, none, some, List, [], ◌∷◌,
  if◌then◌else◌, Run, ok, fault, Cmd, assertion, out_of_fuel, and_then, ◌>>=◌, ◌>>◌, pure,
}
use unisock.Events.Action.{add_callback, queue_end, stop_after}
use unisock.Events.Handler.{Ptr, add_socket}
use unisock.Socket.System.{System}
use unisock.Socket.World.{
  Owner, erase_from, Connection, UserCall, World, put_object, put_container, map_find, map_insert,
}
use unisock.Socket.Object.{close, base_open, new_connection}

-- QUEUE_END | STOP_AFTER
abbrev pub erase_flags : ℕ
erase_flags = 6

module _ {K : Type 0} (sys : System K) (user : UserCall → Cmd (World K) (Unit {0})) where
  -- What `_insert_socket` does where the key is free: the copy in the map gets the erasing callback, and
  -- the handler its address.
  unfoldable pub insert_new : Owner → Connection → World K → Ptr × World K
  insert_new o sockobj w =
      let p = w.next_ptr in
      let key = sockobj.sock in
      let copy = record sockobj {
        closed = add_callback (erase_from o key) erase_flags sockobj.closed;
      } in
      let w' = put_object p (some copy) (put_container o (map_insert key p (w.containers o)) w) in
      (p, record w' { next_ptr = suc p; handler = add_socket w'.handler key p })

  -- `_insert_socket`; `none` is the null pointer.
  unfoldable pub insert_socket : Owner → Connection → Cmd (World K) (Option Ptr)
  unfolding insert_new
  insert_socket o sockobj w = elim (map_find sockobj.sock (w.containers o)) [
    | some _ ↦ ok none w
    | none ↦ let (p, w') = insert_new o sockobj w in ok (some p) w'
  ]

  -- `make_socket(int socket)`
  unfoldable pub make_socket_of : Owner → ℤ → Cmd (World K) (Option Ptr)
  unfolding insert_socket new_connection
  make_socket_of o socket w =
      if is_pos socket then insert_socket o (new_connection socket) w else fault assertion

  -- `make_socket(int domain, int type, int protocol)`
  unfoldable pub make_socket : Owner → ℕ → ℕ → ℕ → Cmd (World K) (Option Ptr)
  unfolding insert_socket new_connection base_open
  make_socket o domain type protocol = do
    opened ← base_open sys user domain type protocol
    elim opened [ none ↦ pure none | some fd ↦ insert_socket o (new_connection fd) ]

  -- `while (!sockets.empty()) sockets.begin()->second.close();`, for at most as many rounds as are given
  unfoldable pub close_all : ℕ → Owner → Cmd (World K) (Unit {0})
  unfolding close
  close_all zero o w = fault out_of_fuel
  close_all (suc fuel) o w = elim (w.containers o) [
    | [] ↦ ok tt w
    | (key, p) ∷ _ ↦ and_then (close sys user p w) (λ _. close_all fuel o)
  ]
