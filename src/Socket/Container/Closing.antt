-- ===== src/Socket/Container/Closing.antt =====
-- `socket_container::close`: where its loop does not end.
use unisock.Prelude.{
  ℕ, zero, suc, ◌≡◌, refl, ℤ, is_neg, true, some, List, ◌∷◌, ok, fault, out_of_fuel, Cmd,
}
use unisock.Events.Handler.{Ptr}
use unisock.Socket.System.{System}
use unisock.Socket.World.{Owner, Connection, UserCall, World}
use unisock.Socket.World.Memory.{load-live}
use unisock.Socket.Object.{close}
use unisock.Socket.Container.{close_all}

module _ {K : Type 0} (sys : System K) (user : UserCall → Cmd (World K) (Unit {0})) where
  -- Closing a socket that has no descriptor does nothing.
  pub close_again :
      (p : Ptr) (w : World K) (c : Connection)
      → w.heap p ≡ some c
      → is_neg c.sock ≡ true
      → close sys user p w ≡ ok tt w
  unfolding close
  close_again p w c live shut = rw (load-live p w live) (rw shut)

  -- When the first entry of the map is of a socket that is closed but not yet erased, as it is while
  -- the hooks of its CLOSED run, or for good after a callback of STOP_AFTER before the erasure, the loop
  -- of the container's `close` does not end, however many rounds it makes.
  pub close_all_hangs :
      (fuel : ℕ) (o : Owner) (w : World K) (key : ℤ) (p : Ptr) (m : List (ℤ × Ptr)) (c : Connection)
      → w.containers o ≡ (key, p) ∷ m
      → w.heap p ≡ some c
      → is_neg c.sock ≡ true
      → close_all sys user fuel o w ≡ fault out_of_fuel
  unfolding close_all
  close_all_hangs zero o w key p m c first live shut = refl
  close_all_hangs (suc fuel) o w key p m c first live shut =
      rw (first, close_all)
        (rw (close_again p w c live shut) (close_all_hangs fuel o w key p m c first live shut))
