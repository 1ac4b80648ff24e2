-- ===== src/Events/Poll.antt =====
-- includes/events/handlers/poll/poll_impl.hpp and includes/events/events.hpp: one turn of the event
-- loop. The state `S` is the whole program's; `::poll` and the two virtual members of `socket_base` that
-- the loop calls back are a parameter.
pub mod Safety
pub mod Plain
pub mod Serve
use mathlib.Core.Path.{refl}
use unisock.Prelude.{
  ℕ, zero, suc, ℤ, pos, pred_ℤ, Bool, true, false, ◌||◌, Option, none, some, List, length,
  get_elem?, has_flag, if◌then◌else◌, ◌==◌, ◌==ℤ◌, Run, ok, fault, Cmd, dangling, out_of_bounds,
  out_of_fuel, and_then,
}
use unisock.Events.Handler.{Ptr, PollFd, Handler, pollin, pollout, empty, get_ref, ref_has_changed}

-- What the loop is given.
pub record Program (S : Type 0) : Type 0 where
  pub handler : S → Handler
  -- `::poll(sockets.data(), sockets.size(), timeout)`: its result, and the state with `revents` written.
  pub sys_poll : ℤ → S → ℤ × S
  pub on_readable : Ptr → Cmd S (Unit {0})
  pub on_writeable : Ptr → Cmd S (Unit {0})

module _ {S : Type 0} (P : Program S) where
  open P use {handler, sys_poll, on_readable, on_writeable}

  -- `handler->socket_ptrs[i]->f()` if the flag is there.
  dispatch : Bool → (Ptr → Cmd S (Unit {0})) → ℕ → Cmd S (Unit {0})
  dispatch false f i s = ok tt s
  dispatch true f i s = elim (get_elem? (handler s).socket_ptrs i) [
    | none ↦ fault out_of_bounds
    | some sockobj ↦ f sockobj s
  ]

  -- The end of a round: `n_changes--`, and `break` or the next round.
  finish_round : ℕ → ℤ → (ℤ → Cmd S (Unit {0})) → Cmd S (Unit {0})
  finish_round handler_ref n_changes next s =
      let rest = next (pred_ℤ n_changes) s in
      if (pred_ℤ n_changes ==ℤ pos 0) || ref_has_changed (handler s) handler_ref
      then ok tt s
      else rest

  -- After `on_readable`: `break` if the handler has changed, else the write side of the entry, which is
  -- read again.
  write_side : ℕ → ℕ → ℤ → (ℤ → Cmd S (Unit {0})) → Cmd S (Unit {0})
  unfolding dispatch finish_round
  write_side handler_ref i n_changes next s =
      if ref_has_changed (handler s) handler_ref
      then ok tt s
      else elim (get_elem? (handler s).sockets i) [
        | none ↦ fault dangling
        | some socket ↦
            and_then (dispatch (has_flag socket.revents pollout) on_writeable i s)
              (λ _. finish_round handler_ref n_changes next)
      ]

  -- One entry with `revents` set.
  serve_entry : PollFd → ℕ → ℤ → (ℤ → Cmd S (Unit {0})) → Cmd S (Unit {0})
  unfolding write_side
  serve_entry socket i n_changes next s =
      and_then (dispatch (has_flag socket.revents pollin) on_readable i s)
        (λ _. write_side (get_ref (handler s)) i n_changes next)

  -- The `for` loop from position `i`, for at most as many rounds as the first argument says.
  unfoldable pub poll_from : ℕ → ℕ → ℤ → Cmd S (Unit {0})
  unfolding serve_entry
  poll_from zero i n_changes s = fault out_of_fuel
  poll_from (suc fuel) i n_changes s =
      let next = poll_from fuel (suc i) in
      elim (get_elem? (handler s).sockets i) [
        | none ↦ ok tt s
        | some socket ↦
            if socket.revents == 0 then next n_changes s else serve_entry socket i n_changes next s
      ]

  unfoldable pub poll_impl : ℤ → Cmd S (Unit {0})
  unfolding poll_from
  poll_impl timeout s =
      let (n_changes, s') = sys_poll timeout s in
      poll_from (suc (length (handler s').sockets)) 0 n_changes s'

  -- `events::poll`
  unfoldable pub poll : ℤ → Cmd S Bool
  unfolding poll_impl
  poll timeout s =
      let turn = poll_impl timeout s in
      if empty (handler s) then ok false s else and_then turn (λ _. ok true)
