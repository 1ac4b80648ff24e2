-- ===== src/Events/Handler.antt =====
-- src/events/handlers/poll.cpp, includes/events/handlers/poll/handler_impl.hpp and
-- includes/events/polling_handler.hpp: the handler of `poll`, with its two parallel vectors and the
-- counter by which a caller sees that its iterators are no longer valid.
pub mod Table
pub mod Ref
pub mod Interest
pub mod Compare
use unisock.Prelude.{
  ℕ, suc, ◌+◌, ◌%◌, ℤ, Bool, true, false, not, Option, none, some, List, [], ◌∷◌, ◌++◌, length,
  modify, erase_at, set_flag, clear_flag, if◌then◌else◌, ◌==◌, ◌==ℤ◌,
}
use mathlib.Core.Option

-- A `socket_base*`: the address of a socket object. The null pointer is 0.
abbrev pub Ptr : Type 0
Ptr = ℕ

-- POLLIN and POLLOUT of poll.h.
abbrev pub pollin : ℕ
pollin = 1

abbrev pub pollout : ℕ
pollout = 4

-- `struct pollfd`
pub record PollFd : Type 0 where
  pub fd : ℤ
  pub events : ℕ
  pub revents : ℕ

-- `class handler`, with the members of its base `handler_impl<POLL>`. The constructor leaves `invalid`
-- as it finds it.
pub record Handler : Type 0 where
  pub sockets : List PollFd
  pub socket_ptrs : List Ptr
  pub invalid : ℕ

unfoldable pub new_handler : ℕ → Handler
new_handler garbage = record { sockets = []; socket_ptrs = []; invalid = garbage }

-- `std::find` with `operator==(const pollfd&, int)`: the position of the first entry of a descriptor.
unfoldable pub find : ℤ → List PollFd → Option ℕ
find socket [] = none
find socket (s ∷ rest) =
    let further = find socket rest in if s.fd ==ℤ socket then some 0 else Option.map suc further

-- `handler_impl<POLL>::add_socket`
unfoldable pub impl_add_socket : Handler → ℤ → Ptr → Handler
impl_add_socket h socket ref = record h {
  sockets = h.sockets ++ record { fd = socket; events = pollin; revents = 0 } ∷ [];
  socket_ptrs = h.socket_ptrs ++ ref ∷ [];
}

-- `handler_impl<POLL>::del_socket`
unfoldable pub impl_del_socket : Handler → ℤ → Handler
impl_del_socket h socket = elim (find socket h.sockets) [
  | none ↦ h
  | some it ↦ record h { socket_ptrs = erase_at h.socket_ptrs it; sockets = erase_at h.sockets it }
]

unfoldable pub empty : Handler → Bool
empty h = elim h.sockets [ [] ↦ true | _ ∷ _ ↦ false ]

unfoldable pub count : Handler → ℕ
count h = length h.sockets

set_events : PollFd → ℕ → Bool → PollFd
set_events s mask active = record s {
  events = if active then set_flag s.events mask else clear_flag s.events mask;
}

want : ℕ → Handler → ℤ → Bool → Handler
unfolding set_events
want mask h socket active = elim (find socket h.sockets) [
  | none ↦ h
  | some it ↦ record h { sockets = modify h.sockets it (λ s. set_events s mask active) }
]

unfoldable pub socket_want_read : Handler → ℤ → Bool → Handler
unfolding want
socket_want_read = want pollin

unfoldable pub socket_want_write : Handler → ℤ → Bool → Handler
unfolding want
socket_want_write = want pollout

-- `ushort` arithmetic of `++invalid`
abbrev pub ushort_mod : ℕ
ushort_mod = 65536

-- `handler::add_socket`
unfoldable pub add_socket : Handler → ℤ → Ptr → Handler
unfolding impl_add_socket
add_socket h socket sptr =
    let h' = impl_add_socket h socket sptr in record h' { invalid = (h'.invalid + 1) % ushort_mod }

-- `handler::delete_socket`
unfoldable pub delete_socket : Handler → ℤ → Handler
unfolding impl_del_socket
delete_socket h socket =
    let h' = impl_del_socket h socket in record h' { invalid = (h'.invalid + 1) % ushort_mod }

unfoldable pub get_ref : Handler → ℕ
get_ref h = h.invalid

unfoldable pub ref_has_changed : Handler → ℕ → Bool
unfolding get_ref
ref_has_changed h old_ref = not (old_ref == get_ref h)
