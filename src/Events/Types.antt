-- ===== src/Events/Types.antt =====
-- includes/events/events_types.hpp: the kinds of handler, the choice of one by the preprocessor, and
-- `handler_impl_base`, the interface of all of them.
use unisock.Prelude.{ℕ, ℤ, Bool, ◌||◌, Option, none, some, if◌then◌else◌}
use unisock.Events.Handler.{
  Ptr, Handler, impl_add_socket, impl_del_socket, empty, count, socket_want_read, socket_want_write,
}

-- `enum handler_types`
pub data HandlerTypes : Type 0 where
  poll epoll kqueue select : HandlerTypes

-- `USE_POLL_HANDLER`: not defined, defined as a flag with no value, or defined as a kind.
pub data Setting : Type 0 where
  undefined flag : Setting
  kind : HandlerTypes → Setting

-- The macros that the choice reads, and whether the compiler takes its warnings as errors, as CMakeLists.txt
-- asks with -Werror.
pub record Macros : Type 0 where
  pub use_poll_handler : Setting
  pub linux : Bool
  pub apple : Bool
  pub net_bsd : Bool
  pub free_bsd : Bool
  pub warnings_are_errors : Bool

-- What the compiler only warns of.
abbrev warned : {A : Type 0} → Macros → A → Option A
warned m a = if m.warnings_are_errors then none else some a

-- The choice where `USE_POLL_HANDLER` is not defined. The last branch has a `#warning`.
abbrev platform_handler : Macros → Option HandlerTypes
platform_handler m =
    if m.linux
    then some epoll
    else if m.apple || (m.net_bsd || m.free_bsd)
    then some poll
    else warned m select

-- `handler_type`, or that it does not compile. A `USE_POLL_HANDLER` that is defined redefines
-- `_POLL_HANDLER`, which has no value before, with no `#undef`; as a flag it leaves the initializer empty.
unfoldable pub handler_type : Macros → Option HandlerTypes
handler_type m = elim m.use_poll_handler [
  | undefined ↦ platform_handler m
  | flag ↦ none
  | kind type ↦ warned m type
]

-- `class handler_impl_base`: its virtual members, for objects of type `H`.
pub record HandlerImplBase (H : Type 0) : Type 0 where
  pub add_socket : H → ℤ → Ptr → H
  pub del_socket : H → ℤ → H
  pub empty : H → Bool
  pub count : H → ℕ
  pub socket_want_read : H → ℤ → Bool → H
  pub socket_want_write : H → ℤ → Bool → H

-- `handler_impl<POLL>`
unfoldable pub poll_handler : HandlerImplBase Handler
poll_handler = record {
  add_socket = impl_add_socket;
  del_socket = impl_del_socket;
  empty = empty;
  count = count;
  socket_want_read = socket_want_read;
  socket_want_write = socket_want_write;
}

-- The class template `handler_impl`: the generic one overrides no member, so that it is abstract and has
-- no object.
unfoldable pub handler_impl : HandlerTypes → Option (HandlerImplBase Handler)
unfolding poll_handler
handler_impl poll = some poll_handler
handler_impl epoll = none
handler_impl kqueue = none
handler_impl select = none
