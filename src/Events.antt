-- ===== src/Events.antt =====
-- includes/events: actions, the handler and the poll loop.
pub mod Action
pub mod Tags
pub mod ActionHandler
pub mod Handler
pub mod Poll
pub mod Types
