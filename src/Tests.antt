-- ===== src/Tests.antt =====
-- Concrete inputs on which the theorems apply, and runs of the definitions on them.
pub mod Fixtures
pub mod Events
pub mod Socket
pub mod Tcp
pub mod Datagram
pub mod Served
pub mod Programs
pub mod Idle
pub mod Examples
pub mod Turn
pub mod Requests
pub mod Types
pub mod Consoles
pub mod Servers
