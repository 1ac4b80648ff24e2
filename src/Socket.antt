-- ===== src/Socket.antt =====
-- includes/socket and src/socket: addresses, the system interface, socket objects and containers.
pub mod System
pub mod Address
pub mod World
pub mod Object
pub mod Container
