-- ===== src/Datagram.antt =====
-- The sockets of datagrams, raw and udp.
pub mod Socket
pub mod Raw
pub mod Udp
pub mod Loop
pub mod Kept
