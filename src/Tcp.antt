-- ===== src/Tcp.antt =====
-- includes/tcp: connections, the server, the client and the event loop over them.
pub mod Connection
pub mod Server
pub mod Client
pub mod Loop
pub mod Invariant
pub mod Steady
pub mod Requests
