-- ===== src/Examples.antt =====
-- The programs of examples that are modelled whole.
pub mod Running
pub mod SpeedServer
pub mod RttServer
pub mod TcpClient
pub mod TcpServer
pub mod Console
pub mod UdpServer
pub mod UdpClient
pub mod RawListener
