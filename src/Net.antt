-- ===== src/Net.antt =====
-- The network layer: src/net.
pub mod Exception
pub mod AsyncFd
pub mod Ioqueue
pub mod SocketAddress
pub mod TcpClient
pub mod LineBuffer
pub mod Address
pub mod AsyncServer
pub mod TcpServer
