-- ===== src/Network.antt =====
-- The network layer of the framework, src/network: its parts.
pub mod Channel
pub mod EventLoop
pub mod Buffer
pub mod Connection
pub mod Connector
pub mod TcpClient
pub mod TcpServer
pub mod LoopPool
