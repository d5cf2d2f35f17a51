-- ===== src/Nets.antt =====
-- nets: the transports, their connections and what they hand to the node.
pub mod TcpBuffer
pub mod Connect
pub mod Address
pub mod Session
pub mod Handshake
pub mod Tcp
pub mod Tests
pub mod Origin
pub mod SessionTests
