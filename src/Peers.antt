-- ===== src/Peers.antt =====
-- peers: the messages that peers exchange.
pub mod Exchange
pub mod Serve
pub mod Request
pub mod Remote
pub mod Registry
pub mod Calls
pub mod Tests
pub mod ServeTests
