-- ===== src/Buffutil.antt =====
-- utils/buffutil: the binary format that the transports and the peers write and read.
pub mod Words
pub mod Sign
pub mod Value
pub mod Buffer
pub mod Parser
pub mod Primitives
pub mod Object
pub mod Tests
