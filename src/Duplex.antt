-- ===== src/Duplex.antt =====
-- src/l0/client.rs: the duplex sessions of the daemon and what happens to them.
pub mod Session
pub mod Lines
pub mod Wire
pub mod Pipe
pub mod Accept
pub mod Offer
pub mod Tests
pub mod Reach
