-- ===== src/P2p.antt =====
-- src/p2p.rs: the state of the network with its two tasks, and the messages.
pub mod Peers
pub mod Forgotten
pub mod Message
pub mod Gossip
pub mod Launch
pub mod Received
