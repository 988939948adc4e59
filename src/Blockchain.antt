-- ===== src/Blockchain.antt =====
-- src/blockchain: key anchors, the simulated contract over them, and the public-key registry.
pub mod Anchors
pub mod Contract
pub mod Dpki
mod Tests
