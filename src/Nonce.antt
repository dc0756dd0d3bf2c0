-- ===== src/Nonce.antt =====
-- analysis/nonce_management: the nonce-reuse detector and the persistent nonce counter.
pub mod Counter
pub mod Store
pub mod Detector
pub mod Campaign
mod Tests
