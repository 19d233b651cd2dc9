-- ===== src/Processing/Claims.antt =====
-- daemon/processing/claim.go: what a claim's row takes from the message that the claim carries.
pub mod Message
pub mod Metadata
pub mod Bounds
pub mod Publisher
pub mod Scripts
pub mod Outputs
