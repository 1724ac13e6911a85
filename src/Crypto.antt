-- ===== src/Crypto.antt =====
-- The cryptographic layer.
pub mod Sha3
pub mod Field
pub mod Point
pub mod Incremental
pub mod Keys
