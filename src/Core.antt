-- ===== src/Core.antt =====
-- The pure core: base32, prefix patterns and onion addresses.
pub mod Base32
pub mod Matcher
pub mod OnionAddress
mod Tests
