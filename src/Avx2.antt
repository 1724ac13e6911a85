-- ===== src/Avx2.antt =====
-- The AVX2 variant: four candidates at a time.
pub mod Lane
pub mod Store
pub mod Point
mod Tests
