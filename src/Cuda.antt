-- ===== src/Cuda.antt =====
-- src/engine/cuda: the search engine that runs on a graphics card.
pub mod Device
pub mod Field32
pub mod Field51
pub mod Bridge
pub mod Kernel
pub mod Engine
pub mod Xval
mod Tests
