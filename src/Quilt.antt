-- ===== src/Quilt.antt =====
-- pytusk/core/encoding/quilt.py: packing blobs into one quilt.
pub mod Packing
pub mod Matrix
pub mod Patches
pub mod Assembly
pub mod Reading
mod Runs
