-- ===== src/Certification.antt =====
-- pytusk/core/certification.py: signer bitmaps, quorum arithmetic and certificates.
pub mod Bitmap
pub mod Quorum
pub mod Certificate
mod Runs
