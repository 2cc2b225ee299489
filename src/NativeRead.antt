-- ===== src/NativeRead.antt =====
-- pytusk/core/native_read: fetching slivers from the committee's nodes.
pub mod Fetch
pub mod Metadata
pub mod Reconstruct
pub mod Runs
