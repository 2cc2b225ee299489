-- ===== src/NativeUpload.antt =====
-- pytusk/core/native_upload: storing a blob's metadata and slivers on the committee's nodes, collecting
-- their confirmations, and certifying the blob.
pub mod Retry
pub mod Throttle
pub mod Node
pub mod Slivers
pub mod Confirm
pub mod Certify
mod Runs
