-- ===== src/Relay.antt =====
-- pytusk/core/relay_upload: uploads through a relay, and what a relay charges for them.
pub mod Upload
pub mod Tip
pub mod Certificate
mod Runs
