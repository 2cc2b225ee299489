-- ===== src/Redstuff.antt =====
-- pytusk/core/encoding/redstuff.py: the size arithmetic, the rotation between shards and sliver pairs,
-- and the wrappers of the native RedStuff functions.
pub mod Sizes
pub mod Rotation
pub mod Codec
mod Runs
