-- ===== src/Pipelines.antt =====
-- pytusk/core/pipelines: the order of the stages of a write and of a read.
pub mod Native
pub mod Read
