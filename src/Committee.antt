-- ===== src/Committee.antt =====
-- pytusk/core/chain/committee.py: decoding the staking object, and the committee built from it.
pub mod Json
pub mod Members
pub mod Build
mod Coverage
mod Table
pub mod Cover
mod Runs
