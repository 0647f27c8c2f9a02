-- ===== src/Sharding.antt =====
-- packages/stryker-js/src: a run in several shards.
pub mod Plan
pub mod Merge
pub mod Whole
