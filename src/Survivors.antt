-- ===== src/Survivors.antt =====
-- The survivors of a run (packages/stryker-js/src): which of them are reported, and which are new
-- against the committed baseline.
pub mod Cap
pub mod Gate
