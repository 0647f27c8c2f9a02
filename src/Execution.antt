-- ===== src/Execution.antt =====
-- packages/stryker-js/src: what happens around the runs of the mutants.
pub mod Checked
pub mod RunOrder
