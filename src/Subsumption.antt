-- ===== src/Subsumption.antt =====
-- Redundant relational mutants: which mutants of a comparison are held back
-- (packages/stryker-js-instrumenter/src/subsume-mutants.workflow.ts), and which of those run
-- after all (packages/stryker-js/src/readmit-subsumed.workflow.ts).
pub mod Subsume
pub mod Readmit
