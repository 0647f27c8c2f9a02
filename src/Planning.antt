-- ===== src/Planning.antt =====
-- plan-mutant-tests.workflow.ts, MutantTestPlan.schema.ts and MutantTestPlanCommand.schema.ts
-- (packages/stryker-js/src): which tests run against a mutant, in which order and for how long.
-- Times are numbers of the interface; hit counts and coverage counts, integers of the schema that
-- are not negative, are natural numbers.
pub mod Command
pub mod Runs
pub mod Decide
pub mod Missing
pub mod Filter
pub mod Outcomes
pub mod Plans
pub mod Quickest
