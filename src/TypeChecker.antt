-- ===== src/TypeChecker.antt =====
-- The TypeScript checker plugin (packages/stryker-js-typescript-checker/src): how the mutants to
-- check are split by file, packed into groups and planned into rounds, and which files a mutated
-- file affects.
pub mod FileIds
pub mod Group
pub mod Rounds
pub mod Trace
