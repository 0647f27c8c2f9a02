-- ===== src/Lib.antt =====
-- A mutation testing framework for TypeScript: it changes a program in small ways, the mutants,
-- runs the tests against each, and reports which mutants no test tells from the original.
--
-- The program's core logic is in workflows: pure functions `decide` from a command to a decision,
-- which the cells around them apply between their reads and writes. The development translates
-- workflows; each data type is the schema of a command, an event or a decision, and each function
-- has its name in the source, in snake case. `decide` itself has the name of its workflow.
--
-- The parts, in the order in which a run reaches them:
--   * Lockfile: packages/stryker-js/src/lockfile-closure.workflow.ts and pnpm-lock.schema.ts. The
--     part of a lockfile that an importer depends on. `Refs` resolves references, `Walk` follows
--     them, and `Decide` has the fallbacks to the whole lockfile.
--   * Sharding: packages/stryker-js/src. `Plan` is plan-shards.workflow.ts, the dealing of mutants
--     to shards, `Merge` is shard/merge-shard-reports.workflow.ts, and `Whole` joins the two.
--   * MutantPlan: packages/stryker-js-instrumenter/src/plan-mutants.workflow.ts. Of the mutants at a
--     node, which are placed. `Reasons` has why the others are ignored, and `Plan` applies both
--     MutantSet, packages/stryker-js-instrumenter/src/mutant-set-policy.workflow.ts, which finds
--     mutants that print what is there already, and the next part.
--   * Subsumption.Subsume: packages/stryker-js-instrumenter/src/subsume-mutants.workflow.ts. When
--     the mutants of a comparison are made, which of them another mutant stands for.
--   * Incremental: packages/stryker-js/src/incremental-diff.workflow.ts and IncrementalDiff.schema.ts.
--     Which mutants keep the verdict of an earlier run, and why the others run. `Decide` has the
--     workflow, `Keys`, `Reuse`, `Explains` and `Refusals` its theorems.
--   * TypeChecker: packages/stryker-js-typescript-checker/src. `Trace` finds the files that a
--     mutated file affects, `FileIds` sorts mutants by file, `Group` packs them into groups, and
--     `Rounds` plans which mutants are checked together.
--   * Planning: packages/stryker-js/src/plan-mutant-tests.workflow.ts and its schemas. `Command` has
--     the data, `Runs` the run of one mutant, `Decide` the order of the tests and the decision.
--     `Missing` and `Outcomes` have the lemmas of `Plans`.
--   * Execution: packages/stryker-js/src. `Checked` is Checker/partition-checked-plans.workflow.ts,
--     the mutants by the checker's answers, and `RunOrder` is sort-run-plans.workflow.ts.
--   * Subsumption.Readmit: packages/stryker-js/src/readmit-subsumed.workflow.ts. After the run,
--     which subsumed mutants have to run after all, because no dominator of theirs ran.
--   * Verdict: packages/stryker-js/src. `Score` is judge-mutation-score.workflow.ts, `Budget` is
--     budget-gate.workflow.ts, `Exit` is classify-exit.workflow.ts, which takes the exit classes that
--     the first two report, and `Compare` is compare-verdicts.workflow.ts, of two reports. It reads
--     the statuses from plain objects: the keys under which an object inherits a member are a
--     parameter, and so is the constructor of a mismatch, which throws for a member.
--   * Survivors: packages/stryker-js/src. `Cap` is cap-survivors.workflow.ts, the survivors that
--     are reported, and `Gate` is gate-new-survivors.workflow.ts, which compares them with a
--     baseline.
--   * Mutant: the data they share, of packages/stryker-js-plugin-interface/src.
--   * Prelude: names of the library, strings as lists of UTF-16 code units, records keyed by
--     strings as association lists, and the functions of the Effect library's Array, Option,
--     Record and Result modules that the source calls.
--   * Numbers: an interface for floating point numbers. Counts, lines and bounds, which the
--     schemas restrict to small integers, are natural numbers.
--   * Examples: runs at concrete inputs.
--
-- Three loops have no structural bound. `closeOverDependents` takes fuel, one round more than there
-- are files that import another: each round but the last adds such a file. `reachedFrom` takes fuel,
-- one round more than the lockfile has importers and snapshots: each round but the last comes from
-- an entry that no earlier round came from. `stripOuterParentheses` takes the length of the text,
-- which each round shortens.
--
-- A `HashSet` of the source has no specified order of iteration; what is stated of its elements
-- is membership alone. The texts that errors have as `message`, the encoding of schemas, and
-- constants of tracing are left out. Not modelled: the cells and services that read files, start
-- processes and talk to the TypeScript compiler, the parser and printer of the instrumenter, the
-- reporters, the remaining workflows, and the other projects under `repos`.
pub mod Examples
pub mod Execution
pub mod Incremental
pub mod Lockfile
pub mod Mutant
pub mod MutantPlan
pub mod MutantSet
pub mod Numbers
pub mod Planning
pub mod Prelude
pub mod Sharding
pub mod Subsumption
pub mod Survivors
pub mod TypeChecker
pub mod Verdict
