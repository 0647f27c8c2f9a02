-- ===== src/Verdict.antt =====
-- How a run's verdict becomes an exit (packages/stryker-js/src): the score against the breaking
-- threshold, the budget gate, the comparison of two reports, and the one exit class of several
-- pending ones.
pub mod Compare
pub mod Exit
pub mod Score
pub mod Budget
