-- ===== src/Examples.antt =====
-- Runs of the definitions at concrete inputs, and the theorems at those inputs.
mod Checking
mod Deciding
mod Planning
mod Remembering
mod Running
mod Surviving
mod Dealing
mod Locking
mod Printing
mod Placing
mod Comparing
