-- ===== src/Dispatch.antt =====
-- backend/src/modules/strategy/strategy-dispatch.service.ts: queueing trials of strategies on
-- puzzles. The definitions are in Queue, Trials and Runs, the proofs in the other children.
pub mod Queue
pub mod Trials
pub mod Runs
pub mod Counts
pub mod Tallies
pub mod Numbers
pub mod TrialMap
pub mod Spec
pub mod Steps
pub mod Moves
pub mod AllTrials
pub mod Refinement
pub mod Safety
pub mod Race
pub mod ListQueue
mod Tests
pub mod Paging
