-- ===== src/Dispatch/Race.antt =====
-- A dispatch whose reads miss a run (`triggerNextLlmTrial` of
-- backend/src/modules/strategy/strategy-dispatch.service.ts): workers do not take its lock.
use connections.Base.{ℕ, ◌+◌}
use connections.Puzzle.{Puzzle}
use connections.Dispatch.Trials.{TrialReads, greatest_trial, trial_models}

abbrev pub next_trial : TrialReads → ℕ
next_trial reads = greatest_trial (trial_models reads) + 1
