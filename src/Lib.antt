-- ===== src/Lib.antt =====
-- Connections: models and theorems for the program that plays and solves NYT Connections puzzles.
--
-- The parts. A person plays a puzzle in the browser (Game). The backend lets strategies solve the
-- same puzzles: a worker loads or creates the run of a strategy (RunStore), and either the
-- deterministic solver goes through combinations of words (Solver, with Combinatorics), or a language
-- model proposes groups over many calls (Llm). Both judge a guess by the puzzle's groups (Puzzle). A
-- run that was dispatched on a free tier reserves its tokens before each call (Budget), and
-- a model or an account without quota is held for a time (Hold); which of the two a failed call means
-- is classified by the orchestrator (Orchestrator). Runs come about by dispatching: a job with a trial
-- number is put on the queue of the strategy's provider (Dispatch, with the models of SupportedModel
-- and the pools of ProviderPool). Cycles of ticks dispatch in the background, for the free tiers
-- (FreeTierDispatch) and for the pools (PoolDispatch), both by a loop that spreads new trials over the
-- models (RoundRobin); a daily chain starts these cycles (DailyAutomation). Runs that were parked for a
-- limit or lost their worker are queued again by sweeps (RpdResume, StaleRunSweep).
--
-- Which file models what:
-- - Game and its children: frontend/src/lib/gameReducer.ts; GameState is the reducer's state, and
--   Game.Reducer.game_reducer the reducer, action by action. Game.Assist: aiAssistPrompts.ts and
--   shareResult.ts of frontend/src/lib.
-- - Combinatorics: backend/src/modules/strategy/combinatorics.ts.
-- - Puzzle: GameService.evaluateGuessOnPuzzle of backend/src/modules/game/game.service.ts and the rows
--   of puzzles under backend/src/modules/game/entities.
-- - Strategy: backend/src/strategies.ts and the rows of runs and guesses under
--   backend/src/modules/strategy/entities.
-- - Solver: backend/src/modules/strategy/deterministic-solver.service.ts; solve_loop is the
--   loop of runDeterministicStrategy, propose one round of it.
-- - Llm: backend/src/modules/strategy/llm-strategy-runner.service.ts. Llm has the loop's state and its
--   rebuilding, Llm.Proposals buildProposalEntries and evaluateProposals, Llm.Calls classifyFailedCall,
--   Llm.Messages reconstructMessages, Llm.Prompts the prompts (with formatCompactAnswer of
--   packages/answer-grammar/src/parse-answer.ts), Llm.CaseMatch case-insensitive-match.ts, Llm.Fixups
--   normalize-puzzle-word.ts, Llm.TokenBound
--   token-bound.ts, and Llm.Loop the loop that joins them.
-- - Budget: free-tier-budget.service.ts and the usage that free-tier-usage.service.ts sums up, both of
--   backend/src/modules/strategy; a commit of a transaction is one step on the tables.
-- - RunStore: backend/src/modules/strategy/strategy-run-store.service.ts on tables that are lists.
-- - Hold: backend/src/modules/strategy/rate-limit-hold.service.ts on a table that is a list.
-- - SupportedModel: the lookups of backend/src/modules/supported-model/supported-model.service.ts that
--   dispatching uses.
-- - Dispatch: backend/src/modules/strategy/strategy-dispatch.service.ts. Dispatch.Queue has the queue's
--   interface and the reading by pages, Dispatch.Trials triggerNextLlmTrial, Dispatch.Runs triggerRun,
--   retryRun and resumeBudgetParkedRuns, and Dispatch.Counts the tallies. Dispatch.Spec is the abstract
--   table of reserved trial numbers, and Dispatch.Steps the steps that share the tables and the queue.
-- - RoundRobin and FreeTierDispatch: backend/src/modules/free-tier-dispatch/
--   free-tier-dispatch.service.ts; dispatch_loop is the loop of runTick.
-- - ProviderPool and PoolDispatch: provider-pool.config.ts and free-dispatch.service.ts, whose cycles are
--   PoolDispatch.Cycle, and
--   RpdResume rpd-resume.service.ts, all of backend/src/modules/provider-pool.
-- - StaleRunSweep: backend/src/modules/strategy/stale-run-sweep.service.ts and queueForStrategy of
--   backend/src/modules/queue/strategy.queue.ts.
-- - Orchestrator: the classification of failed calls in orchestrator/src/solver.ts.
-- - DailyAutomation: backend/src/modules/automation/daily-automation.service.ts.
-- - Base has the helpers they share, and Examples the small puzzle that the tests use.
--
-- Numbers are natural numbers; where the source subtracts, the model says what happens at 0. The
-- threshold of a tier is in exact arithmetic, where the source multiplies floating-point numbers, and
-- the number of groups left is the number of words divided by 4, which is whole as every success takes
-- four words. A string's trim, lower case, UTF-8 length and comparison by locale, the writing of
-- numbers, random draws, the clock, the orchestrator's replies and the database's reservations are
-- arguments. Objects that the code mutates are records passed along.
--
-- The queue is a record of operations with what the program relies on of the library behind it: a page
-- has the jobs of each of the states asked for whose places in that state lie between its two
-- ends, and adding a job brings no other job. A job's id is kept as its distinguishing suffix. What a
-- tick asks of other services is a record of inputs or a function on a state of the world. Reading
-- JSON, numbers and patterns in a provider's error is a record of functions.
--
-- A dispatch acts on what it has read: first the rows of runs, then the waiting jobs and the active ones.
-- Its lock keeps other dispatches of the puzzle and strategy out, but workers do not take it, so
-- Dispatch.Trials has the reads as an argument of triggerNextLlmTrial. The theorems on sequences of
-- steps are for dispatches whose reads cover what is held at that time, as those of one moment do
-- (Dispatch.AllTrials); Dispatch.Race is about reads that do not.
--
-- A write of the automation's row may throw like the services its legs call (DailyAutomation).
--
-- Loops over lists are structural. The loops of runs take fuel: `none` means that it was used up, and
-- the theorems on the solver and on the loop of a model's run show how much is enough. So do the
-- reading of the queue by pages, for which more pages than jobs are enough, and the loop that spreads
-- new trials, for which the number of models and of new trials is.
--
-- Not modelled: the reading of results, the judging of categories, ingestion of puzzles,
-- authentication, the orchestrator's calls of providers, the rendering of pages, scripts and
-- migrations. In the runner, the gates on holds before the loop, the holds written after a failed call
-- and the rows of prompts are left out; in the store, the linking of proposal rows to prompt and guess
-- ids; in dispatching, the count of today's calls, the text of job ids and the worker's wiring.
mod Base
pub mod Game
pub mod Combinatorics
pub mod Puzzle
pub mod Strategy
pub mod Solver
pub mod Llm
pub mod Budget
pub mod RunStore
pub mod Hold
mod Examples
pub mod SupportedModel
pub mod Dispatch
pub mod RoundRobin
pub mod FreeTierDispatch
pub mod ProviderPool
pub mod PoolDispatch
pub mod Orchestrator
pub mod DailyAutomation
pub mod RpdResume
pub mod StaleRunSweep
