-- ===== src/Dispatch/Queue.antt =====
-- The queue of a strategy's runs, as backend/src/modules/strategy/strategy-dispatch.service.ts uses
-- it. The queue itself is BullMQ's and a parameter: what it holds is known through its pages. A
-- job's id is made of its fields and of a suffix, and is kept as that suffix.
use connections.Base.{
  ℕ, zero, suc, ◌∷◌, ◌+◌, ◌-◌, String, ◌≡◌, ◌⊎◌, Bool, Option, List, [], ◌++◌, ltb, if◌then◌else◌,
  length, take, drop, filter, In, map, concat,
}
use connections.Strategy.{SupportedStrategy, FreeTierId}

pub data JobState : Type 0 where
  waiting delayed prioritized paused active : JobState

pub data JobIdSuffix : Type 0 where
  plain : JobIdSuffix
  manual_retry budget_resume : ℕ → JobIdSuffix
  resume sweep : String → JobIdSuffix

pub record RunStrategyJob : Type 0 where
  pub puzzle_id : ℕ
  pub strategy_name : SupportedStrategy
  pub date : String
  pub trial_number : ℕ
  pub model : Option String
  pub manual_retry : Bool
  pub budget_tier : Option FreeTierId
  pub id_suffix : JobIdSuffix

-- What the program uses of a queue, with what it relies on of BullMQ: the first and the last index of a
-- page, both included, count in each of the states asked for, and the page has the states' parts one after
-- the other; adding a job brings no other job.
pub record JobQueue (Q : Type 0) : Type 0 where
  pub add : RunStrategyJob → Q → Q
  pub get_jobs : List JobState → ℕ → ℕ → Q → List RunStrategyJob
  pub jobs : List JobState → Q → List RunStrategyJob
  pub jobs_states :
      (states : List JobState) (q : Q) → jobs states q ≡ concat (map (λ s. jobs (s ∷ []) q) states)
  pub get_jobs_page :
      (states : List JobState) (start n : ℕ) (q : Q)
      → get_jobs states start (start + n) q
        ≡ concat (map (λ s. take (suc n) (drop start (jobs (s ∷ []) q))) states)
  pub jobs_add :
      (states : List JobState) (job e : RunStrategyJob) (q : Q)
      → In e (jobs states (add job q))
      → In e (jobs states q) ⊎ (e ≡ job)

abbrev pub queue_page_size : ℕ
queue_page_size = 1000

-- The loop over pages of `page_size` jobs, until a page is not full.
module _ {Q : Type 0} (queue : JobQueue Q) (page_size : ℕ) (test : RunStrategyJob → Bool) where
  unfoldable pub collect : ℕ → List JobState → ℕ → Q → List RunStrategyJob
  collect zero states start q = []
  collect (suc fuel) states start q =
      let page = queue.get_jobs states start (start + page_size - 1) q in
      let rest = collect fuel states (start + page_size) q in
      filter test page ++ (if ltb (length page) page_size then [] else rest)
