-- ===== src/Dispatch/ListQueue.antt =====
-- A list as a queue, on which the theorems about backend/src/modules/strategy/strategy-dispatch.service.ts
-- are tried out.
use connections.Base.{
  ℕ, suc, ◌+◌, ◌-◌, ◌≡◌, refl, sym, ap, ◌∙◌, subst, ◌⊎◌, inl, inr, Bool, true, false, List, [], ◌∷◌,
  ◌++◌, map, concat, append-nil, arith, filter, take, drop, In, In-left, In-right, In-split,
  In-filter, In-map, In-map-source, filter-In,
}
use connections.Dispatch.Queue.{JobState, RunStrategyJob, JobQueue}

abbrev pub Entries : Type 0
Entries = List (JobState × RunStrategyJob)

abbrev pub same_state : JobState → JobState → Bool
same_state JobState.waiting JobState.waiting = true
same_state JobState.delayed JobState.delayed = true
same_state JobState.prioritized JobState.prioritized = true
same_state JobState.paused JobState.paused = true
same_state JobState.active JobState.active = true
same_state _ _ = false

abbrev pub entries_of : JobState → Entries → List RunStrategyJob
entries_of state q =
    map (λ (e : JobState × RunStrategyJob). e.1)
      (filter (λ (e : JobState × RunStrategyJob). same_state e.0 state) q)

-- The jobs of the states, one state after the other.
abbrev pub entries_in : List JobState → Entries → List RunStrategyJob
entries_in states q = concat (map (λ s. entries_of s q) states)

entries_of-add :
    (state : JobState) (job e : RunStrategyJob) (q : Entries)
    → In e (entries_of state (q ++ (JobState.waiting, job) ∷ []))
    → In e (entries_of state q) ⊎ (e ≡ job)
entries_of-add state job e q i =
    let in_state : JobState × RunStrategyJob → Bool =
      λ (e : JobState × RunStrategyJob). same_state e.0 state in
    let (entry, k, same) =
      In-map-source (λ (e : JobState × RunStrategyJob). e.1) e
        (filter in_state (q ++ (JobState.waiting, job) ∷ [])) i in
    let (there, test) = In-filter in_state entry (q ++ (JobState.waiting, job) ∷ []) k in
    elim (In-split entry q ((JobState.waiting, job) ∷ []) there) [
      | inl old ↦ inl (
          subst (λ z. In z (entries_of state q)) same
            (In-map (λ (e : JobState × RunStrategyJob). e.1) entry (filter in_state q)
              (filter-In in_state entry q old test)))
      | inr new ↦ elim new [
        | inl eq ↦ inr (sym same ∙ ap (λ (z : JobState × RunStrategyJob). z.1) (sym eq))
        | inr nowhere ↦ elim nowhere [ ]
      ]
    ]

pub entries_in-add :
    (states : List JobState) (job e : RunStrategyJob) (q : Entries)
    → In e (entries_in states (q ++ (JobState.waiting, job) ∷ []))
    → In e (entries_in states q) ⊎ (e ≡ job)
entries_in-add [] job e q i = elim i [ ]
entries_in-add (s ∷ states) job e q i =
    elim (In-split e (entries_of s (q ++ (JobState.waiting, job) ∷ []))
      (entries_in states (q ++ (JobState.waiting, job) ∷ [])) i) [
        | inl here ↦ elim (entries_of-add s job e q here) [
          | inl old ↦ inl (In-left e (entries_of s q) (entries_in states q) old)
          | inr new ↦ inr new
        ]
        | inr later ↦ elim (entries_in-add states job e q later) [
          | inl old ↦ inl (In-right e (entries_of s q) (entries_in states q) old)
          | inr new ↦ inr new
        ]
      ]

pub entries_in-states :
    (states : List JobState) (q : Entries)
    → entries_in states q ≡ concat (map (λ s. entries_in (s ∷ []) q) states)
entries_in-states [] q = refl
entries_in-states (s ∷ states) q =
    ap (λ l. l ++ entries_in states q) (sym (append-nil (entries_of s q)))
    ∙ ap (λ l. (entries_of s q ++ []) ++ l) (entries_in-states states q)

abbrev pub page_of : List JobState → ℕ → ℕ → Entries → List RunStrategyJob
page_of states start n q = concat (map (λ s. take n (drop start (entries_in (s ∷ []) q))) states)

pub page_of-last :
    (states : List JobState) (start n : ℕ) (q : Entries)
    → page_of states start (suc (start + n) - start) q ≡ page_of states start (suc n) q
page_of-last states start n q =
    let e : suc (start + n) - start ≡ suc n = omega arith in ap (λ k. page_of states start k q) e

abbrev pub list_queue : JobQueue Entries
list_queue = record {
  add = λ job q. q ++ (JobState.waiting, job) ∷ [];
  get_jobs = λ states start last q. page_of states start (suc last - start) q;
  jobs = entries_in;
  jobs_states = entries_in-states;
  get_jobs_page = page_of-last;
  jobs_add = entries_in-add;
}
