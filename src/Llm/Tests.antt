-- ===== src/Llm/Tests.antt =====
-- Replies, failed calls and conversations of a small run.
use connections.Base.{
  ℕ, ◌+◌, ◌*◌, ◌≤◌, String, ◌≡◌, refl, true, false, none, some, List, [], ◌∷◌, ◌++◌, map, arith,
  length, length-append,
}
use connections.Strategy.{StrategyRun, Guess, is_running}
use connections.Llm.{counters, initial_state}
use connections.Llm.Proposals.{Evaluation}
use connections.Llm.Rounds.{evaluated}
use connections.Llm.Replay.{progress, prior_of, evaluated-resumes}
use connections.Llm.Board.{Staged, misses, evaluated-Staged}
use connections.Llm.Calls.{RunLimits, RateLimitPark}
use connections.Llm.Messages.{
  ChatMessage, ChatRole, RequestShape, request_body, reconstruct_messages,
  reconstruct_messages-request_body,
}
use connections.Llm.TokenBound.{
  input_token_upper_bound, known_prefix_after_reply, input_token_upper_bound-bounds,
}
use connections.Llm.Loop.{Reply, ok, Setup, Session, run_loop}
use connections.Llm.Limits.{run_loop-ends}
use connections.Llm.Duplicates.{is_duplicate_end, evaluated-no_duplicate_end}
use connections.Examples.{
  fruit_words, plain, two_groups, mixed_words, model_run, two_proposals, before_reply,
}

abbrev after : Evaluation
after = evaluated plain two_groups 10 4 5 two_proposals before_reply

evaluated-resumes_example :
    progress after.state ≡ initial_state (map prior_of ([] ++ after.pending_guesses))
evaluated-resumes_example =
    evaluated-resumes plain two_groups 10 4 5 [] two_proposals before_reply
      (unfold initial_state in refl) refl

evaluated-Staged_example :
    (staged : List Guess) × Staged before_reply.run before_reply.state before_reply.pending_guesses
      after.run after.state after.pending_guesses staged
    × (misses staged ≤ 1)
evaluated-Staged_example =
    evaluated-Staged plain two_groups 10 4 5 two_proposals before_reply (refl, (refl, tt))

evaluated-no_duplicate_end_example :
    (is_duplicate_end after.run.status ≡ false)
    × (after.state.duplicate_count ≤ after.state.failed_guess_count)
evaluated-no_duplicate_end_example =
    evaluated-no_duplicate_end plain two_groups 10 4 5 (omega arith) two_proposals before_reply refl
      (omega arith)

abbrev limits : RunLimits
limits = record {
  max_duplicates = 10;
  max_failed_guesses = 4;
  max_malformed = 3;
  max_model_errors = 5;
  rate_limit_fallback_seconds = 60;
}

abbrev park : RateLimitPark
park = record { attempts = 3; elapsed_ms = 1000 }

abbrev said : ChatRole → String → ChatMessage
said role content = record { role = role; content = content }

reconstruct_messages-request_body_example :
    reconstruct_messages (
      some (
        request_body RequestShape.gemini
          (λ m. true)
          ((said ChatRole.user "a" ∷ said ChatRole.assistant "b" ∷ [])
            ++ said ChatRole.user "c" ∷ [])))
    ≡ said ChatRole.user "a" ∷ said ChatRole.assistant "b" ∷ []
reconstruct_messages-request_body_example =
    reconstruct_messages-request_body RequestShape.gemini (λ m. true)
      (said ChatRole.user "a" ∷ said ChatRole.assistant "b" ∷ []) (said ChatRole.user "c")

abbrev three_each : List ChatMessage → ℕ
three_each ms = 3 * length ms

three_more :
    (ms : List ChatMessage) (m : ChatMessage) → three_each (ms ++ m ∷ []) ≤ three_each ms + (2 + 8)
three_more ms m = ground (arith, length-append ms (m ∷ []))

input_token_upper_bound-bounds_example :
    (three_each (said ChatRole.user "a" ∷ [])
      ≤ input_token_upper_bound (λ w. 2) (said ChatRole.user "a" ∷ []) none)
    × (three_each (
          (said ChatRole.user "a" ∷ [])
          ++ said ChatRole.assistant "b" ∷ said ChatRole.user "c" ∷ [])
        ≤ input_token_upper_bound
            (λ w. 2)
            ((said ChatRole.user "a" ∷ [])
              ++ said ChatRole.assistant "b" ∷ said ChatRole.user "c" ∷ [])
            (some (known_prefix_after_reply (λ w. 2) 1 3 "b")))
input_token_upper_bound-bounds_example =
    input_token_upper_bound-bounds (λ w. 2) three_each three_more (omega arith)
      (said ChatRole.user "a" ∷ []) (said ChatRole.user "c" ∷ []) (said ChatRole.assistant "b")

abbrev reply : Reply
reply = record {
  model = "small";
  context_window = none;
  response = "text";
  groups = mixed_words ∷ [];
  proposal_words = some mixed_words ∷ [];
  category_by_group = λ n. none;
  text_issues = [];
  prompt_tokens = none;
  total_tokens = none;
}

abbrev setup : Setup
setup = record {
  ops = plain;
  show = λ n. "n";
  byte_length = λ w. 2;
  puzzle = two_groups;
  limits = limits;
  park = none;
  max_output_tokens = none;
}

abbrev session : Session
session = record {
  run = model_run;
  state = counters [];
  messages = [];
  known_prefix = none;
  saved = [];
  prompt_number = 0;
  delays = [];
}

run_loop-ends_example :
    (t : Session) × (run_loop setup
        (λ round tier tokens. none)
        (λ round request. ok reply)
        (λ round. round)
        200
        0
        session
      ≡ some t)
    × (is_running t.run.status ≡ false)
run_loop-ends_example =
    run_loop-ends setup (λ round tier tokens. none) (λ round request. ok reply) (λ round. round)
      (λ round request. refl) 200 0 session (omega arith)

abbrev comma_run : StrategyRun
comma_run = record model_run { available_words = "20,000" ∷ fruit_words }
