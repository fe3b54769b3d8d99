-- ===== src/Llm/TokenBound.antt =====
-- backend/src/modules/strategy/token-bound.ts. `byte_length` is the host's UTF-8 length of a string.
use connections.Base.{
  ℕ, zero, suc, ◌+◌, ◌≤◌, String, ◌≡◌, sym, subst, true, Option, none, some, List, [], ◌∷◌, ◌++◌,
  arith, append_assoc, append-nil, leb, if◌then◌else◌, le→leb, length, length-append,
}
use connections.Llm.Messages.{ChatMessage}

abbrev per_message_overhead_tokens : ℕ
per_message_overhead_tokens = 8

abbrev request_overhead_tokens : ℕ
request_overhead_tokens = 64

pub record KnownPrefix : Type 0 where
  pub message_count : ℕ
  pub tokens : ℕ

module _ (byte_length : String → ℕ) where
  -- The loop over the messages from index `start` on.
  unfoldable pub total_from : ℕ → ℕ → List ChatMessage → ℕ
  total_from total start [] = total
  total_from total zero (m ∷ ms) =
      total_from (total + (byte_length m.content + per_message_overhead_tokens)) zero ms
  total_from total (suc start) (m ∷ ms) = total_from total start ms

  -- `known !== null && known.messageCount <= messages.length ? known : null`
  abbrev pub usable : List ChatMessage → Option KnownPrefix → Option KnownPrefix
  usable messages none = none
  usable messages (some known) =
      if leb known.message_count (length messages) then some known else none

  unfoldable pub input_token_upper_bound : List ChatMessage → Option KnownPrefix → ℕ
  unfolding total_from
  input_token_upper_bound messages known = elim (usable messages known) [
    | some prefix ↦ total_from prefix.tokens prefix.message_count messages
    | none ↦ total_from request_overhead_tokens 0 messages
  ]

  unfoldable pub known_prefix_after_reply : ℕ → ℕ → String → KnownPrefix
  known_prefix_after_reply request_message_count prompt_tokens assistant_content = record {
    message_count = request_message_count + 1;
    tokens = prompt_tokens + byte_length assistant_content + per_message_overhead_tokens;
  }

  abbrev bytes : List ChatMessage → ℕ
  bytes [] = 0
  bytes (m ∷ ms) = byte_length m.content + per_message_overhead_tokens + bytes ms

  total_from-zero : (total : ℕ) (ms : List ChatMessage) → total_from total 0 ms ≡ total + bytes ms
  unfolding total_from
  total_from-zero total [] = ground arith
  total_from-zero total (m ∷ ms) =
      ground (arith, total_from-zero (total + (byte_length m.content + 8)) ms)

  total_from-skip :
      (total : ℕ) (done ms : List ChatMessage)
      → total_from total (length done) (done ++ ms) ≡ total + bytes ms
  unfolding total_from
  total_from-skip total [] ms = total_from-zero total ms
  total_from-skip total (m ∷ done) ms = total_from-skip total done ms

  module _ (tokens : List ChatMessage → ℕ)
      (add_message : (ms : List ChatMessage) (m : ChatMessage)
        → tokens (ms ++ m ∷ []) ≤ tokens ms + (byte_length m.content + 8))
      (no_messages : tokens [] ≤ 64) where
    grows : (ms more : List ChatMessage) → tokens (ms ++ more) ≤ tokens ms + bytes more
    grows ms [] = rw (append-nil ms) (omega arith)
    grows ms (m ∷ more) =
        ground
          (arith, sym (append_assoc ms (m ∷ []) more), grows (ms ++ m ∷ []) more, add_message ms m)

    -- A message adds at most its bytes and 8 tokens to a request, and an empty one costs at most
    -- 64. Then the bound computed before a call is at least the tokens of its request, both
    -- without a known prefix and when an earlier call of the conversation reported its tokens and
    -- other messages were added after its reply.
    pub input_token_upper_bound-bounds :
        (request more : List ChatMessage) (reply : ChatMessage)
        → (tokens request ≤ input_token_upper_bound request none)
          × (tokens (request ++ reply ∷ more)
              ≤ input_token_upper_bound
                  (request ++ reply ∷ more)
                  (some (known_prefix_after_reply (length request) (tokens request) reply.content)))
    unfolding input_token_upper_bound known_prefix_after_reply
    input_token_upper_bound-bounds request more reply =
        let at : length request + 1 ≡ length (request ++ reply ∷ []) =
          sym (length-append request (reply ∷ [])) in
        let fits : leb (length request + 1) (length (request ++ reply ∷ more)) ≡ true =
          le→leb _ _ (ground (arith, length-append request (reply ∷ more))) in
        let bound : ℕ = tokens request + byte_length reply.content + 8 in
        let skip : total_from bound (length request + 1) (request ++ reply ∷ more)
            ≡ bound + bytes more =
          subst (λ k. total_from bound k (request ++ reply ∷ more) ≡ bound + bytes more) (sym at)
            (subst (λ ms. total_from bound (length (request ++ reply ∷ [])) ms ≡ bound + bytes more)
              (append_assoc request (reply ∷ []) more)
              (total_from-skip bound (request ++ reply ∷ []) more)) in
        (
          ground (arith, total_from-zero 64 request, grows [] request, no_messages),
          ground (
            arith,
            fits,
            skip,
            grows (request ++ reply ∷ []) more,
            append_assoc request (reply ∷ []) more,
            add_message request reply,
          ),
        )
