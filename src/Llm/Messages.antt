-- ===== src/Llm/Messages.antt =====
-- The conversation of a run, and its rebuilding from the request of the run's last call
-- (`reconstructMessages` and `normalizeTurns` of
-- backend/src/modules/strategy/llm-strategy-runner.service.ts).
use connections.Base.{
  String, ◌≡◌, refl, ap, Bool, false, Option, none, some, List, [], ◌∷◌, ◌++◌, arith, if◌then◌else◌,
  str_eq, str_eq_refl,
}
use connections.Solver.Shuffle.{join}

pub data ChatRole : Type 0 where
  user assistant : ChatRole

pub record ChatMessage : Type 0 where
  pub role : ChatRole
  pub content : String

-- A JSON value as the code looks at it: `other` is any value that is no string, array or object.
mutual
  pub data Json : Type 0 where
    other : Json
    string : String → Json
    array : JsonList → Json
    object : JsonFields → Json

  pub data JsonList : Type 0 where
    empty : JsonList
    item : Json → JsonList → JsonList

  pub data JsonFields : Type 0 where
    no_fields : JsonFields
    field : String → Json → JsonFields → JsonFields

-- `record[key]`: an absent field is `undefined`.
abbrev pub lookup : String → JsonFields → Json
lookup key no_fields = other
lookup key (field name value fields) = if str_eq name key then value else lookup key fields

-- An array is an object too, but one without fields of a turn.
abbrev pub fields_of : Json → Option JsonFields
fields_of (object fields) = some fields
fields_of (array items) = some no_fields
fields_of _ = none

abbrev pub role_of : String → Json → Option ChatRole
role_of assistant_role (string raw_role) =
    if str_eq raw_role "user"
    then some ChatRole.user
    else if str_eq raw_role assistant_role
    then some ChatRole.assistant
    else none
role_of assistant_role _ = none

abbrev pub text_of : Json → Option String
text_of (object fields) = elim (lookup "text" fields) [ string text ↦ some text | _ ↦ none ]
text_of _ = none

infixl 5 ◌>>=◌
abbrev ◌>>=◌ {ℓ κ} : {A : Type ℓ} {B : Type κ} → Option A → (A → Option B) → Option B
some a >>= f = f a
none >>= f = none

unfoldable pub texts_of : JsonList → Option (List String)
texts_of empty = some []
texts_of (item part parts) = do text ← text_of part; texts ← texts_of parts; some (text ∷ texts)

unfoldable pub content_of : Json → Option String
unfolding texts_of
content_of (string content) = some content
content_of (array parts) = elim (texts_of parts) [ some texts ↦ some (join "" texts) | none ↦ none ]
content_of _ = none

module _ (content_key assistant_role : String) where
  unfoldable pub normalize_turn : Json → Option ChatMessage
  unfolding content_of
  normalize_turn value = do
    fields ← fields_of value
    role ← role_of assistant_role (lookup "role" fields)
    content ← content_of (lookup content_key fields)
    some (record { role = role; content = content })

  unfoldable pub normalize_items : JsonList → Option (List ChatMessage)
  normalize_items empty = some []
  normalize_items (item value values) = do
    message ← normalize_turn value
    messages ← normalize_items values
    some (message ∷ messages)

  -- `none` for what is no array of such turns.
  unfoldable pub normalize_turns : Json → Option (List ChatMessage)
  normalize_turns (array values) = normalize_items values
  normalize_turns _ = none

-- `a ?? b`
abbrev pub or_else :
    Option (List ChatMessage) → Option (List ChatMessage) → Option (List ChatMessage)
or_else (some messages) fallback = some messages
or_else none fallback = fallback

-- `messages.slice(0, -1)`
abbrev pub without_last : List ChatMessage → List ChatMessage
without_last [] = []
without_last (x ∷ []) = []
without_last (x ∷ y ∷ xs) = x ∷ without_last (y ∷ xs)

-- From the last call's `requestBody`; `none` if the run has no call yet.
unfoldable pub reconstruct_messages : Option Json → List ChatMessage
unfolding normalize_turns
reconstruct_messages none = []
reconstruct_messages (some request_body) = elim (fields_of request_body) [
  | none ↦ []
  | some fields ↦
      elim (or_else (normalize_turns "content" "assistant" (lookup "messages" fields)) (
        or_else (normalize_turns "content" "assistant" (lookup "input" fields))
          (normalize_turns "parts" "model" (lookup "contents" fields)))) [
            | some messages ↦ without_last messages
            | none ↦ []
          ]
]

-- A turn as a provider's request holds it: its content a string or a list with one typed part.
module _ (in_parts : ChatMessage → Bool) (content_key assistant_role : String) where
  abbrev role_name : ChatRole → String
  role_name ChatRole.user = "user"
  role_name ChatRole.assistant = assistant_role

  abbrev content_json : ChatMessage → Json
  content_json m =
      if in_parts m
      then array (item (object (field "text" (string m.content) no_fields)) empty)
      else string m.content

  abbrev turn_json : ChatMessage → Json
  turn_json m =
      object
        (field "role" (string (role_name m.role)) (field content_key (content_json m) no_fields))

  abbrev pub turns_json : List ChatMessage → JsonList
  turns_json [] = empty
  turns_json (m ∷ ms) = item (turn_json m) (turns_json ms)

role_of-role_name :
    (in_parts : ChatMessage → Bool) (key asst : String)
    → str_eq asst "user" ≡ false
    → (r : ChatRole) → role_of asst (string (role_name in_parts key asst r)) ≡ some r
role_of-role_name in_parts key asst a ChatRole.user = ground (arith, str_eq_refl "user")
role_of-role_name in_parts key asst a ChatRole.assistant = ground (arith, a, str_eq_refl asst)

content_of-content_json :
    (in_parts : ChatMessage → Bool) (key asst : String) (m : ChatMessage)
    → content_of (content_json in_parts key asst m) ≡ some m.content
unfolding content_of texts_of join
content_of-content_json in_parts key asst m = ground (arith, str_eq_refl "text")

normalize_turn-turn_json :
    (in_parts : ChatMessage → Bool) (key asst : String)
    → str_eq "role" key ≡ false
    → str_eq asst "user" ≡ false
    → (m : ChatMessage) → normalize_turn key asst (turn_json in_parts key asst m) ≡ some m
unfolding normalize_turn
normalize_turn-turn_json in_parts key asst k a m = ground (
  arith,
  k,
  role_of-role_name in_parts key asst a m.role,
  content_of-content_json in_parts key asst m,
  str_eq_refl "role",
  str_eq_refl key,
)

normalize_items-turns_json :
    (in_parts : ChatMessage → Bool) (key asst : String)
    → str_eq "role" key ≡ false
    → str_eq asst "user" ≡ false
    → (ms : List ChatMessage) → normalize_items key asst (turns_json in_parts key asst ms) ≡ some ms
unfolding normalize_items
normalize_items-turns_json in_parts key asst k a [] = refl
normalize_items-turns_json in_parts key asst k a (m ∷ ms) = ground (
  arith,
  normalize_turn-turn_json in_parts key asst k a m,
  normalize_items-turns_json in_parts key asst k a ms,
)

without_last-append : (ms : List ChatMessage) (m : ChatMessage) → without_last (ms ++ m ∷ []) ≡ ms
without_last-append [] m = refl
without_last-append (x ∷ []) m = refl
without_last-append (x ∷ y ∷ ms) m = ap (λ l. x ∷ l) (without_last-append (y ∷ ms) m)

-- The request of a call that sent the messages `history` and then `prompt`, in one of the shapes
-- that are known: its key, and how its turns name their content and the assistant.
pub data RequestShape : Type 0 where
  chat responses gemini : RequestShape

abbrev pub request_body : RequestShape → (ChatMessage → Bool) → List ChatMessage → Json
request_body RequestShape.chat in_parts ms =
    object (field "messages" (array (turns_json in_parts "content" "assistant" ms)) no_fields)
request_body RequestShape.responses in_parts ms =
    object (field "input" (array (turns_json in_parts "content" "assistant" ms)) no_fields)
request_body RequestShape.gemini in_parts ms =
    object (field "contents" (array (turns_json in_parts "parts" "model" ms)) no_fields)

role_not_content : str_eq "role" "content" ≡ false
unfolding str_eq
role_not_content = refl

role_not_parts : str_eq "role" "parts" ≡ false
unfolding str_eq
role_not_parts = refl

assistant_not_user : (str_eq "assistant" "user" ≡ false) × (str_eq "model" "user" ≡ false)
unfolding str_eq
assistant_not_user = (refl, refl)

other_keys :
    (str_eq "input" "messages" ≡ false)
    × (str_eq "contents" "messages" ≡ false)
    × (str_eq "contents" "input" ≡ false)
unfolding str_eq
other_keys = (refl, refl, refl)

-- A resumed run goes on with the conversation as it stood before the last call's prompt, whichever
-- of the three known request shapes the provider's request has, and whether a turn's
-- content is a string or a typed part.
pub reconstruct_messages-request_body :
    (shape : RequestShape) (in_parts : ChatMessage → Bool) (history : List ChatMessage)
    (prompt : ChatMessage)
    → reconstruct_messages (some (request_body shape in_parts (history ++ prompt ∷ []))) ≡ history
unfolding reconstruct_messages normalize_turns
reconstruct_messages-request_body RequestShape.chat in_parts history prompt = ground (
  arith,
  str_eq_refl "messages",
  normalize_items-turns_json in_parts "content" "assistant" role_not_content assistant_not_user.0
      (history ++ prompt ∷ []),
  without_last-append history prompt,
)
reconstruct_messages-request_body RequestShape.responses in_parts history prompt = ground (
  arith,
  other_keys,
  str_eq_refl "input",
  normalize_items-turns_json in_parts "content" "assistant" role_not_content assistant_not_user.0
      (history ++ prompt ∷ []),
  without_last-append history prompt,
)
reconstruct_messages-request_body RequestShape.gemini in_parts history prompt = ground (
  arith,
  other_keys,
  str_eq_refl "contents",
  normalize_items-turns_json in_parts "parts" "model" role_not_parts assistant_not_user.1
      (history ++ prompt ∷ []),
  without_last-append history prompt,
)
