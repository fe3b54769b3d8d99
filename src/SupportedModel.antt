-- ===== src/SupportedModel.antt =====
-- backend/src/modules/supported-model/supported-model.service.ts: the table of models, the guard of
-- a dispatch and the lists of models that the dispatchers spread over. Prices are not modelled.
use connections.Base.{
  ℕ, String, Bool, false, ◌&&◌, Option, none, some, List, [], ◌∷◌, map, leb, if◌then◌else◌, filter,
  find?, str_eq, includes,
}
use connections.Strategy.{SupportedStrategy, FreeTierId}
use connections.RunStore.{same_strategy, sort_by}
use connections.Budget.{same_tier}

pub record SupportedModel : Type 0 where
  pub id : ℕ
  pub strategy_name : SupportedStrategy
  pub model_name : String
  pub supported : Bool
  pub context_window : Option ℕ
  pub max_output_tokens : Option ℕ
  pub free_tier : Option FreeTierId

-- `where: { strategyName, modelName }`
abbrev pub is_model : SupportedStrategy → String → SupportedModel → Bool
is_model strategy model row =
    same_strategy row.strategy_name strategy && str_eq row.model_name model

-- Whether `assertSupported` returns; an absent and an empty name are refused alike.
unfoldable pub assert_supported : List SupportedModel → SupportedStrategy → Option String → Bool
assert_supported rows strategy none = false
assert_supported rows strategy (some model) =
    if str_eq model ""
    then false
    else elim (find? (is_model strategy model) rows) [ none ↦ false | some row ↦ row.supported ]

-- `order: { id: "ASC" }`
unfoldable pub in_order : List SupportedModel → List SupportedModel
unfolding sort_by
in_order rows = sort_by (λ a b. leb a.id b.id) rows

abbrev pub is_supported_of : SupportedStrategy → SupportedModel → Bool
is_supported_of strategy row = same_strategy row.strategy_name strategy && row.supported

unfoldable pub get_default_model : List SupportedModel → SupportedStrategy → Option String
unfolding in_order
get_default_model rows strategy = elim (find? (is_supported_of strategy) (in_order rows)) [
  | none ↦ none
  | some row ↦ some row.model_name
]

pub data Resolved : Type 0 where
  resolved : SupportedStrategy → Resolved
  unsupported : Resolved
  ambiguous : List SupportedStrategy → Resolved

unfoldable pub resolve_supported_strategy : List SupportedModel → String → Resolved
resolve_supported_strategy rows model =
    elim (filter (λ (r : SupportedModel). str_eq r.model_name model && r.supported) rows) [
      | [] ↦ unsupported
      | row ∷ others ↦ elim others [
        | [] ↦ resolved row.strategy_name
        | next ∷ more ↦
            ambiguous (map (λ (r : SupportedModel). r.strategy_name) (row ∷ next ∷ more))
      ]
    ]

unfoldable pub get_context_window : List SupportedModel → SupportedStrategy → String → Option ℕ
get_context_window rows strategy model = elim (find? (is_model strategy model) rows) [
  | none ↦ none
  | some row ↦ row.context_window
]

unfoldable pub get_max_output_tokens : List SupportedModel → SupportedStrategy → String → Option ℕ
get_max_output_tokens rows strategy model = elim (find? (is_model strategy model) rows) [
  | none ↦ none
  | some row ↦ row.max_output_tokens
]

-- Sets `model`'s entry; the model names of a strategy's rows are different.
abbrev pub set_cap : SupportedModel → List (String × Option ℕ) → List (String × Option ℕ)
set_cap row [] = []
set_cap row ((model, cap) ∷ caps) =
    (model, if str_eq row.model_name model then row.max_output_tokens else cap) ∷ set_cap row caps

abbrev pub set_caps : List SupportedModel → List (String × Option ℕ) → List (String × Option ℕ)
set_caps [] caps = caps
set_caps (row ∷ rows) caps = set_caps rows (set_cap row caps)

-- The map has an entry for each of the names, which are different.
unfoldable pub get_max_output_tokens_by_model :
    List SupportedModel → SupportedStrategy → List String → List (String × Option ℕ)
get_max_output_tokens_by_model rows strategy names =
    set_caps
      (filter
        (λ (r : SupportedModel).
          same_strategy r.strategy_name strategy && includes names r.model_name)
        rows)
      (map (λ name. (name, none)) names)

abbrev pub has_tier : FreeTierId → Option FreeTierId → Bool
has_tier tier none = false
has_tier tier (some other) = same_tier other tier

unfoldable pub find_model_names_by_free_tier : List SupportedModel → FreeTierId → List String
unfolding in_order
find_model_names_by_free_tier rows tier =
    map (λ (r : SupportedModel). r.model_name)
      (filter (λ (r : SupportedModel). has_tier tier r.free_tier && r.supported) (in_order rows))

unfoldable pub find_model_names_by_strategy : List SupportedModel → SupportedStrategy → List String
unfolding in_order
find_model_names_by_strategy rows strategy =
    map (λ (r : SupportedModel). r.model_name) (filter (is_supported_of strategy) (in_order rows))
