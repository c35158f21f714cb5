-- ===== src/Agent/Usage.antt =====
-- internal/engine/runtime.go: normalizeUsage and applyModelPricing.
use ergo_agent.Prelude.{
  ℕ, String, Bool, ◌||◌, Option, none, some, List, [], ◌∷◌, value_or, is_some, if◌then◌else◌,
}
use ergo_agent.Prelude.Int.{ℤ, pos, negsuc, ◌+ℤ◌, ◌*ℤ◌, ltb_ℤ, int64}
use ergo_agent.Json.{plain, Value, num, obj, Fields, end, field, get, put}
use ergo_agent.Compaction.Tokens.{number, read, first_positive_of}
use ergo_agent.Compaction.Run.{int}
use ergo_agent.Schema.Values.{object?}
use ergo_agent.Agent.{Pricing}

unfoldable pub first_usage_number : Fields → List String → ℤ
first_usage_number values keys = value_or (pos 0) (first_positive_of keys (some values))

abbrev pub max_ℤ : ℤ → ℤ → ℤ
max_ℤ a b = if ltb_ℤ a b then b else a

abbrev pub opposite : ℤ → ℤ
opposite n = n *ℤ negsuc 0

abbrev pub detail : Fields → String → String → ℤ
detail raw key name = number (read name (object? (get key raw)))

abbrev pub has_key : Fields → String → Bool
has_key raw key = is_some (get key raw)

abbrev pub cache_read_of : Fields → ℤ
cache_read_of raw =
    let given =
      first_usage_number raw
        ("cacheRead" ∷ "cache_read_input_tokens" ∷ "cachedContentTokenCount" ∷ []) in
    let prompt =
      if is_some (object? (get "prompt_tokens_details" raw))
      then max_ℤ given (detail raw "prompt_tokens_details" "cached_tokens")
      else given in
    if is_some (object? (get "input_tokens_details" raw))
    then max_ℤ prompt (detail raw "input_tokens_details" "cached_tokens")
    else prompt

abbrev pub cache_write_of : Fields → ℤ
cache_write_of raw =
    let given =
      first_usage_number raw
        ("cacheWrite" ∷ "cache_creation_input_tokens" ∷ "cache_write_input_tokens" ∷ []) in
    let prompt =
      if is_some (object? (get "prompt_tokens_details" raw))
      then max_ℤ given (detail raw "prompt_tokens_details" "cache_write_tokens")
      else given in
    if is_some (object? (get "input_tokens_details" raw))
    then max_ℤ prompt (detail raw "input_tokens_details" "cache_write_tokens")
    else prompt

abbrev pub reasoning_of : Fields → ℤ
reasoning_of raw =
    let given = first_usage_number raw ("reasoning" ∷ "thoughtsTokenCount" ∷ []) in
    if is_some (object? (get "output_tokens_details" raw))
    then max_ℤ given (detail raw "output_tokens_details" "reasoning_tokens")
    else given

-- The count of the prompt includes the tokens of the cache in some protocols.
abbrev pub input_of : Fields → ℤ
input_of raw =
    let given =
      first_usage_number raw
        ("input" ∷ "input_tokens" ∷ "prompt_tokens" ∷ "promptTokenCount" ∷ []) in
    if has_key raw "prompt_tokens"
      || has_key raw "input_tokens_details"
      || has_key raw "promptTokenCount"
    then max_ℤ (pos 0)
        (int64 (given +ℤ opposite (cache_read_of raw) +ℤ opposite (cache_write_of raw)))
    else given

abbrev pub output_of : Fields → ℤ
output_of raw =
    first_usage_number raw
      ("output" ∷ "output_tokens" ∷ "completion_tokens" ∷ "candidatesTokenCount" ∷ [])

abbrev pub total_of : Fields → ℤ
total_of raw =
    let given = first_usage_number raw ("totalTokens" ∷ "total_tokens" ∷ "totalTokenCount" ∷ []) in
    if ltb_ℤ (pos 0) given
    then given
    else int64 (input_of raw +ℤ output_of raw +ℤ cache_read_of raw +ℤ cache_write_of raw)

-- A cost in dollars: millionths of a millionth.
abbrev pub dollars : ℤ → Value
dollars n = num (record { mantissa = n; scale = 12; form = plain })

abbrev pub cost_fields : ℤ → ℤ → ℤ → ℤ → Fields
cost_fields input output cache_read cache_write = field "input" (dollars input) (
    field "output" (dollars output) (
      field "cacheRead" (dollars cache_read) (
        field "cacheWrite" (dollars cache_write)
          (field "total" (dollars (input +ℤ output +ℤ cache_read +ℤ cache_write)) end))))

abbrev pub put_if : Bool → String → Value → Fields → Fields
put_if test k v m = if test then put k v m else m

unfoldable pub normalize_usage : Fields → Fields
normalize_usage raw = put "cost" (obj (cost_fields (pos 0) (pos 0) (pos 0) (pos 0))) (
    put "totalTokens" (int (total_of raw)) (
      put_if (ltb_ℤ (pos 0) (reasoning_of raw)) "reasoning" (int (reasoning_of raw)) (
        put "cacheWrite" (int (cache_write_of raw)) (
          put "cacheRead" (int (cache_read_of raw))
            (put "output" (int (output_of raw)) (put "input" (int (input_of raw)) raw))))))

abbrev pub priced : Fields → String → ℕ → ℤ
priced usage key price = number (get key usage) *ℤ pos price

unfoldable pub apply_model_pricing : Option Fields → Option Pricing → Fields
apply_model_pricing usage none = value_or (normalize_usage end) usage
apply_model_pricing usage (some p) =
    let base = value_or (normalize_usage end) usage in
    put "cost"
      (obj (
        cost_fields (priced base "input" p.input_price) (priced base "output" p.output_price)
          (priced base "cacheRead" p.cache_read_price)
          (priced base "cacheWrite" p.cache_write_price)))
      base
