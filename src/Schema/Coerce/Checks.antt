-- ===== src/Schema/Coerce/Checks.antt =====
-- The results of validateToolCall of internal/engine/tool_validation.go.
use ergo_agent.Prelude.{
  ℕ, String, Bool, true, false, Bool-cases, ◌≡◌, refl, Option, some, none, List, [], ◌∷◌, some_of,
  Option-cases, inl, inr,
}
use ergo_agent.Json.{encodes, Number, Value, Fields}
use ergo_agent.Message.{ToolCall}
use ergo_agent.Schema.{Problem, validate}
use ergo_agent.Schema.Fuel.{is_good}
use ergo_agent.Schema.Total.{validate-total}
use ergo_agent.Schema.Coerce.{
  Checked, not_json, problems, not_encoded, prepared, conclude, coerce_with_json_schema,
  normalize_edit_arguments, validate_tool_call,
}
use ergo_agent.Schema.Coerce.Total.{coerce_with_json_schema-total}

module _ (parse_float : String → Option Number) (number_text : Number → String)
    (matches : String → String → Bool) (n : ℕ) (parameters : Fields) (call : ToolCall) where
  -- The value that the arguments of the call are coerced to.
  abbrev pub IsCoerced : Value → Type 0
  IsCoerced v =
      (value : Value) × (call.arguments ≡ some value)
      × (coerce_with_json_schema parse_float number_text matches n
            (normalize_edit_arguments call.name value) parameters
          ≡ some v)

  -- What each result says of the call.
  abbrev pub IsRight : Checked → Type 0
  IsRight not_json = call.arguments ≡ none
  IsRight (problems ps) =
      (p : Problem) × (rest : List Problem) × (ps ≡ p ∷ rest)
      × (v : Value) × IsCoerced v
      × (validate matches n parameters parameters v [] ≡ some ps)
  IsRight not_encoded =
      (v : Value) × IsCoerced v
      × (encodes v ≡ false)
      × (validate matches n parameters parameters v [] ≡ some [])
  IsRight (prepared c) =
      (v : Value) × IsCoerced v
      × (encodes v ≡ true)
      × (c ≡ record call { arguments = some v })
      × (validate matches n parameters parameters v [] ≡ some [])

  conclude-IsRight :
      (v : Value) (ps : List Problem)
      → IsCoerced v
      → validate matches n parameters parameters v [] ≡ some ps
      → IsRight (conclude call v ps)
  conclude-IsRight v [] c h = elim (Bool-cases (encodes v)) [
    | inl e ↦ rw e (v, c, e, refl, h)
    | inr e ↦ rw e (v, c, e, h)
  ]
  conclude-IsRight v (p ∷ ps) c h = (p, ps, refl, v, c, h)

  -- For parameters whose nesting is less deep than n and in which no object has a text under $ref,
  -- n calls deep are enough for validateToolCall to return, whatever the call: it reports the JSON
  -- only when the arguments are none, problems only when the coerced arguments have them, the error
  -- of json.Marshal only when the coerced arguments have no problem and hold a number that JSON
  -- does not write, and otherwise it returns the call with its id, name and metadata and with the
  -- coerced arguments, which have no problem and which JSON writes.
  pub validate_tool_call-IsRight :
      is_good n parameters ≡ true
      → (r : Checked) × (validate_tool_call parse_float number_text matches n parameters call
          ≡ some r)
        × IsRight r
  unfolding validate_tool_call
  validate_tool_call-IsRight g = elim (Option-cases call.arguments) [
    | inl e ↦ (not_json, cc e, e)
    | inr (value, e) ↦
        let start = normalize_edit_arguments call.name value in
        let (v, f) =
          some_of (coerce_with_json_schema parse_float number_text matches n start parameters)
            (coerce_with_json_schema-total parse_float number_text matches n start parameters g) in
        let (ps, h) = validate-total matches n parameters parameters v [] g in
        (conclude call v ps, rw (e, f, h), conclude-IsRight v ps (value, e, f) h)
  ]
