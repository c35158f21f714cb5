-- ===== src/Tests/Schemas.antt =====
-- Concrete schemas and values for internal/engine/tool_validation.go.
use ergo_agent.Prelude.{
  contains, Option, true, ◌==◌, if◌then◌else◌, String, Bool, false, ◌≡◌, refl, none, some, List, [],
  ◌∷◌,
}
use ergo_agent.Prelude.Int.{◌*ℤ◌}
use ergo_agent.Json.{Value, null, bool, num, str, arr, obj, nil, cons, Fields, end, field, get}
use ergo_agent.Schema.{
  Problem, validate, key, missing, check_call, check_schema, all_of, check_any_of, check_one_of,
  check_not, check_rest, check_named, type_name, check_type, check_object, check_members,
  check_member, missing_from, check_additional, check_const, check_enum, check_number, check_string,
  unexpected, whole,
}
use ergo_agent.Schema.Values.{
  resolve_local_schema_ref, schema_list, schema_types, schema_number, string_list, is_json_number,
  matches_json_type,
}
use ergo_agent.Schema.References.{validate-circular}
use ergo_agent.Schema.Accepted.{IsAccepted, validate-IsAccepted}
use ergo_agent.Schema.Fuel.{depth, is_free}
use ergo_agent.Schema.Total.{validate-total}
use ergo_agent.Message.{ToolCall}
use ergo_agent.Json.{Number, spelled, infinite, encodes}
use ergo_agent.Schema.Coerce.{
  Checked, prepared, not_encoded, validate_tool_call, coerce_primitive, coerce_number,
  coerce_integer, coerce_boolean, coerce_string, coerce_null, coerce_types, coerce_to,
  coerce_all_of, coerce_any_of, coerce_member, coerce_members, coerce_object, coerce_array,
  coerce_call, coerce_with_json_schema, normalize_edit_arguments,
}
use ergo_agent.Schema.Coerce.Primitive.{made_type, coerce_primitive-typed}
use ergo_agent.Schema.Coerce.Checks.{IsRight, validate_tool_call-IsRight}

abbrev no_pattern : String → String → Bool
no_pattern pattern text = false

abbrev circular : Fields
circular = field "$ref" (str "#") end

validate-circular_example : validate no_pattern 9 circular circular null [] ≡ none
unfolding get resolve_local_schema_ref
validate-circular_example = validate-circular no_pattern circular circular "#" null [] 9 refl refl

abbrev typed : String → Value
typed kind = obj (field "type" (str kind) end)

abbrev read_schema : Fields
read_schema = field "type" (str "object") (
    field "properties" (obj (field "path" (typed "string") (field "limit" (typed "integer") end))) (
      field "required" (arr (cons (str "path") nil))
        (field "additionalProperties" (bool false) end)))

abbrev read_arguments : Fields
read_arguments = field "path" (str "a.go") (field "limit" (num (whole 3)) end)

validate-total_example :
    (ps : List Problem) × (validate no_pattern 4 read_schema read_schema (obj read_arguments) []
      ≡ some ps)
unfolding depth is_free get
validate-total_example =
    validate-total no_pattern 4 read_schema read_schema (obj read_arguments) [] refl

accepted_run : validate no_pattern 2 read_schema read_schema (obj read_arguments) [] ≡ some []
unfolding validate get check_call check_schema all_of check_any_of check_one_of check_not check_rest
    check_named type_name check_type check_object check_members check_member missing_from
    check_additional check_const check_enum check_number check_string schema_list schema_types
    schema_number string_list is_json_number ◌*ℤ◌
accepted_run = refl

rejected_run :
    validate no_pattern 2 read_schema read_schema (obj (field "mode" null end)) []
    ≡ some (
        record { path = key "path" ∷ []; kind = missing }
        ∷ record { path = key "mode" ∷ []; kind = unexpected }
        ∷ [])
unfolding validate get check_call check_schema all_of check_any_of check_one_of check_not check_rest
    check_named type_name check_type check_object check_members check_member missing_from
    check_additional check_const check_enum check_number check_string schema_list schema_types
    schema_number string_list is_json_number ◌*ℤ◌
rejected_run = refl

validate-IsAccepted_example :
    (object : Fields) × (obj read_arguments ≡ obj object)
    × IsAccepted no_pattern (validate no_pattern 1 read_schema) read_schema object []
unfolding get schema_types
validate-IsAccepted_example =
    validate-IsAccepted no_pattern 1 read_schema read_schema (obj read_arguments) [] refl refl
      accepted_run

-- A reader of three texts, and a printer of no use.
abbrev reads_three : String → Option Number
reads_three text =
    if text == "3"
    then some (whole 3)
    else if text == "+5"
    then some (record (whole 5) { form = spelled "+5" true false })
    else if text == "Inf"
    then some (record (whole 1) { form = infinite })
    else none

abbrev prints : Number → String
prints n = "0"

abbrev loose_call : ToolCall
loose_call = record {
  id = "c1";
  name = "read";
  arguments = some (obj (field "path" (str "a.go") (field "limit" (str "3") end)));
  metadata = none;
}

validate_tool_call-IsRight_example :
    (r : Checked) × (validate_tool_call reads_three prints no_pattern 4 read_schema loose_call
      ≡ some r)
    × IsRight reads_three prints no_pattern 4 read_schema loose_call r
unfolding depth is_free get
validate_tool_call-IsRight_example =
    validate_tool_call-IsRight reads_three prints no_pattern 4 read_schema loose_call refl

-- A text where a number belongs is coerced.
prepared_run :
    validate_tool_call reads_three prints no_pattern 2 read_schema loose_call
    ≡ some (prepared (record loose_call { arguments = some (obj read_arguments) }))
unfolding validate get check_call check_schema all_of check_any_of check_one_of check_not check_rest
    check_named type_name check_type check_object check_members check_member missing_from
    check_additional check_const check_enum check_number check_string schema_list schema_types
    schema_number string_list is_json_number ◌*ℤ◌ validate_tool_call coerce_primitive coerce_number
    coerce_integer coerce_boolean coerce_string coerce_null coerce_types coerce_to coerce_all_of
    coerce_any_of coerce_member coerce_members coerce_object coerce_array coerce_call
    coerce_with_json_schema normalize_edit_arguments contains encodes
prepared_run = refl

coerced_text : coerce_primitive reads_three prints (str "3") "integer" ≡ some (num (whole 3))
unfolding coerce_primitive coerce_integer
coerced_text = refl

coerce_primitive-typed_example :
    (matches_json_type (str "3") "integer" ≡ false)
    × (matches_json_type (num (whole 3)) (made_type "integer") ≡ true)
coerce_primitive-typed_example =
    coerce_primitive-typed reads_three prints (str "3") (num (whole 3)) "integer" coerced_text

-- The text of an infinity is made a number by the coercion to an integer, not by that to a number.
infinite_text :
    (coerce_primitive reads_three prints (str "Inf") "integer"
      ≡ some (num (record (whole 1) { form = infinite })))
    × (coerce_primitive reads_three prints (str "Inf") "number" ≡ none)
unfolding coerce_primitive coerce_integer coerce_number
infinite_text = (refl, refl)

-- A text that ParseFloat reads and JSON does not allow: encoding the arguments fails.
abbrev signed_call : ToolCall
signed_call = record loose_call {
  arguments = some (obj (field "path" (str "a.go") (field "limit" (str "+5") end)));
}

abbrev number_schema : Fields
number_schema =
    field "type" (str "object") (field "properties" (obj (field "limit" (typed "number") end)) end)

signed_run :
    validate_tool_call reads_three prints no_pattern 2 number_schema signed_call ≡ some not_encoded
unfolding validate get check_call check_schema all_of check_any_of check_one_of check_not check_rest
    check_named type_name check_type check_object check_members check_member missing_from
    check_additional check_const check_enum check_number check_string schema_list schema_types
    schema_number string_list is_json_number ◌*ℤ◌ validate_tool_call coerce_primitive coerce_number
    coerce_integer coerce_boolean coerce_string coerce_null coerce_types coerce_to coerce_all_of
    coerce_any_of coerce_member coerce_members coerce_object coerce_array coerce_call
    coerce_with_json_schema normalize_edit_arguments contains encodes
signed_run = refl
