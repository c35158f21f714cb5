-- ===== src/Schema/Coerce.antt =====
-- internal/engine/tool_validation.go: coerceWithJSONSchema, coercePrimitive and validateToolCall.
-- What strconv reads and writes is a parameter: `parse_float` is the number that
-- strconv.ParseFloat reads, an infinity included and NaN not, in the form of its text, and
-- `number_text` is the literal of a number.
pub mod Total
pub mod Primitive
pub mod Checks
use ergo_agent.Prelude.{
  ℕ, zero, suc, ◌+◌, ◌*◌, ◌/◌, ◌%◌, ◌^◌, String, Bool, true, false, not, ◌&&◌, ◌||◌, Option, none,
  some, List, [], ◌∷◌, ◌==◌, eqb, if◌then◌else◌, value_or, is_some, bind, length, contains,
}
use ergo_agent.Prelude.Int.{ℤ, pos, negsuc, pos_part, neg_part, sub_ℕ}
use ergo_agent.Prelude.Text.{is_blank}
use ergo_agent.Json.{
  plain, is_infinite, encodes, Number, Value, null, bool, num, str, arr, obj, Items, nil, cons,
  Fields, end, field, get, put,
}
use ergo_agent.Message.{ToolCall}
use ergo_agent.Schema.{Checker, Problem, validate}
use ergo_agent.Schema.Values.{
  object?, schema_list, schema_types, schema_number, any_type_matches, same_number,
}

abbrev pub literal : ℤ → Value
literal z = num (record { mantissa = z; scale = 0; form = plain })

-- math.Trunc(number) == number for a finite number, and the whole number that it is.
abbrev pub whole_of : Number → Option ℤ
whole_of n =
    let a = pos_part n.mantissa in
    let b = neg_part n.mantissa in
    let d = 10 ^ n.scale in
    if eqb (a % d) 0 && eqb (b % d) 0 then some (sub_ℕ (a / d) (b / d)) else none

abbrev pub equals_number : Number → ℕ → Bool
equals_number n k = same_number n (record { mantissa = pos k; scale = 0; form = plain })

-- json.Number(text), not for an infinity.
abbrev pub finite_only : Number → Option Value
finite_only n = if is_infinite n.form then none else some (num n)

-- json.Number(strconv.FormatFloat(number, 'f', -1, 64)) for a whole number; math.Trunc leaves an
-- infinity as it is.
abbrev pub whole_only : Number → Option Value
whole_only n = if is_infinite n.form then some (num n) else bind (whole_of n) λ z. some (literal z)

abbrev pub only_if : Bool → (Value → Option Value) → Value → Option Value
only_if test f v = if test then f v else some v

module _ (parse_float : String → Option Number) (number_text : Number → String) where
  -- Each case is `none` when the value stays as it is.
  unfoldable pub coerce_number : Value → Option Value
  coerce_number null = some (literal (pos 0))
  coerce_number (str text) = if is_blank text then none else bind (parse_float text) finite_only
  coerce_number (bool flag) = some (literal (pos (if flag then 1 else 0)))
  coerce_number _ = none

  unfoldable pub coerce_integer : Value → Option Value
  coerce_integer null = some (literal (pos 0))
  coerce_integer (str text) = if is_blank text then none else bind (parse_float text) whole_only
  coerce_integer (bool flag) = some (literal (pos (if flag then 1 else 0)))
  coerce_integer _ = none

  unfoldable pub coerce_boolean : Value → Option Value
  coerce_boolean null = some (bool false)
  coerce_boolean (str text) =
      if text == "true" || text == "false" then some (bool (text == "true")) else none
  coerce_boolean (num n) =
      if equals_number n 0 || equals_number n 1 then some (bool (equals_number n 1)) else none
  coerce_boolean _ = none

  unfoldable pub coerce_string : Value → Option Value
  coerce_string null = some (str "")
  coerce_string (num n) = some (str (number_text n))
  coerce_string (bool flag) = some (str (if flag then "true" else "false"))
  coerce_string _ = none

  unfoldable pub coerce_null : Value → Option Value
  coerce_null (str text) = if text == "" then some null else none
  coerce_null (bool flag) = if flag then none else some null
  coerce_null (num n) = if equals_number n 0 then some null else none
  coerce_null _ = none

  unfoldable pub coerce_primitive : Value → String → Option Value
  coerce_primitive v kind =
      if kind == "number"
      then coerce_number v
      else if kind == "integer"
      then coerce_integer v
      else if kind == "boolean"
      then coerce_boolean v
      else if kind == "string"
      then coerce_string v
      else if kind == "null"
      then coerce_null v
      else none

  -- The loop over the types: the first that changes the value.
  unfoldable pub coerce_types : List String → Value → Value
  coerce_types [] v = v
  coerce_types (kind ∷ kinds) v = elim (coerce_primitive v kind) [
    | some w ↦ w
    | none ↦ coerce_types kinds v
  ]

  unfoldable pub coerce_to : List String → Value → Value
  coerce_to [] v = v
  coerce_to (kind ∷ []) v = coerce_types (kind ∷ []) v
  coerce_to (kind ∷ other ∷ kinds) v =
      if any_type_matches v (kind ∷ other ∷ kinds) then v else coerce_types (kind ∷ other ∷ kinds) v

  -- The calls of a run that may not end: `none` when the fuel is used up.
  module _ (check : Fields → Value → Option (List Problem))
      (coerce : Value → Fields → Option Value) where
    unfoldable pub coerce_all_of : List Fields → Value → Option Value
    coerce_all_of [] v = some v
    coerce_all_of (s ∷ schemas) v = bind (coerce v s) (coerce_all_of schemas)

    -- The first alternative that accepts what it makes of a copy of the value.
    unfoldable pub coerce_any_of : List Fields → Value → Option Value
    coerce_any_of [] v = some v
    coerce_any_of (s ∷ schemas) v = bind (coerce v s) λ candidate.
        bind (check s candidate)
          λ ps. elim ps [ [] ↦ some candidate | p ∷ rest ↦ coerce_any_of schemas v ]

    -- A member of an object, under its property or the additional one.
    unfoldable pub coerce_member : Option Value → Option Value → Value → Option Value
    coerce_member (some (obj property)) additional v = coerce v property
    coerce_member (some other) additional v = some v
    coerce_member none (some (obj schema)) v = coerce v schema
    coerce_member none additional v = some v

    unfoldable pub coerce_members : Fields → Option Value → Fields → Option Fields
    coerce_members properties additional end = some end
    coerce_members properties additional (field k v fs) =
        bind (coerce_member (get k properties) additional v)
          λ w. bind (coerce_members properties additional fs) λ rest. some (field k w rest)

    unfoldable pub coerce_object : Fields → Value → Option Value
    coerce_object schema (obj fs) =
        bind
          (coerce_members (value_or end (object? (get "properties" schema)))
            (get "additionalProperties" schema) fs)
          λ rest. some (obj rest)
    coerce_object schema v = some v

    unfoldable pub coerce_each : Fields → Items → Option Items
    coerce_each schema nil = some nil
    coerce_each schema (cons v vs) =
        bind (coerce v schema) λ w. bind (coerce_each schema vs) λ rest. some (cons w rest)

    unfoldable pub coerce_tuple : List Fields → Items → Option Items
    coerce_tuple [] vs = some vs
    coerce_tuple (s ∷ schemas) nil = some nil
    coerce_tuple (s ∷ schemas) (cons v vs) =
        bind (coerce v s) λ w. bind (coerce_tuple schemas vs) λ rest. some (cons w rest)

    unfoldable pub coerce_items : List Fields → Option Fields → Items → Option Items
    coerce_items [] none vs = some vs
    coerce_items [] (some s) vs = coerce_each s vs
    coerce_items (s ∷ schemas) single vs = coerce_tuple (s ∷ schemas) vs

    unfoldable pub coerce_array : Fields → Value → Option Value
    coerce_array schema (arr vs) =
        bind (coerce_items (schema_list (get "items" schema)) (object? (get "items" schema)) vs)
          λ rest. some (arr rest)
    coerce_array schema v = some v

    unfoldable pub coerce_call : Value → Fields → Option Value
    coerce_call v schema = bind (coerce_all_of (schema_list (get "allOf" schema)) v) λ v.
        bind (coerce_any_of (schema_list (get "anyOf" schema)) v) λ v.
          bind (coerce_any_of (schema_list (get "oneOf" schema)) v) λ v.
            let types = schema_types (get "type" schema) in
            bind (only_if (contains types "object") (coerce_object schema) (coerce_to types v))
              λ v. only_if (contains types "array") (coerce_array schema) v

  module _ (matches : String → String → Bool) where
    unfoldable pub coerce_with_json_schema : ℕ → Value → Fields → Option Value
    coerce_with_json_schema zero v schema = none
    coerce_with_json_schema (suc fuel) v schema =
        coerce_call (λ s candidate. validate matches fuel s s candidate [])
          (coerce_with_json_schema fuel) v schema

-- The arguments of the tool `edit` in their short form.
unfoldable pub remove : String → Fields → Fields
remove k end = end
remove k (field j v fs) = let rest = remove k fs in if j == k then rest else field j v rest

abbrev pub with_edits : Option Value → Option Value → Fields → Fields
with_edits (some old) (some new) fs = remove "newText" (
    remove "oldText"
      (put "edits" (arr (cons (obj (field "oldText" old (field "newText" new end))) nil)) fs))
with_edits _ _ fs = fs

unfoldable pub normalize_edit_arguments : String → Value → Value
normalize_edit_arguments name (obj fs) =
    if name == "edit" && not (is_some (get "edits" fs))
    then obj (with_edits (get "oldText" fs) (get "newText" fs) fs)
    else obj fs
normalize_edit_arguments name v = v

-- The result of validateToolCall: the problems of invalid arguments stand for the text of its error,
-- `not_encoded` for the error of json.Marshal.
pub data Checked : Type 0 where
  not_json : Checked
  problems : List Problem → Checked
  not_encoded : Checked
  prepared : ToolCall → Checked

abbrev pub conclude : ToolCall → Value → List Problem → Checked
conclude call v [] =
    if encodes v then prepared (record call { arguments = some v }) else not_encoded
conclude call v (p ∷ ps) = problems (p ∷ ps)

module _ (parse_float : String → Option Number) (number_text : Number → String)
    (matches : String → String → Bool) where
  -- `none` when the fuel is used up.
  unfoldable pub validate_tool_call : ℕ → Fields → ToolCall → Option Checked
  validate_tool_call fuel parameters call = elim call.arguments [
    | none ↦ some not_json
    | some value ↦
        bind
          (coerce_with_json_schema parse_float number_text matches fuel
            (normalize_edit_arguments call.name value) parameters)
          λ v.
            bind (validate matches fuel parameters parameters v []) λ ps. some (conclude call v ps)
  ]
