-- ===== src/Schema.antt =====
-- internal/engine/tool_validation.go: validateSchemaValueAt. Schemas and values are decoded JSON, so
-- that a schema list is always of type []any. A problem stands for the text of an error, and a
-- path for the text that begins with $.
pub mod Values
pub mod References
pub mod Accepted
pub mod Fuel
pub mod Total
pub mod Coerce
use Prim.Native.String.{count}
use ergo_agent.Prelude.{
  ℕ, zero, suc, ◌+◌, String, Bool, true, false, not, ◌&&◌, ◌||◌, Option, none, some, List, [], ◌∷◌,
  ◌++◌, ◌==◌, eqb, ltb, leb, if◌then◌else◌, value_or, is_some, bind, length, get_elem?, contains,
}
use ergo_agent.Prelude.Int.{ℤ, pos, ltb_ℤ}
use ergo_agent.Json.{
  plain, Number, Value, null, bool, num, str, arr, obj, Items, nil, cons, Fields, end, field, get,
  string?,
}
use ergo_agent.Schema.Values.{
  object?, array?, bool?, is_null, schema_list, string_list, schema_types, schema_number,
  schema_int, schema_bool, is_json_number, matches_json_type, lt_number, is_off_multiple,
  size_fields, size_items, equal_normalized, equal_literally, resolve_local_schema_ref,
}

pub data Step : Type 0 where
  key : String → Step
  index : ℕ → Step

-- The innermost step first.
abbrev pub PathTo : Type 0
PathTo = List Step

pub data Kind : Type 0 where
  unresolved no_match : String → Kind
  matches_none matches_not_one forbidden not_const not_in_enum duplicate missing unexpected : Kind
  expected : List String → Kind
  at_least at_most more_than less_than multiple_of : Number → Kind
  items_at_least items_at_most : ℤ → Kind

pub record Problem : Type 0 where
  pub path : PathTo
  pub kind : Kind

abbrev pub one : PathTo → Kind → List Problem
one path kind = record { path = path; kind = kind } ∷ []

-- if test { errors = append(errors, …) }
abbrev pub when : Bool → PathTo → Kind → List Problem
when test path kind = if test then one path kind else []

-- A bound that the schema may set.
abbrev pub when_bound : Option Number → (Number → Bool) → (Number → Kind) → PathTo → List Problem
when_bound none test kind path = []
when_bound (some n) test kind path = when (test n) path (kind n)

abbrev pub whole : ℕ → Number
whole n = record { mantissa = pos n; scale = 0; form = plain }

abbrev pub le_number : Number → Number → Bool
le_number a b = not (lt_number b a)

-- The calls of a run that may not end: `none` when the fuel is used up.
abbrev pub Checker : Type 0
Checker = Fields → Value → PathTo → Option (List Problem)

abbrev pub and_then : Option (List Problem) → Option (List Problem) → Option (List Problem)
and_then a b = bind a λ ps. bind b λ qs. some (ps ++ qs)

-- `matches` is regexp.Compile and MatchString: false also for a pattern that does not compile.
module _ (matches : String → String → Bool) (check : Checker) where
  unfoldable pub all_of : List Fields → Value → PathTo → Option (List Problem)
  all_of [] v path = some []
  all_of (s ∷ schemas) v path = and_then (check s v path) (all_of schemas v path)

  abbrev pub passes : Fields → Value → PathTo → Option Bool
  passes s v path = bind (check s v path) λ ps. some (eqb (length ps) 0)

  -- The loop over anyOf, which stops at the first match.
  unfoldable pub any_match : List Fields → Value → PathTo → Option Bool
  any_match [] v path = some false
  any_match (s ∷ schemas) v path =
      bind (passes s v path) λ b. elim b [ true ↦ some true | false ↦ any_match schemas v path ]

  unfoldable pub count_matches : List Fields → Value → PathTo → Option ℕ
  count_matches [] v path = some 0
  count_matches (s ∷ schemas) v path =
      bind (passes s v path)
        λ b. bind (count_matches schemas v path) λ n. some (if b then n + 1 else n)

  unfoldable pub check_any_of : List Fields → Value → PathTo → Option (List Problem)
  check_any_of [] v path = some []
  check_any_of (s ∷ schemas) v path =
      bind (any_match (s ∷ schemas) v path) λ b. some (when (not b) path matches_none)

  unfoldable pub check_one_of : List Fields → Value → PathTo → Option (List Problem)
  check_one_of [] v path = some []
  check_one_of (s ∷ schemas) v path =
      bind (count_matches (s ∷ schemas) v path)
        λ n. some (when (not (eqb n 1)) path matches_not_one)

  unfoldable pub check_not : Option Fields → Value → PathTo → Option (List Problem)
  check_not none v path = some []
  check_not (some s) v path = bind (passes s v path) λ b. some (when b path forbidden)

  unfoldable pub missing_from : Fields → List String → PathTo → List Problem
  missing_from object [] path = []
  missing_from object (r ∷ required) path =
      when (not (is_some (get r object))) (key r ∷ path) missing
      ++ missing_from object required path

  -- A member that `properties` does not name.
  unfoldable pub check_additional : Option Value → Value → PathTo → Option (List Problem)
  check_additional (some (bool b)) v path = some (when (not b) path unexpected)
  check_additional (some (obj s)) v path = check s v path
  check_additional _ v path = some []

  unfoldable pub check_member : Fields → String → Value → PathTo → Option (List Problem)
  check_member schema k v path = elim (get k (value_or end (object? (get "properties" schema)))) [
    | none ↦ check_additional (get "additionalProperties" schema) v (key k ∷ path)
    | some s ↦ check (value_or end (object? (some s))) v (key k ∷ path)
  ]

  unfoldable pub check_members : Fields → Fields → PathTo → Option (List Problem)
  check_members schema end path = some []
  check_members schema (field k v fs) path =
      and_then (check_member schema k v path) (check_members schema fs path)

  unfoldable pub check_object : Fields → Value → PathTo → Option (List Problem)
  check_object schema (obj object) path = bind (check_members schema object path) λ ps. some (
      missing_from object (string_list (get "required" schema)) path
      ++ ps
      ++ when_bound (schema_number (get "minProperties" schema))
          (λ n. lt_number (whole (size_fields object)) n) at_least path
      ++ when_bound (schema_number (get "maxProperties" schema))
          (λ n. lt_number n (whole (size_fields object))) at_most path)
  check_object schema _ path = some (one path (expected ("object" ∷ [])))

  -- The loop over the earlier items, for each item of the array.
  unfoldable pub duplicates_of : Value → ℕ → List Value → PathTo → List Problem
  duplicates_of v i [] path = []
  duplicates_of v i (w ∷ previous) path =
      when (equal_literally v w) (index i ∷ path) duplicate ++ duplicates_of v i previous path

  unfoldable pub duplicates : ℕ → List Value → Items → PathTo → List Problem
  duplicates i previous nil path = []
  duplicates i previous (cons v vs) path =
      duplicates_of v i previous path ++ duplicates (i + 1) (previous ++ v ∷ []) vs path

  unfoldable pub check_each : Fields → ℕ → Items → PathTo → Option (List Problem)
  check_each s i nil path = some []
  check_each s i (cons v vs) path =
      and_then (check s v (index i ∷ path)) (check_each s (i + 1) vs path)

  unfoldable pub check_tuple : List Fields → ℕ → Items → PathTo → Option (List Problem)
  check_tuple [] i vs path = some []
  check_tuple (s ∷ schemas) i nil path = some []
  check_tuple (s ∷ schemas) i (cons v vs) path =
      and_then (check s v (index i ∷ path)) (check_tuple schemas (i + 1) vs path)

  -- The items under a list of schemas, one for each, or else under one schema.
  unfoldable pub check_items : List Fields → Option Fields → Items → PathTo → Option (List Problem)
  check_items [] none vs path = some []
  check_items [] (some s) vs path = check_each s 0 vs path
  check_items (s ∷ schemas) single vs path = check_tuple (s ∷ schemas) 0 vs path

  unfoldable pub check_array : Fields → Value → PathTo → Option (List Problem)
  check_array schema (arr vs) path =
      let minimum = schema_int (get "minItems" schema) in
      let maximum = schema_int (get "maxItems" schema) in
      let n = pos (size_items vs) in
      bind (check_items (schema_list (get "items" schema)) (object? (get "items" schema)) vs path)
        λ ps. some (
          when (ltb_ℤ (pos 0) minimum && ltb_ℤ n minimum) path (items_at_least minimum)
          ++ when (ltb_ℤ (pos 0) maximum && ltb_ℤ maximum n) path (items_at_most maximum)
          ++ (if schema_bool (get "uniqueItems" schema) then duplicates 0 [] vs path else [])
          ++ ps)
  check_array schema _ path = some (one path (expected ("array" ∷ [])))

  unfoldable pub check_string : Fields → Value → PathTo → List Problem
  check_string schema (str text) path =
      let n = whole (count text) in
      when_bound (schema_number (get "minLength" schema)) (lt_number n) at_least path
      ++ when_bound (schema_number (get "maxLength" schema)) (λ m. lt_number m n) at_most path
      ++ elim (string? (get "pattern" schema)) [
        | none ↦ []
        | some pattern ↦ when (not (matches pattern text)) path (no_match pattern)
      ]
  check_string schema _ path = one path (expected ("string" ∷ []))

  unfoldable pub check_number : String → Fields → Value → PathTo → List Problem
  check_number kind schema v path =
      if is_json_number v (kind == "integer")
      then (let n = value_or (whole 0) (schema_number (some v)) in
          when_bound (schema_number (get "minimum" schema)) (lt_number n) at_least path
          ++ when_bound (schema_number (get "maximum" schema)) (λ m. lt_number m n) at_most path
          ++ when_bound (schema_number (get "exclusiveMinimum" schema)) (le_number n) more_than path
          ++ when_bound (schema_number (get "exclusiveMaximum" schema)) (λ m. le_number m n)
              less_than path
          ++ when_bound (schema_number (get "multipleOf" schema)) (is_off_multiple n) multiple_of
              path)
      else one path (expected (kind ∷ []))

  -- The switch on the name of the type.
  unfoldable pub check_type : String → Fields → Value → PathTo → Option (List Problem)
  check_type kind schema v path =
      if kind == "object"
      then check_object schema v path
      else if kind == "array"
      then check_array schema v path
      else if kind == "string"
      then some (check_string schema v path)
      else if kind == "number" || kind == "integer"
      then some (check_number kind schema v path)
      else if kind == "boolean"
      then some (when (not (is_some (bool? (some v)))) path (expected (kind ∷ [])))
      else if kind == "null"
      then some (when (not (is_null v)) path (expected (kind ∷ [])))
      else some []

  unfoldable pub check_const : Option Value → Value → PathTo → List Problem
  check_const none v path = []
  check_const (some w) v path = when (not (equal_normalized w v)) path not_const

  unfoldable pub is_among : Items → Value → Bool
  is_among nil v = false
  is_among (cons w ws) v = equal_normalized w v || is_among ws v

  -- The form []string of an enum, which no decoded JSON has, is left out.
  unfoldable pub check_enum : Option Value → Value → PathTo → List Problem
  check_enum allowed v path = elim (array? allowed) [
    | none ↦ []
    | some vs ↦ when (not (is_among vs v)) path not_in_enum
  ]

  -- The name of the type that the value is checked at: `none` when it has none of several types.
  unfoldable pub first_match : List String → Value → Option String
  first_match [] v = none
  first_match (kind ∷ kinds) v = if matches_json_type v kind then some kind else first_match kinds v

  unfoldable pub type_name : List String → Value → Option String
  type_name [] v = some ""
  type_name (kind ∷ []) v = some kind
  type_name (kind ∷ other ∷ kinds) v = first_match (kind ∷ other ∷ kinds) v

  -- An object or an array is required and the value is none: the function returns at once.
  abbrev pub returns_at : String → Value → Bool
  returns_at kind v =
      (kind == "object" && not (is_some (object? (some v))))
      || (kind == "array" && not (is_some (array? (some v))))

  -- What stands after the combinations of schemas, at the name of the type if it has one.
  unfoldable pub check_named : Option String → Fields → Value → PathTo → Option (List Problem)
  check_named none schema v path = some (one path (expected (schema_types (get "type" schema))))
  check_named (some kind) schema v path = and_then (check_type kind schema v path) (
      some (
        if returns_at kind v
        then []
        else check_const (get "const" schema) v path ++ check_enum (get "enum" schema) v path))

  unfoldable pub check_rest : Fields → Value → PathTo → Option (List Problem)
  check_rest schema v path =
      check_named (type_name (schema_types (get "type" schema)) v) schema v path

  unfoldable pub check_schema : Fields → Value → PathTo → Option (List Problem)
  check_schema schema v path = and_then (all_of (schema_list (get "allOf" schema)) v path) (
      and_then (check_any_of (schema_list (get "anyOf" schema)) v path) (
        and_then (check_one_of (schema_list (get "oneOf" schema)) v path)
          (and_then (check_not (object? (get "not" schema)) v path) (check_rest schema v path))))

  -- One call: a reference is followed, and the rest of the schema is not looked at.
  unfoldable pub check_call : Fields → Fields → Value → PathTo → Option (List Problem)
  check_call root schema v path = elim (string? (get "$ref" schema)) [
    | none ↦ check_schema schema v path
    | some reference ↦ elim (resolve_local_schema_ref root reference) [
      | some resolved ↦ check resolved v path
      | none ↦ some (one path (unresolved reference))
    ]
  ]

module _ (matches : String → String → Bool) where
  unfoldable pub validate : ℕ → Fields → Checker
  validate zero root schema v path = none
  validate (suc fuel) root schema v path =
      check_call matches (validate fuel root) root schema v path
