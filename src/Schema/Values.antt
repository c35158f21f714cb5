-- ===== src/Schema/Values.antt =====
-- internal/engine/tool_validation.go: the readings of schema members, and comparisons.
use ergo_agent.Prelude.{
  ℕ, suc, ◌+◌, ◌-◌, ◌*◌, ◌%◌, ◌^◌, min, String, Bool, true, false, not, ◌&&◌, ◌||◌, Option, none,
  some, List, [], ◌∷◌, ◌==◌, eqb, ltb, if◌then◌else◌, is_some,
}
use ergo_agent.Prelude.Text.{codes}
use ergo_agent.Prelude.Int.{ℤ, pos, negsuc, pos_part, neg_part, ◌*ℤ◌, ltb_ℤ}
use ergo_agent.Json.{
  Form, plain, spelled, infinite, whole_form, is_infinite, Number, Value, null, bool, num, str, arr,
  obj, Items, nil, cons, Fields, end, field, get, string?,
}
use ergo_agent.Message.Codec.{in_int64}

abbrev pub is_null : Value → Bool
is_null null = true
is_null _ = false

abbrev pub bool? : Option Value → Option Bool
bool? (some (bool b)) = some b
bool? _ = none

-- The type assertions v.(map[string]any) and v.([]any).
abbrev pub object? : Option Value → Option Fields
object? (some (obj fs)) = some fs
object? _ = none

abbrev pub array? : Option Value → Option Items
array? (some (arr vs)) = some vs
array? _ = none

abbrev pub schemas_in : Items → List Fields
schemas_in nil = []
schemas_in (cons (obj fs) vs) = fs ∷ schemas_in vs
schemas_in (cons _ vs) = schemas_in vs

unfoldable pub schema_list : Option Value → List Fields
schema_list (some (arr vs)) = schemas_in vs
schema_list _ = []

abbrev pub texts_in : Items → List String
texts_in nil = []
texts_in (cons (str s) vs) = s ∷ texts_in vs
texts_in (cons _ vs) = texts_in vs

unfoldable pub string_list : Option Value → List String
string_list (some (arr vs)) = texts_in vs
string_list _ = []

unfoldable pub schema_types : Option Value → List String
unfolding string_list
schema_types (some (str s)) = s ∷ []
schema_types v = string_list v

unfoldable pub schema_number : Option Value → Option Number
schema_number (some (num n)) = some n
schema_number _ = none

-- strconv.Atoi of the literal: zero unless it is a whole number in range.
unfoldable pub schema_int : Option Value → ℤ
schema_int (some (num n)) =
    if whole_form n.form n.scale && in_int64 n.mantissa then n.mantissa else pos 0
schema_int _ = pos 0

unfoldable pub schema_bool : Option Value → Bool
schema_bool (some (bool b)) = b
schema_bool _ = false

-- A literal with a point is no whole number for json.Number.Int64, nor is an infinity.
unfoldable pub is_json_number : Value → Bool → Bool
is_json_number (num n) true = whole_form n.form n.scale && in_int64 n.mantissa
is_json_number (num n) false = true
is_json_number _ integer = false

unfoldable pub matches_json_type : Value → String → Bool
unfolding is_json_number
matches_json_type v kind =
    if kind == "object"
    then is_some (object? (some v))
    else if kind == "array"
    then is_some (array? (some v))
    else if kind == "string"
    then is_some (string? (some v))
    else if kind == "number"
    then is_json_number v false
    else if kind == "integer"
    then is_json_number v true
    else if kind == "boolean"
    then is_some (bool? (some v))
    else if kind == "null"
    then is_null v
    else false

unfoldable pub any_type_matches : Value → List String → Bool
any_type_matches v [] = false
any_type_matches v (kind ∷ kinds) = matches_json_type v kind || any_type_matches v kinds

abbrev pub scaled : Number → ℕ → ℤ
scaled n k = n.mantissa *ℤ pos (10 ^ k)

-- The place of a number between the infinities.
abbrev pub rank : Number → ℤ
rank n =
    if is_infinite n.form then (if ltb_ℤ n.mantissa (pos 0) then negsuc 0 else pos 1) else pos 0

abbrev pub lt_number : Number → Number → Bool
lt_number a b =
    if is_infinite a.form || is_infinite b.form
    then ltb_ℤ (rank a) (rank b)
    else ltb_ℤ (scaled a b.scale) (scaled b a.scale)

abbrev pub same_number : Number → Number → Bool
same_number a b = not (lt_number a b) && not (lt_number b a)

abbrev pub magnitude : ℤ → ℕ
magnitude z = pos_part z + neg_part z

-- math.Abs(quotient - math.Round(quotient)) > 1e-9, for the quotient of two numbers: false for the
-- NaN that an infinity makes.
unfoldable pub is_off_multiple : Number → Number → Bool
is_off_multiple n multiple =
    let a = magnitude (scaled n multiple.scale) in
    let b = magnitude (scaled multiple n.scale) in
    let r = a % b in
    not (is_infinite n.form || is_infinite multiple.form)
    && not (eqb b 0)
    && ltb b (min r (b - r) * 10 ^ 9)

-- len(object)
unfoldable pub size_fields : Fields → ℕ
size_fields end = 0
size_fields (field k v fs) = suc (size_fields fs)

abbrev pub size_items : Items → ℕ
size_items nil = 0
size_items (cons v vs) = suc (size_items vs)

-- reflect.DeepEqual of two values, with a test for their numbers. The order of the keys of an
-- object is left aside.
module _ (same : Number → Number → Bool) where
  mutual
    pub same_value : Value → Value → Bool
    same_value null null = true
    same_value (bool a) (bool b) = (a && b) || (not a && not b)
    same_value (num a) (num b) = same a b
    same_value (str a) (str b) = a == b
    same_value (arr a) (arr b) = same_items a b
    same_value (obj a) (obj b) = same_members a b && eqb (size_fields a) (size_fields b)
    same_value _ _ = false

    pub same_items : Items → Items → Bool
    same_items nil nil = true
    same_items (cons v vs) (cons w ws) = same_value v w && same_items vs ws
    same_items _ _ = false

    pub same_members : Fields → Fields → Bool
    same_members end b = true
    same_members (field k v fs) b =
        elim (get k b) [ none ↦ false | some w ↦ same_value v w ] && same_members fs b

-- Equality of the texts of two literals.
abbrev pub same_form : Form → Form → Bool → Bool
same_form plain plain same_digits = same_digits
same_form (spelled a r w) (spelled b r' w') same_digits = a == b
same_form infinite infinite same_digits = same_digits
same_form _ _ same_digits = false

abbrev pub same_literal : Number → Number → Bool
same_literal a b =
    same_form a.form b.form (eqb a.scale b.scale && not (lt_number a b) && not (lt_number b a))

-- Equality after `normalizeComparable`, and without it.
unfoldable pub equal_normalized : Value → Value → Bool
equal_normalized a b = same_value same_number a b

unfoldable pub equal_literally : Value → Value → Bool
equal_literally a b = same_value same_literal a b

-- The tokens of a reference: strings.Split at "/", and strings.ReplaceAll of ~1 and then of ~0.
abbrev pub split_slash : List ℕ → List (List ℕ)
split_slash [] = [] ∷ []
split_slash (c ∷ cs) =
    let rest = split_slash cs in
    if eqb c b'/'
    then [] ∷ rest
    else elim rest [ [] ↦ (c ∷ []) ∷ [] | token ∷ tokens ↦ (c ∷ token) ∷ tokens ]

abbrev pub replace_escape : ℕ → ℕ → List ℕ → List ℕ
replace_escape digit by [] = []
replace_escape digit by (c ∷ []) = c ∷ []
replace_escape digit by (c ∷ d ∷ cs) =
    let after = replace_escape digit by cs in
    let rest = replace_escape digit by (d ∷ cs) in
    if eqb c b'~' && eqb d digit then by ∷ after else c ∷ rest

abbrev pub same_codes : List ℕ → List ℕ → Bool
same_codes [] [] = true
same_codes (c ∷ cs) (d ∷ ds) = eqb c d && same_codes cs ds
same_codes _ _ = false

abbrev pub get_codes : List ℕ → Fields → Option Value
get_codes token end = none
get_codes token (field k v fs) = if same_codes (codes k) token then some v else get_codes token fs

unfoldable pub follow : List (List ℕ) → Value → Option Value
follow [] current = some current
follow (token ∷ tokens) current = elim (object? (some current)) [
  | none ↦ none
  | some fs ↦ elim (get_codes (replace_escape b'0' b'~' (replace_escape b'1' b'/' token)) fs) [
    | none ↦ none
    | some v ↦ follow tokens v
  ]
]

abbrev pub after_prefix : List ℕ → Option (List ℕ)
after_prefix (c ∷ d ∷ cs) = if eqb c b'#' && eqb d b'/' then some cs else none
after_prefix _ = none

unfoldable pub resolve_local_schema_ref : Fields → String → Option Fields
resolve_local_schema_ref root reference =
    if reference == "#" then some root else elim (after_prefix (codes reference)) [
      | none ↦ none
      | some rest ↦ object? (follow (split_slash rest) (obj root))
    ]
