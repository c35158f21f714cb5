-- ===== src/Json.antt =====
-- The dynamic values of the program, `any` as encoding/json reads and writes it: session entries,
-- tool arguments, schemas. An object holds each key once; the order of its keys is not observable.
pub mod Laws
use ergo_agent.Prelude.{
  ℕ, String, Bool, true, false, Option, none, some, List, [], ◌∷◌, ◌==◌, eqb, ◌&&◌, if◌then◌else◌,
}
use ergo_agent.Prelude.Int.{ℤ}

-- How the literal of a number is spelled: in the plain digits of its mantissa and scale; in another
-- way, with its text, whether strconv.ParseInt reads it, and whether encoding/json writes it, which
-- refuses +5 or 0x10; or as an infinity, of the sign of the mantissa, which no JSON holds.
pub data Form : Type 0 where
  plain : Form
  spelled : String → Bool → Bool → Form
  infinite : Form

-- The number mantissa / 10 ^ scale. Floats are exact decimals here: rounding is not modelled.
pub record Number : Type 0 where
  pub mantissa : ℤ
  pub scale : ℕ
  pub form : Form

-- json.Number.Int64, apart from the range.
abbrev pub whole_form : Form → ℕ → Bool
whole_form plain scale = eqb scale 0
whole_form (spelled text reads writes) scale = reads && eqb scale 0
whole_form infinite scale = false

abbrev pub is_infinite : Form → Bool
is_infinite infinite = true
is_infinite _ = false

-- json.Marshal writes the literal.
abbrev pub encodes_form : Form → Bool
encodes_form plain = true
encodes_form (spelled text reads writes) = writes
encodes_form infinite = false

mutual
  pub data Items : Type 0 where
    nil : Items
    cons : Value → Items → Items

  -- The pairs of an object.
  pub data Fields : Type 0 where
    end : Fields
    field : String → Value → Fields → Fields

  pub data Value : Type 0 where
    null : Value
    obj : Fields → Value
    arr : Items → Value
    str : String → Value
    num : Number → Value
    bool : Bool → Value

-- json.Marshal of a value ends without an error.
unfoldable mutual
  pub encodes : Value → Bool
  encodes (num n) = encodes_form n.form
  encodes (arr vs) = encodes_items vs
  encodes (obj fs) = encodes_fields fs
  encodes _ = true

  pub encodes_items : Items → Bool
  encodes_items nil = true
  encodes_items (cons v vs) = encodes v && encodes_items vs

  pub encodes_fields : Fields → Bool
  encodes_fields end = true
  encodes_fields (field k v fs) = encodes v && encodes_fields fs

-- m[k] with the comma-ok form.
unfoldable pub get : String → Fields → Option Value
get k end = none
get k (field j v fs) = if j == k then some v else get k fs

-- m[k] = v
unfoldable pub put : String → Value → Fields → Fields
put k v end = field k v end
put k v (field j w fs) = if j == k then field k v fs else field j w (put k v fs)

-- for k, v := range payload { m[k] = v }
unfoldable pub put_all : Fields → Fields → Fields
put_all end m = m
put_all (field k v payload) m = put_all payload (put k v m)

-- The type assertion v.(string) with the comma-ok form, at a value that may be missing.
abbrev pub string? : Option Value → Option String
string? (some (str s)) = some s
string? _ = none

-- s, _ := v.(string)
abbrev pub string_or_empty : Option Value → String
string_or_empty (some (str s)) = s
string_or_empty _ = ""

-- v == "text" for a value of type any.
abbrev pub is_text : Option Value → String → Bool
is_text (some (str s)) t = s == t
is_text _ t = false

abbrev pub items_list : Items → List Value
items_list nil = []
items_list (cons v vs) = v ∷ items_list vs
