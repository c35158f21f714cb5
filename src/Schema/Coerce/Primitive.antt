-- ===== src/Schema/Coerce/Primitive.antt =====
-- The types of what coercePrimitive of internal/engine/tool_validation.go makes.
use ergo_agent.Prelude.{
  String, Bool, true, false, ◌||◌, ◌≡◌, refl, Option, some, none, ◌∙◌, ◌==◌, if◌then◌else◌, eq_iff,
  Bool-cases, inl, inr, subst, sym, Option-cases,
}
use ergo_agent.Prelude.Text.{is_blank}
use ergo_agent.Json.{is_infinite, Number, Value, null, bool, num, str, arr, obj}
use ergo_agent.Schema.Values.{matches_json_type, is_json_number}
use ergo_agent.Schema.Coerce.{
  whole_of, literal, equals_number, coerce_primitive, coerce_number, coerce_integer, coerce_boolean,
  coerce_string, coerce_null,
}

-- The type of what is made for a type: a whole number may be too large for an integer.
abbrev pub made_type : String → String
made_type kind = if kind == "integer" then "number" else kind

-- A test chooses between a value of the type and none.
made_if :
    (test : Bool) (a w : Value) (kind : String)
    → matches_json_type a kind ≡ true
    → (if test then some a else none) ≡ some w
    → matches_json_type w kind ≡ true
made_if true a w kind h e = subst (λ o. matches_type o ≡ true) e h
  where
    matches_type : Option Value → Bool
    matches_type none = true
    matches_type (some x) = matches_json_type x kind
made_if false a w kind h e = cc e

matches_some :
    (a w : Value) (kind : String)
    → matches_json_type a kind ≡ true
    → some a ≡ some w
    → matches_json_type w kind ≡ true
matches_some a w kind h e = made_if true a w kind h e

module _ (parse_float : String → Option Number) (number_text : Number → String) where
  coerce_number-typed :
      (v w : Value)
      → coerce_number parse_float number_text v ≡ some w
      → matches_json_type w "number" ≡ true
  unfolding coerce_number matches_json_type is_json_number
  coerce_number-typed null w h = matches_some _ w "number" refl h
  coerce_number-typed (bool flag) w h = matches_some _ w "number" refl h
  coerce_number-typed (num n) w h = cc h
  coerce_number-typed (arr vs) w h = cc h
  coerce_number-typed (obj fs) w h = cc h
  coerce_number-typed (str text) w h = elim (Bool-cases (is_blank text)) [
    | inl e ↦ cc (h, e)
    | inr e ↦ elim (Option-cases (parse_float text)) [
      | inl f ↦ cc (rw (e, f) at h)
      | inr (n, f) ↦ elim (Bool-cases (is_infinite n.form)) [
        | inl g ↦ cc (rw (e, f, g) at h)
        | inr g ↦ matches_some (num n) w "number" refl (rw (e, f, g) at h)
      ]
    ]
  ]

  coerce_boolean-typed :
      (v w : Value)
      → coerce_boolean parse_float number_text v ≡ some w
      → matches_json_type w "boolean" ≡ true
  unfolding coerce_boolean matches_json_type
  coerce_boolean-typed null w h = matches_some _ w "boolean" refl h
  coerce_boolean-typed (str text) w h =
      made_if (text == "true" || text == "false") _ w "boolean" refl h
  coerce_boolean-typed (num n) w h =
      made_if (equals_number n 0 || equals_number n 1) _ w "boolean" refl h
  coerce_boolean-typed (bool flag) w h = cc h
  coerce_boolean-typed (arr vs) w h = cc h
  coerce_boolean-typed (obj fs) w h = cc h

  coerce_integer-typed :
      (v w : Value)
      → coerce_integer parse_float number_text v ≡ some w
      → matches_json_type w "number" ≡ true
  unfolding coerce_integer matches_json_type is_json_number
  coerce_integer-typed null w h = matches_some _ w "number" refl h
  coerce_integer-typed (bool flag) w h = matches_some _ w "number" refl h
  coerce_integer-typed (num n) w h = cc h
  coerce_integer-typed (arr vs) w h = cc h
  coerce_integer-typed (obj fs) w h = cc h
  coerce_integer-typed (str text) w h = elim (Bool-cases (is_blank text)) [
    | inl e ↦ cc (rw e at h)
    | inr e ↦ elim (Option-cases (parse_float text)) [
      | inl f ↦ cc (rw (e, f) at h)
      | inr (n, f) ↦ elim (Bool-cases (is_infinite n.form)) [
        | inl i ↦ matches_some (num n) w "number" refl (rw (e, f, i) at h)
        | inr i ↦ elim (Option-cases (whole_of n)) [
          | inl g ↦ cc (rw (e, f, i, g) at h)
          | inr (z, g) ↦ matches_some (literal z) w "number" refl (rw (e, f, i, g) at h)
        ]
      ]
    ]
  ]

  coerce_string-typed :
      (v w : Value)
      → coerce_string parse_float number_text v ≡ some w
      → matches_json_type w "string" ≡ true
  unfolding coerce_string matches_json_type
  coerce_string-typed null w h = matches_some _ w "string" refl h
  coerce_string-typed (num n) w h = matches_some _ w "string" refl h
  coerce_string-typed (bool flag) w h = matches_some _ w "string" refl h
  coerce_string-typed (str text) w h = cc h
  coerce_string-typed (arr vs) w h = cc h
  coerce_string-typed (obj fs) w h = cc h

  coerce_null-typed :
      (v w : Value)
      → coerce_null parse_float number_text v ≡ some w
      → matches_json_type w "null" ≡ true
  unfolding coerce_null matches_json_type
  coerce_null-typed (str text) w h = made_if (text == "") null w "null" refl h
  coerce_null-typed (num n) w h = made_if (equals_number n 0) null w "null" refl h
  coerce_null-typed (bool true) w h = cc h
  coerce_null-typed (bool false) w h = matches_some null w "null" refl h
  coerce_null-typed null w h = cc h
  coerce_null-typed (arr vs) w h = cc h
  coerce_null-typed (obj fs) w h = cc h

  keeps_number :
      (v : Value) (integer : Bool)
      → is_json_number v integer ≡ true
      → (coerce_number parse_float number_text v ≡ none)
        × (coerce_integer parse_float number_text v ≡ none)
  unfolding coerce_number coerce_integer is_json_number
  keeps_number (num n) integer h = (refl, refl)
  keeps_number _ integer h = cc h

  -- What the coercion to one type does.
  abbrev Typed : String → Type 0
  Typed kind =
      (v w : Value)
      → (matches_json_type v kind ≡ true → coerce_primitive parse_float number_text v kind ≡ none)
        × (coerce_primitive parse_float number_text v kind ≡ some w
            → matches_json_type w (made_type kind) ≡ true)

  at_number : Typed "number"
  unfolding coerce_primitive matches_json_type
  at_number v w = (λ h. (keeps_number v false h).0, λ h. coerce_number-typed v w h)

  at_integer : Typed "integer"
  unfolding coerce_primitive matches_json_type
  at_integer v w = (λ h. (keeps_number v true h).1, λ h. coerce_integer-typed v w h)

  at_boolean : Typed "boolean"
  unfolding coerce_primitive matches_json_type coerce_boolean
  at_boolean (bool flag) w = (λ h. refl, λ h. coerce_boolean-typed (bool flag) w h)
  at_boolean v w = (λ h. cc, λ h. coerce_boolean-typed v w h)

  at_string : Typed "string"
  unfolding coerce_primitive matches_json_type coerce_string
  at_string (str text) w = (λ h. refl, λ h. coerce_string-typed (str text) w h)
  at_string v w = (λ h. cc, λ h. coerce_string-typed v w h)

  at_null : Typed "null"
  unfolding coerce_primitive matches_json_type coerce_null
  at_null null w = (λ h. refl, λ h. coerce_null-typed null w h)
  at_null v w = (λ h. cc, λ h. coerce_null-typed v w h)

  at_kind : (name kind : String) → Typed name → (kind == name) ≡ true → Typed kind
  at_kind name kind t e = subst Typed (sym ((eq_iff kind name).0 e)) t

  absurd_some : (w : Value) → none ≡ some w → ⊥
  absurd_some w h = cc h

  stays :
      (kind : String) (v : Value)
      → (kind == "number") ≡ false
      → (kind == "integer") ≡ false
      → (kind == "boolean") ≡ false
      → (kind == "string") ≡ false
      → (kind == "null") ≡ false
      → coerce_primitive parse_float number_text v kind ≡ none
  unfolding coerce_primitive
  stays kind v a b c d e = rw (a, b, c, d, e)

  at_every_kind : (kind : String) → Typed kind
  at_every_kind kind = elim (Bool-cases (kind == "number")) [
    | inl e ↦ at_kind "number" kind at_number e
    | inr a ↦ elim (Bool-cases (kind == "integer")) [
      | inl e ↦ at_kind "integer" kind at_integer e
      | inr b ↦ elim (Bool-cases (kind == "boolean")) [
        | inl e ↦ at_kind "boolean" kind at_boolean e
        | inr c ↦ elim (Bool-cases (kind == "string")) [
          | inl e ↦ at_kind "string" kind at_string e
          | inr d ↦ elim (Bool-cases (kind == "null")) [
            | inl e ↦ at_kind "null" kind at_null e
            | inr e ↦ λ v w. (
              λ h. stays kind v a b c d e,
              λ h. absurd (absurd_some w (sym (stays kind v a b c d e) ∙ h)),
            )
          ]
        ]
      ]
    ]
  ]

  -- coercePrimitive changes only a value that is not of the type that it is coerced to, and makes
  -- one of that type; for an integer, it makes a number, which may be too large for one or an
  -- infinity.
  pub coerce_primitive-typed :
      (v w : Value) (kind : String)
      → coerce_primitive parse_float number_text v kind ≡ some w
      → (matches_json_type v kind ≡ false) × (matches_json_type w (made_type kind) ≡ true)
  coerce_primitive-typed v w kind h = elim (Bool-cases (matches_json_type v kind)) [
    | inl e ↦ absurd (absurd_some w (sym ((at_every_kind kind v w).0 e) ∙ h))
    | inr e ↦ (e, (at_every_kind kind v w).1 h)
  ]
