-- ===== src/Schema/Accepted.antt =====
-- What validateSchemaValueAt of internal/engine/tool_validation.go accepts at an object schema.
use ergo_agent.Prelude.{
  ℕ, suc, String, Bool, true, false, ◌≡◌, refl, Option, none, some, List, [], ◌∷◌, ◌++◌, ◌==◌,
  eq_iff, is_some, bind, value_or, contains, arith, if◌then◌else◌, Bool-cases, inl, inr,
}
use ergo_agent.Json.{Value, bool, obj, Fields, end, field, get}
use ergo_agent.Schema.{
  Problem, PathTo, and_then, Checker, missing_from, check_additional, check_member, check_members,
  check_object, check_type, check_named, check_rest, check_schema, check_call, validate, key,
  type_name, returns_at, check_const, check_enum,
}
use ergo_agent.Schema.Values.{object?, string_list, schema_types}

append-nil_parts : {A : Type 0} → (a b : List A) → a ++ b ≡ [] → (a ≡ []) × (b ≡ [])
append-nil_parts [] b h = (refl, h)
append-nil_parts (x ∷ a) b h = cc

and_then-accepts :
    (a b : Option (List Problem)) → and_then a b ≡ some [] → (a ≡ some []) × (b ≡ some [])
and_then-accepts none b h = cc
and_then-accepts (some ps) none h = cc
and_then-accepts (some ps) (some qs) h = ground (arith, append-nil_parts ps qs)

module _ (matches : String → String → Bool) (check : Checker) where
  missing_from-accepts :
      (object : Fields) (required : List String) (path : PathTo) (k : String)
      → missing_from matches check object required path ≡ []
      → contains required k ≡ true
      → is_some (get k object) ≡ true
  unfolding missing_from contains
  missing_from-accepts object [] path k h c = cc
  missing_from-accepts object (r ∷ required) path k h c =
      ground (arith, missing_from-accepts object required path k, eq_iff r k)

  check_members-accepts :
      (schema object : Fields) (path : PathTo) (k : String) (w : Value)
      → check_members matches check schema object path ≡ some []
      → get k object ≡ some w
      → check_member matches check schema k w path ≡ some []
  unfolding check_members get
  check_members-accepts schema end path k w h g = cc
  check_members-accepts schema (field j v fs) path k w h g =
      let (now, later) =
        and_then-accepts (check_member matches check schema j v path)
          (check_members matches check schema fs path) h in
      elim (Bool-cases (j == k)) [
        | inl e ↦ cc (now, (eq_iff j k).0 e, g, e)
        | inr e ↦ check_members-accepts schema fs path k w later (cc (g, e))
      ]

  -- What is known of the members of an object when no problem was found.
  pub record IsAccepted (schema object : Fields) (path : PathTo) : Type 0 where
    pub required :
        (k : String)
        → contains (string_list (get "required" schema)) k ≡ true
        → is_some (get k object) ≡ true
    pub declared :
        (k : String) (w : Value)
        → get "additionalProperties" schema ≡ some (bool false)
        → get k object ≡ some w
        → is_some (get k (value_or end (object? (get "properties" schema)))) ≡ true
    pub checked :
        (k : String) (w s : Value)
        → get k object ≡ some w
        → get k (value_or end (object? (get "properties" schema))) ≡ some s
        → check (value_or end (object? (some s))) w (key k ∷ path) ≡ some []

  check_member-declared :
      (schema : Fields) (path : PathTo) (k : String) (w : Value)
      → check_member matches check schema k w path ≡ some []
      → get "additionalProperties" schema ≡ some (bool false)
      → is_some (get k (value_or end (object? (get "properties" schema)))) ≡ true
  unfolding check_member check_additional
  check_member-declared schema path k w h a = ground arith

  check_member-checked :
      (schema : Fields) (path : PathTo) (k : String) (w s : Value)
      → check_member matches check schema k w path ≡ some []
      → get k (value_or end (object? (get "properties" schema))) ≡ some s
      → check (value_or end (object? (some s))) w (key k ∷ path) ≡ some []
  unfolding check_member
  check_member-checked schema path k w s h g = ground arith

  bind-accepts :
      (o : Option (List Problem)) (f : List Problem → List Problem)
      → (bind o λ ps. some (f ps)) ≡ some []
      → (ps : List Problem) × (o ≡ some ps) × (f ps ≡ [])
  bind-accepts none f h = cc
  bind-accepts (some ps) f h = (ps, refl, cc h)

  check_object-accepts :
      (schema : Fields) (v : Value) (path : PathTo)
      → check_object matches check schema v path ≡ some []
      → (object : Fields) × (v ≡ obj object) × IsAccepted schema object path
  unfolding check_object
  check_object-accepts schema (obj object) path h =
      let (ps, e, all) = bind-accepts (check_members matches check schema object path) _ h in
      let (a, b) =
        append-nil_parts
          (missing_from matches check object (string_list (get "required" schema)) path) ps
          (append-nil_parts _ _ (append-nil_parts _ _ all).0).0 in
      let members : check_members matches check schema object path ≡ some [] = cc (e, b) in
      (
        object,
        refl,
        record {
          required =
              λ k c. missing_from-accepts object (string_list (get "required" schema)) path k a c;
          declared = λ k w d g.
              check_member-declared schema path k w
                (check_members-accepts schema object path k w members g) d;
          checked = λ k w s g p.
              check_member-checked schema path k w s
                (check_members-accepts schema object path k w members g) p;
        },
      )
  check_object-accepts schema _ path h = cc

  check_rest-accepts :
      (schema : Fields) (v : Value) (path : PathTo)
      → schema_types (get "type" schema) ≡ "object" ∷ []
      → check_rest matches check schema v path ≡ some []
      → check_object matches check schema v path ≡ some []
  unfolding check_rest check_named check_type type_name
  check_rest-accepts schema v path t h =
      (and_then-accepts (check_object matches check schema v path)
        (some (
          if returns_at matches check "object" v
          then []
          else check_const matches check (get "const" schema) v path
            ++ check_enum matches check (get "enum" schema) v path))
        (cc (h, t))).0

  check_schema-accepts :
      (schema : Fields) (v : Value) (path : PathTo)
      → check_schema matches check schema v path ≡ some []
      → check_rest matches check schema v path ≡ some []
  unfolding check_schema
  check_schema-accepts schema v path h =
      (and_then-accepts _ _
        (and_then-accepts _ _ (and_then-accepts _ _ (and_then-accepts _ _ h).1).1).1).1

module _ (matches : String → String → Bool) where
  -- When validateSchemaValueAt finds no problem at a schema of the type object that is no
  -- reference, the value is an object; each required key is present; if additionalProperties is
  -- false each key is declared in properties; and each member that is declared was checked against
  -- its schema without a problem.
  pub validate-IsAccepted :
      (fuel : ℕ) (root schema : Fields) (v : Value) (path : PathTo)
      → get "$ref" schema ≡ none
      → schema_types (get "type" schema) ≡ "object" ∷ []
      → validate matches (suc fuel) root schema v path ≡ some []
      → (object : Fields) × (v ≡ obj object)
        × IsAccepted matches (validate matches fuel root) schema object path
  unfolding validate check_call
  validate-IsAccepted fuel root schema v path r t h =
      let check = validate matches fuel root in
      check_object-accepts matches check schema v path (
        check_rest-accepts matches check schema v path t
          (check_schema-accepts matches check schema v path (cc (h, r))))
