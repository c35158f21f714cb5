-- ===== src/Schema/Total.antt =====
-- Termination of the parts of validateSchemaValueAt of internal/engine/tool_validation.go.
use ergo_agent.Prelude.{
  ℕ, zero, suc, ◌+◌, String, Bool, true, false, ◌≡◌, refl, ap, ◌∙◌, Option, some, none, List, [],
  ◌∷◌, is_some, some_of, bind, value_or, arith, Option-cases, inl, inr,
}
use ergo_agent.Json.{Value, bool, arr, obj, Items, nil, cons, Fields, end, field, get, string?}
use ergo_agent.Schema.{
  Problem, PathTo, and_then, Checker, all_of, passes, any_match, count_matches, check_any_of,
  check_one_of, check_not, check_additional, check_member, check_members, check_object, check_each,
  check_tuple, check_items, check_array, check_type, check_named, check_rest, check_schema,
  check_call, validate, key, index, type_name,
}
use ergo_agent.Schema.Values.{object?, schema_list, schema_types}
use ergo_agent.Schema.Fuel.{
  is_good, are_good, object?-good, schema_list-good, properties-good, good-no_reference, good-zero,
}

absurd_test : true ≡ false → ⊥
absurd_test h = cc

and_then-total :
    (a b : Option (List Problem))
    → is_some a ≡ true
    → is_some b ≡ true
    → is_some (and_then a b) ≡ true
and_then-total none b h k = cc
and_then-total (some ps) none h k = cc
and_then-total (some ps) (some qs) h k = refl

and_then-some :
    (a : Option (List Problem)) (qs : List Problem)
    → is_some a ≡ true
    → is_some (and_then a (some qs)) ≡ true
and_then-some none qs h = cc
and_then-some (some ps) qs h = refl

pub bind-total :
    {A B : Type 0}
    → (o : Option A) (f : A → Option B) → is_some o ≡ true
    → ((a : A) → is_some (f a) ≡ true)
    → is_some (bind o f) ≡ true
bind-total none f h k = cc
bind-total (some a) f h k = k a

module _ (matches : String → String → Bool) (check : Checker) (n : ℕ)
    (total : (s : Fields) (v : Value) (path : PathTo)
      → is_good n s ≡ true
      → is_some (check s v path) ≡ true) where
  passes-total :
      (s : Fields) (v : Value) (path : PathTo)
      → is_good n s ≡ true
      → is_some (passes matches check s v path) ≡ true
  passes-total s v path g = bind-total (check s v path) _ (total s v path g) (λ ps. refl)

  all_of-total :
      (schemas : List Fields) (v : Value) (path : PathTo)
      → are_good n schemas ≡ true
      → is_some (all_of matches check schemas v path) ≡ true
  unfolding all_of
  all_of-total [] v path g = refl
  all_of-total (s ∷ schemas) v path g =
      and_then-total (check s v path) (all_of matches check schemas v path)
        (total s v path (ground arith)) (all_of-total schemas v path (ground arith))

  any_match-total :
      (schemas : List Fields) (v : Value) (path : PathTo)
      → are_good n schemas ≡ true
      → is_some (any_match matches check schemas v path) ≡ true
  unfolding any_match
  any_match-total [] v path g = refl
  any_match-total (s ∷ schemas) v path g =
      bind-total (passes matches check s v path) _ (passes-total s v path (ground arith))
        λ b. ground (arith, any_match-total schemas v path (ground arith))

  count_matches-total :
      (schemas : List Fields) (v : Value) (path : PathTo)
      → are_good n schemas ≡ true
      → is_some (count_matches matches check schemas v path) ≡ true
  unfolding count_matches
  count_matches-total [] v path g = refl
  count_matches-total (s ∷ schemas) v path g =
      bind-total (passes matches check s v path) _ (passes-total s v path (ground arith)) λ b.
        bind-total (count_matches matches check schemas v path) _
          (count_matches-total schemas v path (ground arith)) (λ k. refl)

  check_any_of-total :
      (schemas : List Fields) (v : Value) (path : PathTo)
      → are_good n schemas ≡ true
      → is_some (check_any_of matches check schemas v path) ≡ true
  unfolding check_any_of
  check_any_of-total [] v path g = refl
  check_any_of-total (s ∷ schemas) v path g =
      bind-total (any_match matches check (s ∷ schemas) v path) _
        (any_match-total (s ∷ schemas) v path g) (λ b. refl)

  check_one_of-total :
      (schemas : List Fields) (v : Value) (path : PathTo)
      → are_good n schemas ≡ true
      → is_some (check_one_of matches check schemas v path) ≡ true
  unfolding check_one_of
  check_one_of-total [] v path g = refl
  check_one_of-total (s ∷ schemas) v path g =
      bind-total (count_matches matches check (s ∷ schemas) v path) _
        (count_matches-total (s ∷ schemas) v path g) (λ b. refl)

  check_each-total :
      (s : Fields) (i : ℕ) (vs : Items) (path : PathTo)
      → is_good n s ≡ true
      → is_some (check_each matches check s i vs path) ≡ true
  unfolding check_each
  check_each-total s i nil path g = refl
  check_each-total s i (cons v vs) path g =
      and_then-total (check s v (index i ∷ path)) _ (total s v (index i ∷ path) g)
        (check_each-total s (i + 1) vs path g)

  check_tuple-total :
      (schemas : List Fields) (i : ℕ) (vs : Items) (path : PathTo)
      → are_good n schemas ≡ true
      → is_some (check_tuple matches check schemas i vs path) ≡ true
  unfolding check_tuple
  check_tuple-total [] i vs path g = refl
  check_tuple-total (s ∷ schemas) i nil path g = refl
  check_tuple-total (s ∷ schemas) i (cons v vs) path g =
      and_then-total (check s v (index i ∷ path)) _ (total s v (index i ∷ path) (ground arith))
        (check_tuple-total schemas (i + 1) vs path (ground arith))

  check_items-total :
      (list : List Fields) (single : Option Fields) (vs : Items) (path : PathTo)
      → are_good n list ≡ true
      → ((s : Fields) → single ≡ some s → is_good n s ≡ true)
      → is_some (check_items matches check list single vs path) ≡ true
  unfolding check_items
  check_items-total [] none vs path g h = refl
  check_items-total [] (some s) vs path g h = check_each-total s 0 vs path (h s refl)
  check_items-total (s ∷ schemas) single vs path g h = check_tuple-total (s ∷ schemas) 0 vs path g

  check_additional-total :
      (o : Option Value) (v : Value) (path : PathTo)
      → ((s : Fields) → object? o ≡ some s → is_good n s ≡ true)
      → is_some (check_additional matches check o v path) ≡ true
  unfolding check_additional
  check_additional-total (some (obj s)) v path h = total s v path (h s refl)
  check_additional-total (some (bool b)) v path h = refl
  check_additional-total _ v path h = refl

  module _ (schema : Fields) (good : is_good (suc n) schema ≡ true) where
    check_not-total :
        (v : Value) (path : PathTo)
        → is_some (check_not matches check (object? (get "not" schema)) v path) ≡ true
    unfolding check_not
    check_not-total v path = elim (Option-cases (object? (get "not" schema))) [
      | inl e ↦ cc e
      | inr (s, e) ↦
          ap (λ o. is_some (check_not matches check o v path)) e
          ∙ bind-total (passes matches check s v path) _
              (passes-total s v path (object?-good n schema good "not" s e)) (λ b. refl)
    ]

    check_member-total :
        (k : String) (v : Value) (path : PathTo)
        → is_some (check_member matches check schema k v path) ≡ true
    unfolding check_member
    check_member-total k v path =
        elim (Option-cases (get k (value_or end (object? (get "properties" schema))))) [
          | inl e ↦ cc (
            e,
            check_additional-total (get "additionalProperties" schema) v (key k ∷ path)
                (object?-good n schema good "additionalProperties"),
          )
          | inr (s, e) ↦ cc (
            e,
            total (value_or end (object? (some s))) v (key k ∷ path)
                (properties-good n schema good k s e),
          )
        ]

    check_members-total :
        (object : Fields) (path : PathTo)
        → is_some (check_members matches check schema object path) ≡ true
    unfolding check_members
    check_members-total end path = refl
    check_members-total (field k v fs) path =
        and_then-total (check_member matches check schema k v path) _ (check_member-total k v path)
          (check_members-total fs path)

    check_object-total :
        (v : Value) (path : PathTo) → is_some (check_object matches check schema v path) ≡ true
    unfolding check_object
    check_object-total (obj fs) path =
        bind-total (check_members matches check schema fs path) _ (check_members-total fs path)
          (λ ps. refl)
    check_object-total _ path = refl

    check_array-total :
        (v : Value) (path : PathTo) → is_some (check_array matches check schema v path) ≡ true
    unfolding check_array
    check_array-total (arr vs) path =
        bind-total
          (check_items matches check (schema_list (get "items" schema))
            (object? (get "items" schema)) vs path)
          _
          (check_items-total (schema_list (get "items" schema)) (object? (get "items" schema)) vs
            path (schema_list-good n schema good "items") (object?-good n schema good "items"))
          (λ ps. refl)
    check_array-total _ path = refl

    check_type-total :
        (kind : String) (v : Value) (path : PathTo)
        → is_some (check_type matches check kind schema v path) ≡ true
    unfolding check_type
    check_type-total kind v path =
        ground (arith, check_object-total v path, check_array-total v path)

    check_rest-total :
        (v : Value) (path : PathTo) → is_some (check_rest matches check schema v path) ≡ true
    unfolding check_rest check_named
    check_rest-total v path =
        elim (Option-cases (type_name matches check (schema_types (get "type" schema)) v)) [
          | inl e ↦ cc e
          | inr (kind, e) ↦
              ap (λ o. is_some (check_named matches check o schema v path)) e
              ∙ and_then-some (check_type matches check kind schema v path) _
                  (check_type-total kind v path)
        ]

    check_schema-total :
        (v : Value) (path : PathTo) → is_some (check_schema matches check schema v path) ≡ true
    unfolding check_schema
    check_schema-total v path =
        and_then-total _ _ (all_of-total _ v path (schema_list-good n schema good "allOf")) (
          and_then-total _ _ (check_any_of-total _ v path (schema_list-good n schema good "anyOf"))
            (and_then-total _ _
              (check_one_of-total _ v path (schema_list-good n schema good "oneOf"))
              (and_then-total _ _ (check_not-total v path) (check_rest-total v path))))

module _ (matches : String → String → Bool) where
  pub validate-is_some :
      (n : ℕ) (root schema : Fields) (v : Value) (path : PathTo)
      → is_good n schema ≡ true
      → is_some (validate matches n root schema v path) ≡ true
  unfolding validate check_call
  validate-is_some zero root schema v path g = absurd (good-zero schema g)
  validate-is_some (suc n) root schema v path g =
      elim (Option-cases (string? (get "$ref" schema))) [
        | inl e ↦ cc (
          e,
          check_schema-total matches (validate matches n root) n
              (λ s w p h. validate-is_some n root s w p h) schema g v path,
        )
        | inr (s, e) ↦ absurd (absurd_test (cc (e, good-no_reference (suc n) schema g)))
      ]

  -- For a schema whose nesting is less deep than n and in which no object has a text under $ref, n
  -- calls deep are enough for validateSchemaValueAt to return, whatever the value, the root and the
  -- path.
  pub validate-total :
      (n : ℕ) (root schema : Fields) (v : Value) (path : PathTo)
      → is_good n schema ≡ true
      → (ps : List Problem) × (validate matches n root schema v path ≡ some ps)
  validate-total n root schema v path g =
      some_of (validate matches n root schema v path) (validate-is_some n root schema v path g)
