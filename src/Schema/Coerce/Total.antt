-- ===== src/Schema/Coerce/Total.antt =====
-- Termination of coerceWithJSONSchema of internal/engine/tool_validation.go.
use ergo_agent.Prelude.{
  ℕ, zero, suc, String, Bool, true, false, ◌≡◌, refl, Option, some, none, List, [], ◌∷◌, is_some,
  value_or, arith, contains,
}
use ergo_agent.Json.{Number, Value, arr, obj, Items, nil, cons, Fields, end, field, get}
use ergo_agent.Schema.{Problem}
use ergo_agent.Schema.Values.{object?, schema_list, schema_types}
use ergo_agent.Schema.Fuel.{
  is_good, are_good, object?-good, schema_list-good, properties-good, good-zero,
}
use ergo_agent.Schema.Total.{bind-total, validate-is_some}
use ergo_agent.Schema.Coerce.{
  coerce_all_of, coerce_any_of, coerce_member, coerce_members, coerce_object, coerce_each,
  coerce_tuple, coerce_items, coerce_array, only_if, coerce_to, coerce_call,
  coerce_with_json_schema,
}

only_if-total :
    (test : Bool) (f : Value → Option Value) (v : Value)
    → is_some (f v) ≡ true
    → is_some (only_if test f v) ≡ true
only_if-total true f v h = h
only_if-total false f v h = refl

module _ (parse_float : String → Option Number) (number_text : Number → String)
    (check : Fields → Value → Option (List Problem)) (coerce : Value → Fields → Option Value)
    (n : ℕ) (checks : (s : Fields) (v : Value) → is_good n s ≡ true → is_some (check s v) ≡ true)
    (total : (v : Value) (s : Fields) → is_good n s ≡ true → is_some (coerce v s) ≡ true) where
  coerce_all_of-total :
      (schemas : List Fields) (v : Value)
      → are_good n schemas ≡ true
      → is_some (coerce_all_of parse_float number_text check coerce schemas v) ≡ true
  unfolding coerce_all_of
  coerce_all_of-total [] v g = refl
  coerce_all_of-total (s ∷ schemas) v g =
      bind-total (coerce v s) _ (total v s (ground arith))
        λ w. coerce_all_of-total schemas w (ground arith)

  coerce_any_of-total :
      (schemas : List Fields) (v : Value)
      → are_good n schemas ≡ true
      → is_some (coerce_any_of parse_float number_text check coerce schemas v) ≡ true
  unfolding coerce_any_of
  coerce_any_of-total [] v g = refl
  coerce_any_of-total (s ∷ schemas) v g =
      let rest = coerce_any_of-total schemas v (ground arith) in
      bind-total (coerce v s) _ (total v s (ground arith)) λ candidate.
        bind-total (check s candidate) _ (checks s candidate (ground arith))
          λ ps. tried ps candidate schemas v rest
    where
      tried :
          (ps : List Problem) (candidate : Value) (schemas : List Fields) (v : Value)
          → is_some (coerce_any_of parse_float number_text check coerce schemas v) ≡ true
          → is_some (elim ps [
            | [] ↦ some candidate
            | p ∷ qs ↦ coerce_any_of parse_float number_text check coerce schemas v
          ])
            ≡ true
      tried [] candidate schemas v h = refl
      tried (p ∷ qs) candidate schemas v h = h

  coerce_each-total :
      (s : Fields) (vs : Items)
      → is_good n s ≡ true
      → is_some (coerce_each parse_float number_text check coerce s vs) ≡ true
  unfolding coerce_each
  coerce_each-total s nil g = refl
  coerce_each-total s (cons v vs) g = bind-total (coerce v s) _ (total v s g) λ w.
      bind-total (coerce_each parse_float number_text check coerce s vs) _
        (coerce_each-total s vs g) λ rest. refl

  coerce_tuple-total :
      (schemas : List Fields) (vs : Items)
      → are_good n schemas ≡ true
      → is_some (coerce_tuple parse_float number_text check coerce schemas vs) ≡ true
  unfolding coerce_tuple
  coerce_tuple-total [] vs g = refl
  coerce_tuple-total (s ∷ schemas) nil g = refl
  coerce_tuple-total (s ∷ schemas) (cons v vs) g =
      let rest = coerce_tuple-total schemas vs (ground arith) in
      bind-total (coerce v s) _ (total v s (ground arith)) λ w.
        bind-total (coerce_tuple parse_float number_text check coerce schemas vs) _ rest
          λ others. refl

  coerce_items-total :
      (list : List Fields) (single : Option Fields) (vs : Items)
      → are_good n list ≡ true
      → ((s : Fields) → single ≡ some s → is_good n s ≡ true)
      → is_some (coerce_items parse_float number_text check coerce list single vs) ≡ true
  unfolding coerce_items
  coerce_items-total [] none vs g h = refl
  coerce_items-total [] (some s) vs g h = coerce_each-total s vs (h s refl)
  coerce_items-total (s ∷ schemas) single vs g h = coerce_tuple-total (s ∷ schemas) vs g

  coerce_member-total :
      (property additional : Option Value) (v : Value)
      → ((p : Fields) → property ≡ some (obj p) → is_good n p ≡ true)
      → ((s : Fields) → object? additional ≡ some s → is_good n s ≡ true)
      → is_some (coerce_member parse_float number_text check coerce property additional v) ≡ true
  unfolding coerce_member
  coerce_member-total (some (obj p)) additional v g h = total v p (g p refl)
  coerce_member-total (some _) additional v g h = refl
  coerce_member-total none (some (obj s)) v g h = total v s (h s refl)
  coerce_member-total none (some _) v g h = refl
  coerce_member-total none none v g h = refl

  module _ (schema : Fields) (good : is_good (suc n) schema ≡ true) where
    coerce_members-total :
        (fs : Fields)
        → is_some (
            coerce_members parse_float number_text check coerce
              (value_or end (object? (get "properties" schema)))
              (get "additionalProperties" schema)
              fs)
          ≡ true
    unfolding coerce_members
    coerce_members-total end = refl
    coerce_members-total (field k v fs) =
        bind-total _ _
          (coerce_member-total (get k (value_or end (object? (get "properties" schema))))
            (get "additionalProperties" schema) v (λ p e. properties-good n schema good k (obj p) e)
            (object?-good n schema good "additionalProperties"))
          λ w. bind-total _ _ (coerce_members-total fs) λ rest. refl

    coerce_object-total :
        (v : Value) → is_some (coerce_object parse_float number_text check coerce schema v) ≡ true
    unfolding coerce_object
    coerce_object-total (obj fs) = bind-total _ _ (coerce_members-total fs) λ rest. refl
    coerce_object-total _ = refl

    coerce_array-total :
        (v : Value) → is_some (coerce_array parse_float number_text check coerce schema v) ≡ true
    unfolding coerce_array
    coerce_array-total (arr vs) =
        bind-total _ _
          (coerce_items-total (schema_list (get "items" schema)) (object? (get "items" schema)) vs
            (schema_list-good n schema good "items") (object?-good n schema good "items"))
          λ rest. refl
    coerce_array-total _ = refl

    coerce_call-total :
        (v : Value) → is_some (coerce_call parse_float number_text check coerce v schema) ≡ true
    unfolding coerce_call
    coerce_call-total v =
        let types = schema_types (get "type" schema) in
        let objects = coerce_object parse_float number_text check coerce schema in
        let arrays = coerce_array parse_float number_text check coerce schema in
        bind-total _ _ (coerce_all_of-total _ v (schema_list-good n schema good "allOf")) λ a.
          bind-total _ _ (coerce_any_of-total _ a (schema_list-good n schema good "anyOf")) λ b.
            bind-total _ _ (coerce_any_of-total _ b (schema_list-good n schema good "oneOf")) λ c.
              let w = coerce_to parse_float number_text types c in
              bind-total (only_if (contains types "object") objects w) _
                (only_if-total (contains types "object") objects w (coerce_object-total w))
                λ d. only_if-total (contains types "array") arrays d (coerce_array-total d)

module _ (parse_float : String → Option Number) (number_text : Number → String)
    (matches : String → String → Bool) where
  pub coerce_with_json_schema-total :
      (n : ℕ) (v : Value) (schema : Fields)
      → is_good n schema ≡ true
      → is_some (coerce_with_json_schema parse_float number_text matches n v schema) ≡ true
  unfolding coerce_with_json_schema
  coerce_with_json_schema-total zero v schema g = absurd (good-zero schema g)
  coerce_with_json_schema-total (suc n) v schema g =
      coerce_call-total parse_float number_text _ _ n
        (λ s w h. validate-is_some matches n s s w [] h)
        (λ w s h. coerce_with_json_schema-total n w s h) schema g v
