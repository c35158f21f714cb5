-- ===== src/Schema/Fuel.antt =====
-- The nesting of the schemas of validateSchemaValueAt in internal/engine/tool_validation.go.
use ergo_agent.Prelude.{
  false, value_or, ℕ, suc, ◌≤◌, max, String, Bool, true, not, ◌&&◌, ◌≡◌, refl, Option, none, some,
  List, [], ◌∷◌, ◌==◌, ltb, is_some, arith, ◌⊎◌, sym, subst, ap, ◌∙◌, Bool-cases, Option-cases, inl,
  inr,
}
use ergo_agent.Json.{Value, arr, obj, Items, nil, cons, Fields, end, field, get, string?}
use ergo_agent.Schema.Values.{object?, schema_list, schemas_in}

-- How deep a value is nested, and whether no object in it has a text under "$ref".
unfoldable mutual
  pub depth : Value → ℕ
  depth (arr vs) = suc (depth_items vs)
  depth (obj fs) = suc (depth_fields fs)
  depth _ = 1

  pub depth_items : Items → ℕ
  depth_items nil = 0
  depth_items (cons v vs) = max (depth v) (depth_items vs)

  pub depth_fields : Fields → ℕ
  depth_fields end = 0
  depth_fields (field k v fs) = max (depth v) (depth_fields fs)

unfoldable mutual
  pub is_free : Value → Bool
  is_free (arr vs) = free_items vs
  is_free (obj fs) = not (is_some (string? (get "$ref" fs))) && free_fields fs
  is_free _ = true

  pub free_items : Items → Bool
  free_items nil = true
  free_items (cons v vs) = is_free v && free_items vs

  pub free_fields : Fields → Bool
  free_fields end = true
  free_fields (field k v fs) = is_free v && free_fields fs

abbrev pub is_good : ℕ → Fields → Bool
is_good n s = ltb (depth_fields s) n && is_free (obj s)

abbrev pub are_good : ℕ → List Fields → Bool
are_good n [] = true
are_good n (s ∷ schemas) = is_good n s && are_good n schemas

depth-pos : (v : Value) → 1 ≤ depth v
unfolding depth
depth-pos (arr vs) = omega arith
depth-pos (obj fs) = omega arith
depth-pos _ = omega arith

and_parts : (a b : Bool) → (a && b) ≡ true → (a ≡ true) × (b ≡ true)
and_parts a b h = ground arith

get-end : (k : String) (v : Value) → get k end ≡ some v → ⊥
unfolding get
get-end k v h = cc

free_items-cons :
    (v : Value) (vs : Items)
    → free_items (cons v vs) ≡ true
    → (is_free v ≡ true) × (free_items vs ≡ true)
unfolding is_free
free_items-cons v vs h = and_parts (is_free v) (free_items vs) h

depth_fields-field :
    (k : String) (v : Value) (fs : Fields)
    → (depth v ≤ depth_fields (field k v fs)) × (depth_fields fs ≤ depth_fields (field k v fs))
unfolding depth
depth_fields-field k v fs = omega arith

depth_items-cons :
    (v : Value) (vs : Items)
    → (depth v ≤ depth_items (cons v vs)) × (depth_items vs ≤ depth_items (cons v vs))
unfolding depth
depth_items-cons v vs = omega arith

free_fields-field :
    (k : String) (v : Value) (fs : Fields)
    → free_fields (field k v fs) ≡ true
    → (is_free v ≡ true) × (free_fields fs ≡ true)
unfolding is_free
free_fields-field k v fs h = and_parts (is_free v) (free_fields fs) h

get-field :
    (k j : String) (v w : Value) (fs : Fields)
    → get k (field j w fs) ≡ some v
    → (v ≡ w) ⊎ (get k fs ≡ some v)
unfolding get
get-field k j v w fs h = elim (Bool-cases (j == k)) [
  | inl e ↦ inl (cc (h, e))
  | inr e ↦ inr (cc (h, e))
]

depth-get :
    (k : String) (fs : Fields) (v : Value)
    → get k fs ≡ some v
    → (depth v ≤ depth_fields fs) × (free_fields fs ≡ true → is_free v ≡ true)
depth-get k end v h = absurd (get-end k v h)
depth-get k (field j w fs) v h = elim (get-field k j v w fs h) [
  | inl e ↦
      subst
        (λ x.
          (depth x ≤ depth_fields (field j w fs))
          × (free_fields (field j w fs) ≡ true → is_free x ≡ true))
        (sym e) ((depth_fields-field j w fs).0, λ f. (free_fields-field j w fs f).0)
  | inr e ↦ (
    omega (arith, depth_fields-field j w fs, (depth-get k fs v e).0),
    λ f. (depth-get k fs v e).1 (free_fields-field j w fs f).1,
  )
]

-- A schema inside a value.
good-obj : (n : ℕ) (s : Fields) → depth (obj s) ≤ n → is_free (obj s) ≡ true → is_good n s ≡ true
unfolding depth
good-obj n s h f = ground arith

schemas_in-first :
    (n : ℕ) (v : Value) (vs : Items)
    → depth v ≤ n
    → is_free v ≡ true
    → are_good n (schemas_in vs) ≡ true
    → are_good n (schemas_in (cons v vs)) ≡ true
schemas_in-first n (obj s) vs h f r = ground (arith, good-obj n s h f)
schemas_in-first n _ vs h f r = r

lt_bound : (d m n : ℕ) → d ≤ m → ltb m (suc n) ≡ true → d ≤ n
lt_bound d m n h l = ground arith

free-fields : (s : Fields) → is_free (obj s) ≡ true → free_fields s ≡ true
unfolding is_free
free-fields s h = (and_parts (not (is_some (string? (get "$ref" s)))) (free_fields s) h).1

object?-some : (o : Option Value) (s : Fields) → object? o ≡ some s → o ≡ some (obj s)
object?-some none s h = cc
object?-some (some (obj t)) s h = cc
object?-some (some _) s h = cc

depth_items-arr : (vs : Items) → depth (arr vs) ≡ suc (depth_items vs)
unfolding depth
depth_items-arr vs = refl

schemas_in-good :
    (n : ℕ) (vs : Items)
    → depth_items vs ≤ n
    → free_items vs ≡ true
    → are_good n (schemas_in vs) ≡ true
schemas_in-good n nil h f = refl
schemas_in-good n (cons v vs) h f =
    let rest =
      schemas_in-good n vs (omega (arith, depth_items-cons v vs)) (free_items-cons v vs f).1 in
    schemas_in-first n v vs (omega (arith, depth_items-cons v vs)) (free_items-cons v vs f).0 rest

schema_list-some :
    (n : ℕ) (v : Value) → depth v ≤ n → is_free v ≡ true → are_good n (schema_list (some v)) ≡ true
unfolding schema_list depth is_free
schema_list-some n (arr vs) h f = schemas_in-good n vs (omega arith) f
schema_list-some n _ h f = refl

le_of : (d m n : ℕ) → d ≤ m → ltb m n ≡ true → d ≤ n
le_of d m n h l = ground arith

pos_of : (d m n : ℕ) → 1 ≤ d → d ≤ m → ltb m n ≡ true → ltb 0 n ≡ true
pos_of d m n p h l = ground arith

good-end : (n : ℕ) → ltb 0 n ≡ true → is_good n end ≡ true
unfolding is_free depth get
good-end n h = cc h

good-value :
    (n m : ℕ) (w : Value)
    → depth w ≤ m
    → ltb m n ≡ true
    → is_free w ≡ true
    → is_good n (value_or end (object? (some w))) ≡ true
good-value n m (obj s) d l f = good-obj n s (le_of (depth (obj s)) m n d l) f
good-value n m w d l f = good-end n (pos_of (depth w) m n (depth-pos w) d l)

pub good-no_reference :
    (n : ℕ) (s : Fields) → is_good n s ≡ true → is_some (string? (get "$ref" s)) ≡ false
unfolding is_free
good-no_reference n s g =
    not-true (is_some (string? (get "$ref" s)))
      (and_parts _ (free_fields s) (and_parts (ltb (depth_fields s) n) (is_free (obj s)) g).1).0
  where
    not-true : (b : Bool) → not b ≡ true → b ≡ false
    not-true true h = cc
    not-true false h = refl

pub good-zero : (s : Fields) → is_good 0 s ≡ true → ⊥
good-zero s g = lt_zero (depth_fields s) (and_parts (ltb (depth_fields s) 0) (is_free (obj s)) g).0
  where
    lt_zero : (m : ℕ) → ltb m 0 ≡ true → ⊥
    lt_zero m h = ground arith

module _ (n : ℕ) (schema : Fields) (good : is_good (suc n) schema ≡ true) where
  -- The value of a member.
  pub good-get :
      (k : String) (v : Value) → get k schema ≡ some v → (depth v ≤ n) × (is_free v ≡ true)
  good-get k v h =
      let (d, f) = depth-get k schema v h in
      let (a, b) = and_parts (ltb (depth_fields schema) (suc n)) (is_free (obj schema)) good in
      (lt_bound (depth v) (depth_fields schema) n d a, f (free-fields schema b))

  pub object?-good :
      (k : String) (s : Fields) → object? (get k schema) ≡ some s → is_good n s ≡ true
  object?-good k s h =
      let (d, f) = good-get k (obj s) (object?-some (get k schema) s h) in good-obj n s d f

  pub schema_list-good : (k : String) → are_good n (schema_list (get k schema)) ≡ true
  unfolding schema_list
  schema_list-good k = elim (Option-cases (get k schema)) [
    | inl e ↦ ap (λ o. are_good n (schema_list o)) e
    | inr (v, e) ↦
        ap (λ o. are_good n (schema_list o)) e
        ∙ schema_list-some n v (good-get k v e).0 (good-get k v e).1
  ]

  pub properties-good :
      (k : String) (w : Value)
      → get k (value_or end (object? (get "properties" schema))) ≡ some w
      → is_good n (value_or end (object? (some w))) ≡ true
  properties-good k w h = elim (Option-cases (object? (get "properties" schema))) [
    | inl e ↦ absurd (get-end k w (cc (h, e)))
    | inr (ps, e) ↦
        let (d, f) = depth-get k ps w (cc (h, e)) in
        let (a, b) =
          and_parts (ltb (depth_fields ps) n) (is_free (obj ps)) (object?-good "properties" ps e) in
        good-value n (depth_fields ps) w d a (f (free-fields ps b))
  ]
