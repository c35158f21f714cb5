-- ===== src/Session/Walk.antt =====
-- The fuel of the loop of `branchEntries` of internal/engine/runtime.go.
use ergo_agent.Prelude.{
  ℕ, zero, suc, ◌+◌, ◌≤◌, ◌<◌, String, true, false, ◌≡◌, Option, none, some, List, [], ◌∷◌, arith,
  ◌==◌, eq_iff, if◌then◌else◌, contains, length, Bool-cases, Option-cases, inl, inr,
}
use ergo_agent.Json.{Value, str, get, string?, is_text}
use ergo_agent.Session.{Entry, by_id, parent_of, walk}

abbrev is_new : List String → Option String → ℕ
is_new seen none = 0
is_new seen (some id) = if contains seen id then 0 else 1

-- How many entries have an id that is not seen.
pub unseen : List String → List Entry → ℕ
unseen seen [] = 0
unseen seen (e ∷ entries) = is_new seen (string? (get "id" e)) + unseen seen entries

is_text-string? : (o : Option Value) (t : String) → is_text o t ≡ true → string? o ≡ some t
is_text-string? (some (str s)) t h = ground (arith, eq_iff s t)
is_text-string? _ t h = cc

is_new-cons :
    (seen : List String) (x : String) (o : Option String) → is_new (x ∷ seen) o ≤ is_new seen o
unfolding contains
is_new-cons seen x none = omega arith
is_new-cons seen x (some id) = ground arith

is_new-drop :
    (seen : List String) (x : String) (o : Option String)
    → o ≡ some x
    → contains seen x ≡ false
    → is_new (x ∷ seen) o < is_new seen o
unfolding contains
is_new-drop seen x none e h = cc
is_new-drop seen x (some id) e h = ground (arith, eq_iff x id, eq_iff x x)

unseen-cons :
    (seen : List String) (x : String) (entries : List Entry)
    → unseen (x ∷ seen) entries ≤ unseen seen entries
unfolding unseen
unseen-cons seen x [] = omega arith
unseen-cons seen x (e ∷ entries) =
    omega (arith, is_new-cons seen x (string? (get "id" e)), unseen-cons seen x entries)

-- The entry that a round takes lowers the measure.
unseen-lt :
    (seen : List String) (x : String) (entries : List Entry) (e : Entry)
    → by_id entries x ≡ some e
    → contains seen x ≡ false
    → unseen (x ∷ seen) entries < unseen seen entries
unfolding by_id unseen
unseen-lt seen x [] e h new = cc
unseen-lt seen x (a ∷ entries) e h new = elim (Option-cases (by_id entries x)) [
  | inl q ↦
      let t : is_text (get "id" a) x ≡ true = ground arith in
      omega (
        arith,
        is_new-drop seen x (string? (get "id" a)) (is_text-string? (get "id" a) x t) new,
        unseen-cons seen x entries,
      )
  | inr (b, q) ↦
      omega (arith, is_new-cons seen x (string? (get "id" a)), unseen-lt seen x entries b q new)
]

unseen-le-length :
    (seen : List String) (entries : List Entry) → unseen seen entries ≤ length entries
unfolding unseen
unseen-le-length seen [] = omega arith
unseen-le-length seen (e ∷ entries) = ground (arith, unseen-le-length seen entries)

walk_total :
    (entries : List Entry) (fuel : ℕ) (leaf : String) (seen : List String) (out : List Entry)
    → unseen seen entries < fuel
    → (r : List Entry) × (walk fuel entries leaf seen out ≡ some r)
unfolding walk
walk_total entries zero leaf seen out h = absurd (omega arith)
walk_total entries (suc fuel) leaf seen out h = elim (Bool-cases (leaf == "")) [
  | inl a ↦ (out, rw a)
  | inr a ↦ elim (Bool-cases (contains seen leaf)) [
    | inl b ↦ (out, rw (a, b))
    | inr b ↦ elim (Option-cases (by_id entries leaf)) [
      | inl c ↦ (out, rw (a, b, c))
      | inr (e, c) ↦
          let (r, d) =
            walk_total entries fuel (parent_of e) (leaf ∷ seen) (e ∷ out)
              (omega (arith, unseen-lt seen leaf entries e c b)) in
          (r, rw (a, b, c) d)
    ]
  ]
]

-- The loop of a branch always ends with a result.
pub walk-some :
    (entries : List Entry) (leaf : String)
    → (r : List Entry) × (walk (length entries + 1) entries leaf [] [] ≡ some r)
walk-some entries leaf =
    walk_total entries (length entries + 1) leaf [] [] (omega (arith, unseen-le-length [] entries))
