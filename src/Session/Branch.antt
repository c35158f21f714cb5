-- ===== src/Session/Branch.antt =====
-- What `branchEntries` of internal/engine/runtime.go returns.
use ergo_agent.Prelude.{
  ℕ, zero, suc, ◌+◌, String, true, false, ◌≡◌, refl, sym, ◌∙◌, ◌⊎◌, Option, none, some, List, [],
  ◌∷◌, ◌++◌, append_assoc, arith, ◌==◌, eq_iff, contains, length, Distinct, Bool-cases,
  Option-cases, inl, inr,
}
use ergo_agent.Json.{Value, str, get, string_or_empty, is_text}
use ergo_agent.Session.{Entry, by_id, parent_of, walk, branch_entries}
use ergo_agent.Session.Walk.{walk-some}

abbrev pub id_of : Entry → String
id_of e = string_or_empty (get "id" e)

unfoldable pub ids : List Entry → List String
ids [] = []
ids (e ∷ out) = id_of e ∷ ids out

is_text-string_or_empty :
    (o : Option Value) (t : String) → is_text o t ≡ true → string_or_empty o ≡ t
is_text-string_or_empty (some (str s)) t h = (eq_iff s t).0 h
is_text-string_or_empty _ t h = cc

pub id_of-by_id :
    (entries : List Entry) (leaf : String) (e : Entry)
    → by_id entries leaf ≡ some e
    → id_of e ≡ leaf
unfolding by_id
id_of-by_id [] leaf e h = cc
id_of-by_id (a ∷ entries) leaf e h =
    ground (arith, id_of-by_id entries leaf e, is_text-string_or_empty (get "id" a) leaf)

-- The first entry of the list, if any, has that parent.
abbrev pub HeadParent : String → List Entry → Type 0
HeadParent leaf [] = Unit
HeadParent leaf (e ∷ _) = parent_of e ≡ leaf

-- Each entry but the first names the one before it as its parent.
abbrev pub Linked : List Entry → Type 0
Linked [] = Unit
Linked (e ∷ out) = HeadParent (id_of e) out × Linked out

-- Each entry is the session's entry of its id.
abbrev pub Known : List Entry → List Entry → Type 0
Known entries [] = Unit
Known entries (e ∷ out) = (by_id entries (id_of e) ≡ some e) × Known entries out

-- Why the walk ended: at a root, at an entry of the branch itself, or at an unknown parent.
abbrev pub Stopped : List Entry → List Entry → String → Type 0
Stopped entries out leaf =
    (leaf ≡ "") ⊎ (contains (ids out) leaf ≡ true) ⊎ (by_id entries leaf ≡ none)

pub record IsBranch (entries out : List Entry) : Type 0 where
  pub known : Known entries out
  pub linked : Linked out
  pub distinct : Distinct (ids out)
  pub ends : (leaf : String) × HeadParent leaf out × Stopped entries out leaf

record Inv (entries : List Entry) (leaf : String) (seen : List String) (out : List Entry)
    : Type 0 where
  known : Known entries out
  linked : Linked out
  distinct : Distinct seen
  head : HeadParent leaf out
  seen_ids : seen ≡ ids out

stop :
    {entries out : List Entry} {leaf : String} {seen : List String}
    → Inv entries leaf seen out
    → Stopped entries out leaf
    → IsBranch entries out
stop {leaf} i s = record {
  known = i.known;
  linked = i.linked;
  distinct = rw i.seen_ids at i.distinct;
  ends = (leaf, i.head, s);
}

walk-IsBranch :
    (entries : List Entry) (fuel : ℕ) (leaf : String) (seen : List String) (out r : List Entry)
    → Inv entries leaf seen out
    → walk fuel entries leaf seen out ≡ some r
    → IsBranch entries r
unfolding walk
walk-IsBranch entries zero leaf seen out r i h = cc
walk-IsBranch entries (suc fuel) leaf seen out r i h = elim (Bool-cases (leaf == "")) [
  | inl a ↦ let e : out ≡ r = ground arith in rw e at (stop i (inl ((eq_iff leaf "").0 a)))
  | inr a ↦ elim (Bool-cases (contains seen leaf)) [
    | inl b ↦ let e : out ≡ r = ground arith in rw e at (stop i (inr (inl (rw i.seen_ids at b))))
    | inr b ↦ elim (Option-cases (by_id entries leaf)) [
      | inl c ↦ let e : out ≡ r = ground arith in rw e at (stop i (inr (inr c)))
      | inr (e, c) ↦
          let q = id_of-by_id entries leaf e c in
          walk-IsBranch entries fuel (parent_of e) (leaf ∷ seen) (e ∷ out) r
            (record {
              known = (rw q c, i.known);
              linked = (rw q i.head, i.linked);
              distinct = (b, i.distinct);
              head = refl;
              seen_ids = unfold ids in rw (q, i.seen_ids);
            })
            (rw (a, b, c) at h)
    ]
  ]
]

walk-suffix :
    (entries : List Entry) (fuel : ℕ) (leaf : String) (seen : List String) (out r : List Entry)
    → walk fuel entries leaf seen out ≡ some r
    → (front : List Entry) × (r ≡ front ++ out)
unfolding walk
walk-suffix entries zero leaf seen out r h = cc
walk-suffix entries (suc fuel) leaf seen out r h = elim (Bool-cases (leaf == "")) [
  | inl a ↦ ([], ground arith)
  | inr a ↦ elim (Bool-cases (contains seen leaf)) [
    | inl b ↦ ([], ground arith)
    | inr b ↦ elim (Option-cases (by_id entries leaf)) [
      | inl c ↦ ([], ground arith)
      | inr (e, c) ↦
          let (front, q) =
            walk-suffix entries fuel (parent_of e) (leaf ∷ seen) (e ∷ out) r (rw (a, b, c) at h) in
          (front ++ e ∷ [], q ∙ sym (append_assoc front (e ∷ []) out))
    ]
  ]
]

start : (entries : List Entry) (leaf : String) → Inv entries leaf [] []
unfolding ids
start entries leaf = record { known = tt; linked = tt; distinct = tt; head = tt; seen_ids = refl }

pub branch_entries-walk :
    (entries r : List Entry) (leaf : String)
    → (leaf == "") ≡ false
    → walk (length entries + 1) entries leaf [] [] ≡ some r
    → branch_entries entries leaf ≡ r
unfolding branch_entries
branch_entries-walk entries r leaf h q = rw (h, q)

walk-known :
    (entries : List Entry) (fuel : ℕ) (leaf : String) (r : List Entry) (e : Entry)
    → (leaf == "") ≡ false
    → by_id entries leaf ≡ some e
    → walk (suc fuel) entries leaf [] [] ≡ some r
    → (front : List Entry) × (r ≡ front ++ e ∷ [])
unfolding walk contains
walk-known entries fuel leaf r e h k q =
    walk-suffix entries fuel (parent_of e) (leaf ∷ []) (e ∷ []) r (rw (h, k) at q)

-- From a leaf other than the empty id, the branch is a list of entries of the session in which each
-- is the parent of the next and no id stands twice; it ends only at a root, at an id that it has
-- already, or at an unknown parent; and a known leaf is its last entry.
pub branch_entries-IsBranch :
    (entries : List Entry) (leaf : String)
    → (leaf == "") ≡ false
    → IsBranch entries (branch_entries entries leaf)
      × ((e : Entry)
          → by_id entries leaf ≡ some e
          → (front : List Entry) × (branch_entries entries leaf ≡ front ++ e ∷ []))
branch_entries-IsBranch entries leaf h =
    let (r, q) = walk-some entries leaf in
    let b = branch_entries-walk entries r leaf h q in
    (
      rw b (walk-IsBranch entries (length entries + 1) leaf [] [] r (start entries leaf) q),
      λ e k. rw b (
          walk-known entries (length entries) leaf r e h k
            (let n : length entries + 1 ≡ suc (length entries) = omega arith in rw n at q)),
    )
