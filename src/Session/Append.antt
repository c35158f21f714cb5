-- ===== src/Session/Append.antt =====
-- `appendEntry` of internal/engine/runtime.go and the branch of the session.
use ergo_agent.Prelude.{
  ℕ, zero, suc, ◌+◌, String, true, false, ◌||◌, ◌≡◌, refl, sym, ◌∙◌, ap, none, some, List, [], ◌∷◌,
  ◌++◌, arith, ◌==◌, eq_iff, if◌then◌else◌, contains, length, length-append, Bool-cases,
  Option-cases, inl, inr,
}
use ergo_agent.Json.{str, Fields, get, put, string_or_empty, is_text}
use ergo_agent.Json.Laws.{get-put_all}
use ergo_agent.Session.{
  Entry, by_id, parent_of, walk, Session, branch, base_entry, new_entry, append_entry,
}
use ergo_agent.Session.Walk.{walk-some}
use ergo_agent.Session.Branch.{branch_entries-walk}

pub by_id-snoc :
    (entries : List Entry) (n : Entry) (x : String)
    → by_id (entries ++ n ∷ []) x ≡ (if is_text (get "id" n) x then some n else by_id entries x)
unfolding by_id
by_id-snoc [] n x = ground arith
by_id-snoc (e ∷ entries) n x = ground (arith, by_id-snoc entries n x)

-- The walk from an old leaf takes the same entries when a fresh one stands behind them.
walk-snoc :
    (entries : List Entry) (n : Entry) (id : String)
    → get "id" n ≡ some (str id)
    → by_id entries id ≡ none
    → (fuel : ℕ) (leaf : String) (seen seen' : List String) (out r : List Entry)
    → ((x : String) → contains seen' x ≡ (id == x || contains seen x))
    → walk fuel entries leaf seen out ≡ some r
    → walk fuel (entries ++ n ∷ []) leaf seen' (out ++ n ∷ []) ≡ some (r ++ n ∷ [])
unfolding walk
walk-snoc entries n id hn fresh zero leaf seen seen' out r hs h = cc
walk-snoc entries n id hn fresh (suc fuel) leaf seen seen' out r hs h =
    elim (Bool-cases (leaf == "")) [
      | inl a ↦ rw a (ground arith)
      | inr a ↦ elim (Bool-cases (contains seen leaf)) [
        | inl b ↦
            let b' : contains seen' leaf ≡ true = ground (arith, hs leaf) in
            rw (a, b') (ground arith)
        | inr b ↦ elim (Bool-cases (id == leaf)) [
          | inl c ↦
              let b' : contains seen' leaf ≡ true = ground (arith, hs leaf) in
              let d : by_id entries leaf ≡ none = rw ((eq_iff id leaf).0 c) at fresh in
              let e : some out ≡ some r = rw (a, b, d) at h in rw (a, b') (ground arith)
          | inr c ↦
              let b' : contains seen' leaf ≡ false = ground (arith, hs leaf) in
              let d : by_id (entries ++ n ∷ []) leaf ≡ by_id entries leaf =
                by_id-snoc entries n leaf ∙ ground arith in
              rw (a, b', d)
                (elim (Option-cases (by_id entries leaf)) [
                  | inl e ↦ let q : some out ≡ some r = rw (a, b, e) at h in rw e (ground arith)
                  | inr (p, e) ↦ rw e (
                      walk-snoc entries n id hn fresh fuel (parent_of p) (leaf ∷ seen)
                        (leaf ∷ seen') (p ∷ out) r (λ x. unfold contains in ground (arith, hs x))
                        (rw (a, b, e) at h))
                ])
        ]
      ]
    ]

id-base_entry :
    (leaf id timestamp kind : String) → get "id" (base_entry leaf id timestamp kind) ≡ some (str id)
unfolding base_entry get put
id-base_entry leaf id timestamp kind = ground arith

parent-base_entry :
    (leaf id timestamp kind : String) → parent_of (base_entry leaf id timestamp kind) ≡ leaf
unfolding base_entry get put
parent-base_entry leaf id timestamp kind = elim (Bool-cases (leaf == "")) [
  | inl a ↦ rw a (sym ((eq_iff leaf "").0 a))
  | inr a ↦ rw a
]

-- The new entry has its id and its parent whatever the payload adds.
module _ (leaf id timestamp kind : String) (payload : Fields) (no_id : get "id" payload ≡ none)
    (no_parent : get "parentId" payload ≡ none) where
  pub id-new_entry : get "id" (new_entry leaf id timestamp kind payload) ≡ some (str id)
  unfolding new_entry
  id-new_entry =
      get-put_all "id" payload (base_entry leaf id timestamp kind) no_id
      ∙ id-base_entry leaf id timestamp kind

  parent-new_entry : parent_of (new_entry leaf id timestamp kind payload) ≡ leaf
  unfolding new_entry
  parent-new_entry =
      ap string_or_empty
        (get-put_all "parentId" payload (base_entry leaf id timestamp kind) no_parent)
      ∙ parent-base_entry leaf id timestamp kind

-- The first round of the walk takes the new entry, and the rest is the walk from the old leaf.
walk-new :
    (entries : List Entry) (n : Entry) (id leaf : String) (fuel : ℕ) (r : List Entry)
    → get "id" n ≡ some (str id)
    → parent_of n ≡ leaf
    → (id == "") ≡ false
    → by_id entries id ≡ none
    → walk fuel entries leaf [] [] ≡ some r
    → walk (suc fuel) (entries ++ n ∷ []) id [] [] ≡ some (r ++ n ∷ [])
unfolding walk contains
walk-new entries n id leaf fuel r hn hp hi fresh h =
    let d : by_id (entries ++ n ∷ []) id ≡ some n =
      by_id-snoc entries n id ∙ ground (arith, eq_iff id id) in
    rw (hi, d, hp)
      (walk-snoc entries n id hn fresh fuel leaf [] (id ∷ []) [] r (λ x. unfold contains in refl) h)

-- The branch that a new entry extends: nothing while the session has no leaf.
abbrev pub branch_from_leaf : Session → List Entry
branch_from_leaf s = if s.leaf_id == "" then [] else branch s

walk-branch_from_leaf :
    (s : Session)
    → walk (length s.entries + 1) s.entries s.leaf_id [] [] ≡ some (branch_from_leaf s)
unfolding branch walk
walk-branch_from_leaf s = elim (Bool-cases (s.leaf_id == "")) [
  | inl a ↦ let n : length s.entries + 1 ≡ suc (length s.entries) = omega arith in rw (n, walk, a)
  | inr a ↦
      let (r, q) = walk-some s.entries s.leaf_id in
      rw (a, branch_entries-walk s.entries r s.leaf_id a q) q
]

-- An entry appended under an id that is not empty and that no entry has, with a payload that sets
-- neither id nor parentId, becomes the last of the branch, and before it stands the branch that the
-- session had from its leaf.
pub branch-append_entry :
    (s : Session) (id timestamp kind : String) (payload : Fields)
    → (id == "") ≡ false
    → by_id s.entries id ≡ none
    → get "id" payload ≡ none
    → get "parentId" payload ≡ none
    → branch (append_entry s id timestamp kind payload)
      ≡ branch_from_leaf s ++ new_entry s.leaf_id id timestamp kind payload ∷ []
unfolding branch append_entry
branch-append_entry s id timestamp kind payload hi fresh no_id no_parent =
    branch_entries-walk (s.entries ++ n ∷ []) (branch_from_leaf s ++ n ∷ []) id hi (
      rw fuel (
        walk-new s.entries n id s.leaf_id (length s.entries + 1) (branch_from_leaf s)
          (id-new_entry s.leaf_id id timestamp kind payload no_id no_parent)
          (parent-new_entry s.leaf_id id timestamp kind payload no_id no_parent) hi fresh
          (walk-branch_from_leaf s)))
  where
    n : Entry
    n = new_entry s.leaf_id id timestamp kind payload

    fuel : length (s.entries ++ n ∷ []) + 1 ≡ suc (length s.entries + 1)
    fuel = omega (arith, length-append s.entries (n ∷ []))
