-- ===== src/FileEdit/Matches.antt =====
-- What applyFileEdits of internal/engine/file_edit.go makes of a base in which it finds the texts
-- exactly.
use ergo_agent.Prelude.{
  ℕ, ◌+◌, ◌≤◌, false, ◌≡◌, refl, sym, subst, ap, ◌∙◌, none, List, [], ◌∷◌, take, drop, length,
  arith, eqb, ltb, leb, Bool-cases, Option-cases, inl, inr,
}
use ergo_agent.FileEdit.{
  Text, Edit, EditMatch, Edited, ok, refused, and_then, count_of, match_at, find_match,
  find_matches, insert_match, sort_matches, check_overlap, splice_all, same_text, replace_sorted,
  use_fuzzy, searched_in, replace_in,
}
use ergo_agent.FileEdit.Search.{index_of-some, index_of-count}
use ergo_agent.FileEdit.Splice.{replaced, Fits, splice_all-replaced}

-- The match of an edit: the only place at which its old text is counted.
pub record IsMatch (base : Text) (i : ℕ) (edit : Edit) (m : EditMatch) : Type 0 where
  pub named : m.edit_index ≡ i
  pub new : m.new_text ≡ edit.new_text
  pub stands : take m.size (drop m.index base) ≡ edit.old_text
  pub within : m.index + m.size ≤ length base
  pub unique : count_of base edit.old_text ≡ 1

-- A match for each edit, in the order of the edits.
abbrev pub Aligned : Text → ℕ → List Edit → List EditMatch → Type 0
Aligned base i [] [] = Unit
Aligned base i (edit ∷ edits) (m ∷ matches) =
    IsMatch base i edit m × Aligned base (i + 1) edits matches
Aligned base i _ _ = ⊥

ok-injective : {A : Type 0} (a b : A) → ok a ≡ ok b → a ≡ b
ok-injective a b h = cc h

find_match-IsMatch :
    (base : Text) (i : ℕ) (edit : Edit) (m : EditMatch)
    → find_match (base, none) i edit ≡ ok m
    → IsMatch base i edit m
unfolding find_match match_at
find_match-IsMatch base i edit m h =
    let n = count_of base edit.old_text in
    elim (Bool-cases (eqb n 0)) [
      | inl a ↦ cc (rw a at h)
      | inr a ↦ elim (Bool-cases (ltb 1 n)) [
        | inl b ↦ cc (rw (a, b) at h)
        | inr b ↦
            let (j, e) = index_of-count base edit.old_text (ground arith) in
            let (stands, within) = index_of-some base edit.old_text j e in
            let found : EditMatch = record {
              index = j;
              size = length edit.old_text;
              new_text = edit.new_text;
              edit_index = i;
            } in
            let same : ok found ≡ ok m = rw (a, b, e) at h in
            subst (IsMatch base i edit) (ok-injective found m same) (record {
              named = refl;
              new = refl;
              stands = stands;
              within = within;
              unique = ground arith;
            })
      ]
    ]

and_then-ok :
    {A B : Type 0} (x : Edited A) (f : A → Edited B) (b : B)
    → and_then x f ≡ ok b
    → (a : A) × (x ≡ ok a) × (f a ≡ ok b)
and_then-ok (ok a) f b h = (a, refl, h)
and_then-ok (refused err) f b h = cc h

find_matches-Aligned :
    (base : Text) (i : ℕ) (edits : List Edit) (matches : List EditMatch)
    → find_matches (base, none) i edits ≡ ok matches
    → Aligned base i edits matches
unfolding find_matches
find_matches-Aligned base i [] matches h = subst (Aligned base i []) (ok-injective [] matches h) tt
find_matches-Aligned base i (edit ∷ edits) matches h =
    let (m, found, g) = and_then-ok (find_match (base, none) i edit) _ matches h in
    let (rest, later, e) = and_then-ok (find_matches (base, none) (i + 1) edits) _ matches g in
    subst (Aligned base i (edit ∷ edits)) (ok-injective (m ∷ rest) matches e)
      (find_match-IsMatch base i edit m found, find_matches-Aligned base (i + 1) edits rest later)

abbrev pub Within : ℕ → List EditMatch → Type 0
Within limit [] = Unit
Within limit (m ∷ matches) = (m.index + m.size ≤ limit) × Within limit matches

Within-Aligned :
    (base : Text) (i : ℕ) (edits : List Edit) (matches : List EditMatch)
    → Aligned base i edits matches
    → Within (length base) matches
Within-Aligned base i [] [] h = tt
Within-Aligned base i [] (m ∷ matches) h = absurd h
Within-Aligned base i (edit ∷ edits) [] h = absurd h
Within-Aligned base i (edit ∷ edits) (m ∷ matches) (h, rest) =
    (h.within, Within-Aligned base (i + 1) edits matches rest)

Within-insert_match :
    (limit : ℕ) (m : EditMatch) (matches : List EditMatch)
    → m.index + m.size ≤ limit
    → Within limit matches
    → Within limit (insert_match m matches)
unfolding insert_match
Within-insert_match limit m [] h k = (h, tt)
Within-insert_match limit m (n ∷ matches) h (k, rest) = elim (Bool-cases (leb m.index n.index)) [
  | inl a ↦ rw a (h, (k, rest))
  | inr a ↦ rw a (k, Within-insert_match limit m matches h rest)
]

Within-sort_matches :
    (limit : ℕ) (matches : List EditMatch)
    → Within limit matches
    → Within limit (sort_matches matches)
unfolding sort_matches
Within-sort_matches limit [] h = tt
Within-sort_matches limit (m ∷ matches) (h, rest) =
    Within-insert_match limit m (sort_matches matches) h (Within-sort_matches limit matches rest)

-- Without an overlap the matches stand one behind the other.
Fits-check_overlap :
    (limit offset : ℕ) (matches : List EditMatch)
    → offset ≤ limit
    → ((m : EditMatch) (rest : List EditMatch) → matches ≡ m ∷ rest → offset ≤ m.index)
    → Within limit matches
    → check_overlap matches ≡ none
    → Fits offset limit matches
unfolding check_overlap
Fits-check_overlap limit offset [] b f w h = b
Fits-check_overlap limit offset (m ∷ []) b f (w, rest) h = (f m [] refl, w)
Fits-check_overlap limit offset (m ∷ n ∷ matches) b f (w, rest) h =
    elim (Bool-cases (ltb n.index (m.index + m.size))) [
      | inl a ↦ cc (rw a at h)
      | inr a ↦ (
        f m (n ∷ matches) refl,
        Fits-check_overlap limit (m.index + m.size) (n ∷ matches) w
            (λ k ks e. after k ks e (ground arith)) rest (rw a at h),
      )
    ]
  where
    after :
        (k : EditMatch) (ks : List EditMatch)
        → (n ∷ matches) ≡ k ∷ ks
        → m.index + m.size ≤ n.index
        → m.index + m.size ≤ k.index
    after k ks e g = ground arith

replace_sorted-replaced :
    (base : Text) (sorted : List EditMatch) (updated : Text)
    → Within (length base) sorted
    → replace_sorted base sorted ≡ ok updated
    → Fits 0 (length base) sorted
      × (updated ≡ replaced 0 sorted base)
      × (same_text updated base ≡ false)
unfolding replace_sorted
replace_sorted-replaced base sorted updated w h = elim (Option-cases (check_overlap sorted)) [
  | inr (err, e) ↦ cc (rw (replace_sorted, e) at h)
  | inl n ↦
      let fits =
        Fits-check_overlap (length base) 0 sorted (omega arith) (λ m rest e. omega arith) w n in
      elim (Bool-cases (same_text (splice_all sorted base) base)) [
        | inl a ↦ cc (rw (replace_sorted, n, a) at h)
        | inr a ↦
            let same : ok (splice_all sorted base) ≡ ok updated = rw (replace_sorted, n, a) at h in
            let e = ok-injective (splice_all sorted base) updated same in
            (
              fits,
              sym e ∙ splice_all-replaced sorted base fits,
              ap (λ t. same_text t base) (sym e) ∙ a,
            )
      ]
]

-- The matches of the edits, in the order of the edits, and the text that they make.
pub record IsReplacement (base : Text) (edits : List Edit) (updated : Text) : Type 0 where
  pub matches : List EditMatch
  pub aligned : Aligned base 0 edits matches
  pub disjoint : Fits 0 (length base) (sort_matches matches)
  pub text : updated ≡ replaced 0 (sort_matches matches) base
  pub changed : same_text updated base ≡ false

-- When each old text stands in the base, so that the search is exact, and the edits are applied,
-- each edit has one match, which is its only counted occurrence in the base; the matches in the
-- order of their positions do not overlap; and the loop from the last match gives the text in which
-- all matches are replaced at once, which is not the base.
pub replace_in-IsReplacement :
    (base : Text) (edits : List Edit) (updated : Text)
    → use_fuzzy base edits ≡ false
    → replace_in base edits ≡ ok updated
    → IsReplacement base edits updated
unfolding replace_in searched_in
replace_in-IsReplacement base edits updated exact h =
    let (matches, found, g) =
      and_then-ok (find_matches (searched_in (use_fuzzy base edits) base) 0 edits) _ updated h in
    let found' : find_matches (base, none) 0 edits ≡ ok matches = rw exact at found in
    let aligned = find_matches-Aligned base 0 edits matches found' in
    let (fits, text, changed) =
      replace_sorted-replaced base (sort_matches matches) updated
        (Within-sort_matches (length base) matches (Within-Aligned base 0 edits matches aligned))
        g in
    record { matches = matches; aligned = aligned; disjoint = fits; text = text; changed = changed }
