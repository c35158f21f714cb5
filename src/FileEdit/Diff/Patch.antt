-- ===== src/FileEdit/Diff/Patch.antt =====
-- The patch that renderEditDiff of internal/engine/file_edit.go writes.
use ergo_agent.Prelude.{
  ℕ, zero, suc, ◌+◌, ◌-◌, ◌≤◌, min, ◌≡◌, refl, sym, ap, ◌∙◌, List, [], ◌∷◌, ◌++◌, length, take,
  drop, arith, append_assoc, append-nil, length-append, take-append-drop, length-drop,
}
use ergo_agent.FileEdit.{Text}
use ergo_agent.FileEdit.Diff.{
  Shown, context, removed, added, EditDiff, split_lines, common_prefix, common_suffix, show_lines,
  between, render_edit_diff,
}
use ergo_agent.FileEdit.Diff.Parts.{divide, drop-front, take-front, drop-part}

-- The lines of a patch that stand in the old text, and those that stand in the new one.
unfoldable pub old_side : List Shown → List Text
old_side [] = []
old_side (context n a ∷ patch) = a ∷ old_side patch
old_side (removed n a ∷ patch) = a ∷ old_side patch
old_side (added n a ∷ patch) = old_side patch

unfoldable pub new_side : List Shown → List Text
new_side [] = []
new_side (context n a ∷ patch) = a ∷ new_side patch
new_side (removed n a ∷ patch) = new_side patch
new_side (added n a ∷ patch) = a ∷ new_side patch

old_side-append : (a b : List Shown) → old_side (a ++ b) ≡ old_side a ++ old_side b
unfolding old_side
old_side-append [] b = refl
old_side-append (context n x ∷ a) b = ap (λ r. x ∷ r) (old_side-append a b)
old_side-append (removed n x ∷ a) b = ap (λ r. x ∷ r) (old_side-append a b)
old_side-append (added n x ∷ a) b = old_side-append a b

new_side-append : (a b : List Shown) → new_side (a ++ b) ≡ new_side a ++ new_side b
unfolding new_side
new_side-append [] b = refl
new_side-append (context n x ∷ a) b = ap (λ r. x ∷ r) (new_side-append a b)
new_side-append (removed n x ∷ a) b = new_side-append a b
new_side-append (added n x ∷ a) b = ap (λ r. x ∷ r) (new_side-append a b)

shown_context :
    (n : ℕ) (a : List Text)
    → (old_side (show_lines context n a) ≡ a) × (new_side (show_lines context n a) ≡ a)
unfolding old_side new_side
shown_context n [] = (refl, refl)
shown_context n (x ∷ a) =
    let (h, k) = shown_context (n + 1) a in (ap (λ r. x ∷ r) h, ap (λ r. x ∷ r) k)

shown_removed :
    (n : ℕ) (a : List Text)
    → (old_side (show_lines removed n a) ≡ a) × (new_side (show_lines removed n a) ≡ [])
unfolding old_side new_side
shown_removed n [] = (refl, refl)
shown_removed n (x ∷ a) = let (h, k) = shown_removed (n + 1) a in (ap (λ r. x ∷ r) h, k)

shown_added :
    (n : ℕ) (a : List Text)
    → (old_side (show_lines added n a) ≡ []) × (new_side (show_lines added n a) ≡ a)
unfolding old_side new_side
shown_added n [] = (refl, refl)
shown_added n (x ∷ a) = let (h, k) = shown_added (n + 1) a in (h, ap (λ r. x ∷ r) k)

-- The four loops of the function, one behind the other.
abbrev hunk : ℕ → ℕ → ℕ → List Text → List Text → List Text → List Text → List Shown
hunk i j k before a b after =
    show_lines context i before
    ++ show_lines removed j a
    ++ show_lines added j b
    ++ show_lines context k after

old_side-hunk :
    (i j k : ℕ) (before a b after : List Text)
    → old_side (hunk i j k before a b after) ≡ before ++ (a ++ after)
old_side-hunk i j k before a b after =
    old_side-append (show_lines context i before ++ show_lines removed j a ++ show_lines added j b)
      (show_lines context k after)
    ∙ ap (λ r. r ++ old_side (show_lines context k after))
        (old_side-append (show_lines context i before ++ show_lines removed j a)
            (show_lines added j b)
          ∙ ap (λ r. r ++ old_side (show_lines added j b))
              (old_side-append (show_lines context i before) (show_lines removed j a)))
    ∙ cc (
      (shown_context i before).0,
      (shown_removed j a).0,
      (shown_added j b).0,
      (shown_context k after).0,
      append-nil (before ++ a),
      append_assoc before a after,
    )

new_side-hunk :
    (i j k : ℕ) (before a b after : List Text)
    → new_side (hunk i j k before a b after) ≡ before ++ (b ++ after)
new_side-hunk i j k before a b after =
    new_side-append (show_lines context i before ++ show_lines removed j a ++ show_lines added j b)
      (show_lines context k after)
    ∙ ap (λ r. r ++ new_side (show_lines context k after))
        (new_side-append (show_lines context i before ++ show_lines removed j a)
            (show_lines added j b)
          ∙ ap (λ r. r ++ new_side (show_lines added j b))
              (new_side-append (show_lines context i before) (show_lines removed j a)))
    ∙ cc (
      (shown_context i before).1,
      (shown_removed j a).1,
      (shown_added j b).1,
      (shown_context k after).1,
      append-nil before,
      append_assoc before b after,
    )

-- The patch is a hunk that turns the old lines into the new ones: the lines in front of it and
-- behind it stand in both texts, and its header has its place and its two sizes.
pub record IsPatch (old new : List Text) (d : EditDiff) : Type 0 where
  pub front : List Text
  pub back : List Text
  pub old_lines : old ≡ front ++ (old_side d.patch ++ back)
  pub new_lines : new ≡ front ++ (new_side d.patch ++ back)
  pub place : d.first_old ≡ length front + 1
  pub old_size : d.old_count ≡ length (old_side d.patch)
  pub new_size : d.new_count ≡ length (new_side d.patch)

-- One text: what is in front, what differs, and what is at the end, cut by numbers of lines.
record IsCut (whole front middle back : List Text) (p s : ℕ) : Type 0 where
  middle_lines : between p (length whole - s) whole ≡ middle
  back_lines : drop (length whole - s) whole ≡ back
  context_lines : between (p - 4) p whole ≡ drop (p - 4) front
  size : length whole ≡ p + length middle + s

cut_of :
    (whole front middle back : List Text) (p s : ℕ)
    → whole ≡ front ++ (middle ++ back)
    → length front ≡ p
    → length back ≡ s
    → IsCut whole front middle back p s
cut_of whole front middle back p s e hp hs =
    let size : length whole ≡ p + length middle + s =
      ap length e
      ∙ omega (arith, length-append front (middle ++ back), length-append middle back) in
    let inner : drop p whole ≡ middle ++ back =
      ap (drop p) e ∙ drop-front front (middle ++ back) p (sym hp) in
    record {
      middle_lines =
          ap (take (length whole - s - p)) inner
          ∙ take-front middle back (length whole - s - p) (omega arith);
      back_lines =
          ap (drop (length whole - s)) (e ∙ sym (append_assoc front middle back))
          ∙ drop-front (front ++ middle) back (length whole - s)
              (omega (arith, length-append front middle));
      context_lines =
          ap (take (p - (p - 4)))
            (ap (drop (p - 4)) e ∙ drop-part (p - 4) front (middle ++ back) (omega arith))
          ∙ take-front (drop (p - 4) front) (middle ++ back) (p - (p - 4))
              (omega (arith, length-drop (p - 4) front));
      size = size;
    }

regroup : (a b r t u : List Text) → (a ++ b) ++ (r ++ (t ++ u)) ≡ a ++ ((b ++ (r ++ t)) ++ u)
regroup a b r t u =
    append_assoc a b (r ++ (t ++ u))
    ∙ ap (λ x. a ++ x)
        (ap (λ x. b ++ x) (sym (append_assoc r t u)) ∙ sym (append_assoc b (r ++ t) u))

length-take : (n : ℕ) (xs : List Text) → n ≤ length xs → length (take n xs) ≡ n
length-take zero xs h = refl
length-take (suc n) [] h = absurd (omega arith)
length-take (suc n) (x ∷ xs) h = omega (arith, length-take n xs (omega arith))

-- One side of the hunk, against the text that it is a side of. The context behind is counted in
-- the lines of the new text.
side_of :
    (whole front middle back side : List Text) (p s n : ℕ)
    → whole ≡ front ++ (middle ++ back)
    → length front ≡ p
    → length back ≡ s
    → n ≡ min s 4
    → side ≡ drop (p - 4) front ++ (middle ++ take n back)
    → (whole ≡ take (p - 4) front ++ (side ++ drop n back))
      × (min (length whole) (length whole - s + 4) - (p - 4) ≡ length side)
side_of whole front middle back side p s n e hp hs hn h = (
  e
      ∙ ap (λ x. x ++ (middle ++ back)) (sym (take-append-drop (p - 4) front))
      ∙ ap (λ x. (take (p - 4) front ++ drop (p - 4) front) ++ (middle ++ x))
          (sym (take-append-drop n back))
      ∙ regroup (take (p - 4) front) (drop (p - 4) front) middle (take n back) (drop n back)
      ∙ ap (λ x. take (p - 4) front ++ (x ++ drop n back)) (sym h),
  omega (
    arith,
    ap length e,
    length-append front (middle ++ back),
    length-append middle back,
    ap length h,
    length-append (drop (p - 4) front) (middle ++ take n back),
    length-append middle (take n back),
    length-drop (p - 4) front,
    length-take n back (omega arith),
  ),
)

-- The patch that renderEditDiff writes is a hunk that turns the lines of the old text into those of
-- the new one: the lines in front of it and behind it are the same in both texts, what it marks as
-- context or removed are the old lines between them, what it marks as context or added the new
-- ones, and its header has their place and their two numbers.
pub render_edit_diff-IsPatch :
    (old_text new_text : Text)
    → IsPatch (split_lines old_text) (split_lines new_text) (render_edit_diff old_text new_text)
unfolding render_edit_diff
render_edit_diff-IsPatch old_text new_text =
    let old = split_lines old_text in
    let new = split_lines new_text in
    let p = common_prefix old new in
    let s = common_suffix p old new in
    let parts = divide old new in
    let n = min (length new) (length new - s + 4) - (length new - s) in
    let at_old =
      cut_of old parts.front parts.removed_lines parts.back p s parts.old_lines parts.prefix
        parts.suffix in
    let at_new =
      cut_of new parts.front parts.added_lines parts.back p s parts.new_lines parts.prefix
        parts.suffix in
    let after = ap (take n) at_new.back_lines in
    let sides =
      hunk (p - 4 + 1) (p + 1) (length new - s + 1) (between (p - 4) p old)
        (between p (length old - s) old) (between p (length new - s) new)
        (take n (drop (length new - s) new)) in
    let small : n ≡ min s 4 = omega (arith, at_new.size) in
    let a =
      side_of old parts.front parts.removed_lines parts.back (old_side sides) p s n parts.old_lines
        parts.prefix parts.suffix small
        (old_side-hunk (p - 4 + 1) (p + 1) (length new - s + 1) _ _ _ _
          ∙ cc (at_old.context_lines, at_old.middle_lines, after)) in
    let b =
      side_of new parts.front parts.added_lines parts.back (new_side sides) p s n parts.new_lines
        parts.prefix parts.suffix small
        (new_side-hunk (p - 4 + 1) (p + 1) (length new - s + 1) _ _ _ _
          ∙ cc (at_old.context_lines, at_new.middle_lines, after)) in
    record {
      front = take (p - 4) parts.front;
      back = drop n parts.back;
      old_lines = a.0;
      new_lines = b.0;
      place = omega (arith, length-take (p - 4) parts.front (omega (arith, parts.prefix)));
      old_size = a.1;
      new_size = b.1;
    }
