-- ===== src/FileEdit/Diff/Parts.antt =====
-- The lines that two texts share, as renderEditDiff of internal/engine/file_edit.go finds them.
use ergo_agent.Prelude.{
  ℕ, zero, suc, ◌+◌, ◌≤◌, true, ◌≡◌, refl, sym, ap, ◌∙◌, List, [], ◌∷◌, ◌++◌, length, take, drop,
  append_assoc, Bool-cases, inl, inr, arith,
}
use ergo_agent.FileEdit.{Text, same_text}
use ergo_agent.FileEdit.Diff.{common_prefix, common_suffix, reversed}

pub same_text-eq : (a b : Text) → same_text a b ≡ true → a ≡ b
unfolding same_text
same_text-eq [] [] h = refl
same_text-eq [] (d ∷ b) h = cc h
same_text-eq (c ∷ a) [] h = cc h
same_text-eq (c ∷ a) (d ∷ b) h =
    let rest = same_text-eq a b (ground arith) in
    let first : c ≡ d = ground arith in cc (first, rest)

-- Two lists of lines with the same lines in front.
pub record SharedFront (old new : List Text) (n : ℕ) : Type 0 where
  pub front : List Text
  pub old_rest : List Text
  pub new_rest : List Text
  pub old_lines : old ≡ front ++ old_rest
  pub new_lines : new ≡ front ++ new_rest
  pub size : length front ≡ n

abbrev nothing_shared : (old new : List Text) → SharedFront old new 0
nothing_shared old new = record {
  front = [];
  old_rest = old;
  new_rest = new;
  old_lines = refl;
  new_lines = refl;
  size = refl;
}

pub common_prefix-SharedFront : (old new : List Text) → SharedFront old new (common_prefix old new)
unfolding common_prefix
common_prefix-SharedFront [] new = nothing_shared [] new
common_prefix-SharedFront (a ∷ old) [] = nothing_shared (a ∷ old) []
common_prefix-SharedFront (a ∷ old) (b ∷ new) = elim (Bool-cases (same_text a b)) [
  | inr e ↦ record {
    front = [];
    old_rest = a ∷ old;
    new_rest = b ∷ new;
    old_lines = refl;
    new_lines = refl;
    size = rw e;
  }
  | inl e ↦
      let s = common_prefix-SharedFront old new in
      let same = same_text-eq a b e in
      record {
        front = a ∷ s.front;
        old_rest = s.old_rest;
        new_rest = s.new_rest;
        old_lines = ap (λ r. a ∷ r) s.old_lines;
        new_lines = cc (same, s.new_lines);
        size = rw e (omega (arith, s.size));
      }
]

reversed-append : (xs ys acc : List Text) → reversed (xs ++ ys) acc ≡ reversed ys (reversed xs acc)
reversed-append [] ys acc = refl
reversed-append (x ∷ xs) ys acc = reversed-append xs ys (x ∷ acc)

reversed-onto : (xs acc : List Text) → reversed xs acc ≡ reversed xs [] ++ acc
reversed-onto [] acc = refl
reversed-onto (x ∷ xs) acc =
    reversed-onto xs (x ∷ acc)
    ∙ sym (
        ap (λ r. r ++ acc) (reversed-onto xs (x ∷ [])) ∙ append_assoc (reversed xs []) (x ∷ []) acc)

reversed-reversed : (xs acc : List Text) → reversed (reversed xs acc) [] ≡ reversed acc xs
reversed-reversed [] acc = refl
reversed-reversed (x ∷ xs) acc = reversed-reversed xs (x ∷ acc)

length-reversed : (xs acc : List Text) → length (reversed xs acc) ≡ length xs + length acc
length-reversed [] acc = omega arith
length-reversed (x ∷ xs) acc = omega (arith, length-reversed xs (x ∷ acc))

-- Two lists of lines with the same lines at the end.
pub record SharedBack (old new : List Text) (n : ℕ) : Type 0 where
  pub back : List Text
  pub old_rest : List Text
  pub new_rest : List Text
  pub old_lines : old ≡ old_rest ++ back
  pub new_lines : new ≡ new_rest ++ back
  pub size : length back ≡ n

-- What is in front of the reversed list stands at the end.
at_end :
    (xs front rest : List Text)
    → reversed xs [] ≡ front ++ rest
    → xs ≡ reversed rest [] ++ reversed front []
at_end xs front rest h =
    sym (reversed-reversed xs [])
    ∙ ap (λ r. reversed r []) h
    ∙ reversed-append front rest []
    ∙ reversed-onto rest (reversed front [])

pub back_of :
    (old new : List Text) → SharedBack old new (common_prefix (reversed old []) (reversed new []))
back_of old new =
    let s = common_prefix-SharedFront (reversed old []) (reversed new []) in
    record {
      back = reversed s.front [];
      old_rest = reversed s.old_rest [];
      new_rest = reversed s.new_rest [];
      old_lines = at_end old s.front s.old_rest s.old_lines;
      new_lines = at_end new s.front s.new_rest s.new_lines;
      size = omega (arith, length-reversed s.front [], s.size);
    }

pub drop-front : (xs ys : List Text) (n : ℕ) → n ≡ length xs → drop n (xs ++ ys) ≡ ys
drop-front [] ys zero h = refl
drop-front [] ys (suc n) h = absurd (omega arith)
drop-front (x ∷ xs) ys zero h = absurd (omega arith)
drop-front (x ∷ xs) ys (suc n) h = drop-front xs ys n (omega arith)

pub take-front : (xs ys : List Text) (n : ℕ) → n ≡ length xs → take n (xs ++ ys) ≡ xs
take-front [] ys zero h = refl
take-front [] ys (suc n) h = absurd (omega arith)
take-front (x ∷ xs) ys zero h = absurd (omega arith)
take-front (x ∷ xs) ys (suc n) h = ap (λ r. x ∷ r) (take-front xs ys n (omega arith))

pub drop-part : (n : ℕ) (xs ys : List Text) → n ≤ length xs → drop n (xs ++ ys) ≡ drop n xs ++ ys
drop-part zero xs ys h = refl
drop-part (suc n) [] ys h = absurd (omega arith)
drop-part (suc n) (x ∷ xs) ys h = drop-part n xs ys (omega arith)

-- The lines in front, those that differ, and those at the end.
pub record Parts (old new : List Text) : Type 0 where
  pub front : List Text
  pub removed_lines : List Text
  pub added_lines : List Text
  pub back : List Text
  pub old_lines : old ≡ front ++ (removed_lines ++ back)
  pub new_lines : new ≡ front ++ (added_lines ++ back)
  pub prefix : length front ≡ common_prefix old new
  pub suffix : length back ≡ common_suffix (common_prefix old new) old new

pub divide : (old new : List Text) → Parts old new
unfolding common_suffix
divide old new =
    let s = common_prefix-SharedFront old new in
    let n = common_prefix old new in
    let a = ap (drop n) s.old_lines ∙ drop-front s.front s.old_rest n (sym s.size) in
    let b = ap (drop n) s.new_lines ∙ drop-front s.front s.new_rest n (sym s.size) in
    let t = back_of (drop n old) (drop n new) in
    record {
      front = s.front;
      removed_lines = t.old_rest;
      added_lines = t.new_rest;
      back = t.back;
      old_lines = s.old_lines ∙ ap (λ r. s.front ++ r) (sym a ∙ t.old_lines);
      new_lines = s.new_lines ∙ ap (λ r. s.front ++ r) (sym b ∙ t.new_lines);
      prefix = s.size;
      suffix = t.size;
    }
