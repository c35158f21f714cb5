-- ===== src/FileEdit/Diff.antt =====
-- internal/engine/file_edit.go: renderEditDiff. The display and the patch are lists of lines with
-- their marks, and the header of the patch is its four numbers.
pub mod Parts
pub mod Patch
use ergo_agent.Prelude.{
  ℕ, zero, suc, ◌+◌, ◌-◌, ◌&&◌, min, Bool, List, [], ◌∷◌, ◌++◌, eqb, length, take, drop,
  if◌then◌else◌,
}
use ergo_agent.FileEdit.{Text, newline, same_text}

pub data Shown : Type 0 where
  context removed added : ℕ → Text → Shown

pub record EditDiff : Type 0 where
  pub display : List Shown
  pub patch : List Shown
  pub first_old : ℕ
  pub old_count : ℕ
  pub new_count : ℕ
  pub first_line : ℕ

-- strings.Split(text, "\n")
unfoldable pub split_lines : Text → List Text
split_lines [] = [] ∷ []
split_lines (c ∷ text) =
    let rest = split_lines text in
    if eqb c newline
    then [] ∷ rest
    else elim rest [ [] ↦ (c ∷ []) ∷ [] | line ∷ lines ↦ (c ∷ line) ∷ lines ]

unfoldable pub common_prefix : List Text → List Text → ℕ
common_prefix (a ∷ old) (b ∷ new) =
    let rest = common_prefix old new in if same_text a b then rest + 1 else 0
common_prefix _ _ = 0

abbrev pub reversed : List Text → List Text → List Text
reversed [] acc = acc
reversed (a ∷ lines) acc = reversed lines (a ∷ acc)

-- The equal lines at the end, of what stands behind the prefix.
unfoldable pub common_suffix : ℕ → List Text → List Text → ℕ
common_suffix prefix old new =
    common_prefix (reversed (drop prefix old) []) (reversed (drop prefix new) [])

-- The loop from a line to another.
abbrev pub show_lines : (ℕ → Text → Shown) → ℕ → List Text → List Shown
show_lines mark n [] = []
show_lines mark n (a ∷ lines) = mark n a ∷ show_lines mark (n + 1) lines

abbrev pub between : ℕ → ℕ → List Text → List Text
between start end lines = take (end - start) (drop start lines)

unfoldable pub render_edit_diff : Text → Text → EditDiff
render_edit_diff old_text new_text =
    let old = split_lines old_text in
    let new = split_lines new_text in
    let prefix = common_prefix old new in
    let suffix = common_suffix prefix old new in
    let start = prefix - 4 in
    let old_end = min (length old) (length old - suffix + 4) in
    let new_end = min (length new) (length new - suffix + 4) in
    let lines =
      show_lines context (start + 1) (between start prefix old)
      ++ show_lines removed (prefix + 1) (between prefix (length old - suffix) old)
      ++ show_lines added (prefix + 1) (between prefix (length new - suffix) new)
      ++ show_lines context (length new - suffix + 1) (between (length new - suffix) new_end new) in
    record {
      display = lines;
      patch = lines;
      first_old = start + 1;
      old_count = old_end - start;
      new_count = new_end - start;
      first_line = prefix + 1;
    }
