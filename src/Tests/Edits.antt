-- ===== src/Tests/Edits.antt =====
-- The edit tool of internal/engine/file_edit.go on concrete texts.
use ergo_agent.Prelude.{◌≡◌, refl, List, [], ◌∷◌}
use ergo_agent.FileEdit.{
  Text, Edit, ok, replace_in, apply_file_edits, use_fuzzy, index_of, starts, searched_in,
  find_matches, find_match, match_at, count_of, count_from, sort_matches, insert_match,
  replace_sorted, check_overlap, splice_all, splice, same_text, normalize_edits, normalize_lf,
  join_crlf, replace_cr, ends_crlf, restore_crlf, normalize_fuzzy_with_boundaries, fuzzy_pairs,
  fuzzy_rune,
}
use ergo_agent.FileEdit.Diff.{
  context, added, split_lines, common_prefix, common_suffix, render_edit_diff,
}
use ergo_agent.FileEdit.Diff.Patch.{IsPatch, render_edit_diff-IsPatch}
use ergo_agent.FileEdit.Matches.{IsReplacement, replace_in-IsReplacement}

abbrev base : Text
base = b'a' ∷ b'b' ∷ b'c' ∷ b'd' ∷ []

-- The second edit stands before the first one.
abbrev two_edits : List Edit
two_edits =
    record { old_text = b'd' ∷ []; new_text = b'x' ∷ b'y' ∷ [] }
    ∷ record { old_text = b'a' ∷ b'b' ∷ []; new_text = [] }
    ∷ []

replaced_twice : replace_in base two_edits ≡ ok (b'c' ∷ b'x' ∷ b'y' ∷ [])
unfolding replace_in use_fuzzy index_of starts searched_in find_matches find_match match_at count_of
    count_from sort_matches insert_match replace_sorted check_overlap splice_all splice same_text
replaced_twice = refl

replace_in-IsReplacement_example : IsReplacement base two_edits (b'c' ∷ b'x' ∷ b'y' ∷ [])
unfolding use_fuzzy index_of starts
replace_in-IsReplacement_example =
    replace_in-IsReplacement base two_edits (b'c' ∷ b'x' ∷ b'y' ∷ []) refl replaced_twice

-- A curly quote is found by a straight one, the line breaks are kept, and the spaces at the end of
-- the line, which the match reaches, are lost.
fuzzy_edit :
    apply_file_edits
      (8217 ∷ 32 ∷ 13 ∷ 10 ∷ b'b' ∷ [])
      (record { old_text = 39 ∷ []; new_text = b'q' ∷ [] } ∷ [])
    ≡ ok (b'q' ∷ 13 ∷ 10 ∷ b'b' ∷ [])
unfolding apply_file_edits normalize_edits normalize_lf join_crlf replace_cr ends_crlf restore_crlf
    replace_in use_fuzzy index_of starts searched_in find_matches find_match match_at count_of
    count_from sort_matches insert_match replace_sorted check_overlap splice_all splice same_text
    normalize_fuzzy_with_boundaries fuzzy_pairs fuzzy_rune
fuzzy_edit = refl

abbrev two_lines : Text
two_lines = b'a' ∷ 10 ∷ b'b' ∷ []

abbrev three_lines : Text
three_lines = b'a' ∷ 10 ∷ b'c' ∷ 10 ∷ b'b' ∷ []

render_edit_diff-IsPatch_example :
    IsPatch
      (split_lines two_lines)
      (split_lines three_lines)
      (render_edit_diff two_lines three_lines)
render_edit_diff-IsPatch_example = render_edit_diff-IsPatch two_lines three_lines

added_line :
    (render_edit_diff two_lines three_lines).patch
    ≡ context 1 (b'a' ∷ []) ∷ added 2 (b'c' ∷ []) ∷ context 3 (b'b' ∷ []) ∷ []
unfolding render_edit_diff split_lines common_prefix common_suffix same_text
added_line = refl
