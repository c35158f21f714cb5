-- ===== src/Tests/Truncation.antt =====
-- internal/engine/truncate.go on concrete texts.
use ergo_agent.Prelude.{◌≤◌, ◌≡◌, refl, [], ◌∷◌, ◌++◌, Bytes, length}
use ergo_agent.Truncate.{
  by_bytes, split, split_count_lines, ends_with, truncate_head, truncate_tail, head_loop, tail_loop,
  skip_continuation, last_bytes,
}
use ergo_agent.Truncate.Head.{IsHeadCut, truncate_head_within, truncate_head-IsHeadCut}
use ergo_agent.Truncate.Tail.{
  IsTailCut, truncate_tail_within, truncate_tail-IsTailCut, truncate_tail-suffix,
}
use ergo_agent.Truncate.Lines.{final_newline}

-- "ab\ncd\nef\n"
abbrev three_lines : Bytes
three_lines = 97 ∷ 98 ∷ 10 ∷ 99 ∷ 100 ∷ 10 ∷ 101 ∷ 102 ∷ 10 ∷ []

-- One line of two characters of two bytes each.
abbrev wide_line : Bytes
wide_line = 195 ∷ 169 ∷ 195 ∷ 168 ∷ []

head_keeps_two : (truncate_head three_lines 2 100).content ≡ 97 ∷ 98 ∷ 10 ∷ 99 ∷ 100 ∷ []
unfolding truncate_head split_count_lines split ends_with head_loop
head_keeps_two = refl

head_stops_at_bytes : (truncate_head three_lines 9 5).by ≡ by_bytes
unfolding truncate_head split_count_lines split ends_with head_loop
head_stops_at_bytes = refl

tail_keeps_one : (truncate_tail three_lines 9 4).content ≡ 101 ∷ 102 ∷ []
unfolding truncate_tail split_count_lines split ends_with tail_loop
tail_keeps_one = refl

tail_keeps_a_character : (truncate_tail wide_line 9 3).content ≡ 195 ∷ 168 ∷ []
unfolding truncate_tail split_count_lines split ends_with tail_loop skip_continuation last_bytes
tail_keeps_a_character = refl

truncate_head_within_example :
    ((truncate_head three_lines 2 5).output_lines ≤ 2)
    × ((truncate_head three_lines 2 5).output_bytes ≤ 5)
    × (length (truncate_head three_lines 2 5).content ≤ 5)
truncate_head_within_example = truncate_head_within three_lines 2 5

truncate_head-IsHeadCut_example : IsHeadCut three_lines 2 5 (truncate_head three_lines 2 5)
unfolding truncate_head split_count_lines split ends_with
truncate_head-IsHeadCut_example = truncate_head-IsHeadCut three_lines 2 5 refl

truncate_tail_within_example :
    ((truncate_tail three_lines 2 4).output_lines ≤ 2)
    × ((truncate_tail three_lines 2 4).output_bytes ≤ 4)
    × (length (truncate_tail three_lines 2 4).content ≤ 4)
truncate_tail_within_example = truncate_tail_within three_lines 2 4

truncate_tail-IsTailCut_example : IsTailCut wide_line 9 3 (truncate_tail wide_line 9 3)
unfolding truncate_tail split_count_lines split ends_with
truncate_tail-IsTailCut_example = truncate_tail-IsTailCut wide_line 9 3 refl

truncate_tail-suffix_example :
    (front : Bytes) × (wide_line
      ≡ front ++ ((truncate_tail wide_line 9 3).content ++ final_newline wide_line))
unfolding truncate_tail split_count_lines split ends_with
truncate_tail-suffix_example = truncate_tail-suffix wide_line 9 3 refl
