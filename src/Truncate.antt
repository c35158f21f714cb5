-- ===== src/Truncate.antt =====
-- internal/engine/truncate.go: output limits of the tools, in lines and in bytes.
pub mod Lines
pub mod Head
pub mod Tail
use mathlib.Core.List.{reverse}
use ergo_agent.Prelude.{
  ℕ, suc, ◌+◌, ◌-◌, Bool, true, false, not, ◌&&◌, List, [], ◌∷◌, ◌++◌, Bytes, length, drop, ltb,
  leb, eqb, if◌then◌else◌,
}

abbrev pub newline : ℕ
newline = 10

-- strings.Split at a one-byte separator: at least one piece.
abbrev pub cons_head : ℕ → List Bytes → List Bytes
cons_head c [] = (c ∷ []) ∷ []
cons_head c (l ∷ ls) = (c ∷ l) ∷ ls

unfoldable pub split : ℕ → Bytes → List Bytes
split sep [] = [] ∷ []
split sep (c ∷ s) = let rest = split sep s in if eqb c sep then [] ∷ rest else cons_head c rest

-- strings.Join with a one-byte separator.
abbrev pub join_more : ℕ → List Bytes → Bytes
join_more sep [] = []
join_more sep (l ∷ ls) = sep ∷ l ++ join_more sep ls

abbrev pub join : ℕ → List Bytes → Bytes
join sep [] = []
join sep (l ∷ ls) = l ++ join_more sep ls

-- strings.HasSuffix with a one-byte suffix.
unfoldable pub ends_with : ℕ → Bytes → Bool
ends_with c [] = false
ends_with c (b ∷ []) = eqb b c
ends_with c (b ∷ s) = ends_with c s

-- lines[:len(lines)-1]
abbrev pub drop_last {ℓ} : {A : Type ℓ} → List A → List A
drop_last [] = []
drop_last (x ∷ []) = []
drop_last (x ∷ y ∷ xs) = x ∷ drop_last (y ∷ xs)

unfoldable pub split_count_lines : Bytes → List Bytes
split_count_lines [] = []
split_count_lines (c ∷ s) =
    let lines = split newline (c ∷ s) in
    if ends_with newline (c ∷ s) then drop_last lines else lines

-- The field `By`: "" while nothing is cut.
pub data By : Type 0 where
  uncut by_lines by_bytes : By

pub record Truncation : Type 0 where
  pub content : Bytes
  pub truncated : Bool
  pub by : By
  pub total_lines : ℕ
  pub total_bytes : ℕ
  pub output_lines : ℕ
  pub output_bytes : ℕ
  pub first_line_exceeds : Bool
  pub partial : Bool

abbrev pub whole : Bytes → List Bytes → Truncation
whole content lines = record {
  content = content;
  truncated = false;
  by = uncut;
  total_lines = length lines;
  total_bytes = length content;
  output_lines = length lines;
  output_bytes = length content;
  first_line_exceeds = false;
  partial = false;
}

-- The last three assignments of both functions.
abbrev pub finish : Truncation → By → List Bytes → Bool → Truncation
finish result by out partial = record result {
  truncated = true;
  by = by;
  content = join newline out;
  output_lines = length out;
  output_bytes = length (join newline out);
  partial = partial;
}

-- A line costs its bytes, and one more for the newline before it unless it is the first.
abbrev pub line_cost : List Bytes → Bytes → ℕ
line_cost out line = length line + (if ltb 0 (length out) then 1 else 0)

-- The loop of `truncateHead`: `i` lines passed, `out` kept, `size` bytes in `out`.
unfoldable pub head_loop : ℕ → ℕ → ℕ → List Bytes → ℕ → List Bytes → List Bytes × By
head_loop max_lines max_bytes i out size [] = (out, by_lines)
head_loop max_lines max_bytes i out size (line ∷ rest) =
    let cost = line_cost out line in
    let next = head_loop max_lines max_bytes (i + 1) (out ++ line ∷ []) (size + cost) rest in
    if leb max_lines i
    then (out, by_lines)
    else if ltb max_bytes (size + cost)
    then (out, by_bytes)
    else next

-- len(lines) > 0 && len(lines[0]) > maxBytes
abbrev pub first_exceeds : List Bytes → ℕ → Bool
first_exceeds [] max_bytes = false
first_exceeds (line ∷ _) max_bytes = ltb max_bytes (length line)

abbrev pub fits : Bytes → ℕ → ℕ → Bool
fits content max_lines max_bytes =
    leb (length (split_count_lines content)) max_lines && leb (length content) max_bytes

unfoldable pub truncate_head : Bytes → ℕ → ℕ → Truncation
truncate_head content max_lines max_bytes =
    let lines = split_count_lines content in
    let result = whole content lines in
    if fits content max_lines max_bytes
    then result
    else if first_exceeds lines max_bytes
    then record result {
      truncated = true;
      by = by_bytes;
      content = [];
      output_lines = 0;
      output_bytes = 0;
      first_line_exceeds = true;
    }
    else let (out, by) = head_loop max_lines max_bytes 0 [] 0 lines in finish result by out false

-- utf8.RuneStart: not a continuation byte 10xxxxxx.
abbrev pub rune_start : ℕ → Bool
rune_start b = not (leb 128 b && ltb b 192)

-- The inner loop that moves `start` to the beginning of a character.
unfoldable pub skip_continuation : Bytes → Bytes
skip_continuation [] = []
skip_continuation (b ∷ s) = let rest = skip_continuation s in if rune_start b then b ∷ s else rest

unfoldable pub last_bytes : Bytes → ℕ → Bytes
last_bytes line max_bytes = skip_continuation (drop (length line - max_bytes) line)

-- The loop of `truncateTail` over the lines from the last to the first: `before` holds the lines
-- that it has not passed, the next one first.
unfoldable pub tail_loop : ℕ → ℕ → List Bytes → ℕ → List Bytes → List Bytes × By × Bool
tail_loop max_lines max_bytes out size [] = (out, by_lines, false)
tail_loop max_lines max_bytes out size (line ∷ before) =
    let cost = line_cost out line in
    let next = tail_loop max_lines max_bytes (line ∷ out) (size + cost) before in
    if not (ltb (length out) max_lines)
    then (out, by_lines, false)
    else if ltb max_bytes (size + cost)
    then (if eqb (length out) 0
        then (last_bytes line max_bytes ∷ [], by_bytes, true)
        else (out, by_bytes, false))
    else next

abbrev pub finish_tail : Truncation → List Bytes × By × Bool → Truncation
finish_tail result (out, by, partial) = finish result by out partial

unfoldable pub truncate_tail : Bytes → ℕ → ℕ → Truncation
truncate_tail content max_lines max_bytes =
    let lines = split_count_lines content in
    let result = whole content lines in
    if fits content max_lines max_bytes
    then result
    else finish_tail result (tail_loop max_lines max_bytes [] 0 (reverse lines))
