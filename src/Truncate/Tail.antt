-- ===== src/Truncate/Tail.antt =====
-- `truncateTail` of internal/engine/truncate.go.
use mathlib.Core.List.{reverse, reverse-cons, reverse-reverse}
use ergo_agent.Prelude.{
  ℕ, ◌+◌, ◌-◌, ◌≤◌, ◌<◌, ◌⊎◌, ◌≡◌, refl, sym, ◌∙◌, ap, Bool, true, false, not, List, [], ◌∷◌, ◌++◌,
  append-nil, append_assoc, Bytes, length, length-drop, drop, take, take-append-drop, ltb, eqb,
  Bool-cases, inl, inr, arith,
}
use ergo_agent.Truncate.{
  newline, join, split_count_lines, line_cost, Truncation, rune_start, skip_continuation,
  last_bytes, tail_loop, fits, truncate_tail,
}
use ergo_agent.Truncate.Lines.{
  final_newline, join-split_count_lines, join_front, join-append_front, length-join-cons,
}

length-skip_continuation-le : (s : Bytes) → length (skip_continuation s) ≤ length s
unfolding skip_continuation
length-skip_continuation-le [] = omega arith
length-skip_continuation-le (b ∷ s) = ground (arith, length-skip_continuation-le s)

length-last_bytes-le : (line : Bytes) (mb : ℕ) → length (last_bytes line mb) ≤ mb
unfolding last_bytes
length-last_bytes-le line mb = ground (
  arith,
  length-skip_continuation-le (drop (length line - mb) line),
  length-drop (length line - mb) line,
)

-- The text is empty or begins with the first byte of a character.
pub StartsRune : Bytes → Type 0
StartsRune [] = Unit
StartsRune (b ∷ _) = rune_start b ≡ true

skip_continuation-StartsRune : (s : Bytes) → StartsRune (skip_continuation s)
unfolding skip_continuation StartsRune
skip_continuation-StartsRune [] = tt
skip_continuation-StartsRune (b ∷ s) = elim (Bool-cases (rune_start b)) [
  | inl e ↦ rw e e
  | inr e ↦ rw e (skip_continuation-StartsRune s)
]

-- No byte of the text begins a character.
pub NoStarts : Bytes → Type 0
NoStarts [] = Unit
NoStarts (b ∷ s) = (rune_start b ≡ false) × NoStarts s

skip_continuation-NoStarts :
    (s : Bytes) → (skipped : Bytes) × NoStarts skipped × (s ≡ skipped ++ skip_continuation s)
unfolding skip_continuation NoStarts
skip_continuation-NoStarts [] = ([], tt, refl)
skip_continuation-NoStarts (b ∷ s) = elim (Bool-cases (rune_start b)) [
  | inl e ↦ ([], tt, rw e refl)
  | inr e ↦
      let (skipped, none_starts, p) = skip_continuation-NoStarts s in
      (b ∷ skipped, (e, none_starts), rw e (ap (λ (t : Bytes). b ∷ t) p))
]

-- The text is what the last bytes of the line, as many as the limit, have behind the rest of a
-- character at their beginning.
pub record IsLastBytes (line : Bytes) (max_bytes : ℕ) (text : Bytes) : Type 0 where
  pub front : Bytes
  pub skipped : Bytes
  pub split : line ≡ front ++ (skipped ++ text)
  pub at_limit : length (skipped ++ text) ≡ max_bytes
  pub not_starts : NoStarts skipped
  pub starts : StartsRune text

last_bytes-IsLastBytes :
    (line : Bytes) (mb : ℕ) → mb < length line → IsLastBytes line mb (last_bytes line mb)
unfolding last_bytes
last_bytes-IsLastBytes line mb h =
    let n = length line - mb in
    let (skipped, none_starts, p) = skip_continuation-NoStarts (drop n line) in
    record {
      front = take n line;
      skipped = skipped;
      split = sym (take-append-drop n line) ∙ ap (λ (t : Bytes). take n line ++ t) p;
      at_limit = ap length (sym p) ∙ length-drop n line ∙ omega (arith, h);
      not_starts = none_starts;
      starts = skip_continuation-StartsRune (drop n line);
    }

module _ (ml mb : ℕ) where
  tail_loop_bounds :
      (out : List Bytes) (size : ℕ) (before : List Bytes)
      → length out ≤ ml
      → length (join newline out) ≡ size
      → size ≤ mb
      → (length (tail_loop ml mb out size before).0 ≤ ml)
        × (length (join newline (tail_loop ml mb out size before).0) ≤ mb)
  unfolding tail_loop
  tail_loop_bounds out size [] hl hs ls = ground arith
  tail_loop_bounds out size (line ∷ before) hl hs ls = ground (
    arith,
    length-last_bytes-le line mb,
    append-nil (last_bytes line mb),
    length-join-cons out line,
    tail_loop_bounds (line ∷ out) (size + line_cost out line) before,
  )

-- How the lines are cut: whole lines are kept, and the line before them has no room; or the last
-- line alone is too long, and its last bytes are kept, from the first beginning of a character on. `left` holds the lines that are not kept,
-- the one nearest to the cut first.
pub data TailCut (max_lines max_bytes : ℕ) (lines : List Bytes) : List Bytes → Bool → Type 0 where
  whole_lines :
      (left kept : List Bytes)
      → lines ≡ reverse left ++ kept
      → ((line : Bytes) (more : List Bytes)
          → left ≡ line ∷ more
          → (max_lines ≤ length kept) ⊎ (max_bytes < length (join newline (line ∷ kept))))
      → TailCut max_lines max_bytes lines kept false
  part_of_line :
      (left : List Bytes) (line text : Bytes)
      → lines ≡ reverse left ++ line ∷ []
      → max_bytes < length line
      → IsLastBytes line max_bytes text
      → TailCut max_lines max_bytes lines (text ∷ []) true

reverse-cons_append :
    (line : Bytes) (before out : List Bytes)
    → reverse (line ∷ before) ++ out ≡ reverse before ++ line ∷ out
reverse-cons_append line before out =
    rw reverse-cons (append_assoc (reverse before) (line ∷ []) out)

module _ (ml mb : ℕ) where
  stop_whole :
      (out before : List Bytes)
      → ((line : Bytes) (more : List Bytes)
          → before ≡ line ∷ more
          → (ml ≤ length out) ⊎ (mb < length (join newline (line ∷ out))))
      → TailCut ml mb (reverse before ++ out) out false
  stop_whole out before h = whole_lines before out refl h

  tail_loop_cut :
      (out : List Bytes) (size : ℕ) (before : List Bytes)
      → length (join newline out) ≡ size
      → TailCut ml mb
          (reverse before ++ out)
          (tail_loop ml mb out size before).0
          (tail_loop ml mb out size before).2
  unfolding tail_loop
  tail_loop_cut out size [] hs = stop_whole out [] (λ line more e. cc)
  tail_loop_cut [] size (line ∷ before) hs = elim (Bool-cases (not (ltb 0 ml))) [
    | inl e ↦ rw e (stop_whole [] (line ∷ before) (λ l more q. inl (ground arith)))
    | inr e ↦ elim (Bool-cases (ltb mb (size + line_cost [] line))) [
      | inl f ↦
          let long : mb < length line = ground arith in
          rw (e, f)
            (part_of_line before line (last_bytes line mb) (reverse-cons_append line before []) long
              (last_bytes-IsLastBytes line mb long))
      | inr f ↦
          rw (e, f)
            (rw (reverse-cons_append line before []) (
              tail_loop_cut (line ∷ []) (size + line_cost [] line) before
                (ground (arith, length-join-cons [] line))))
    ]
  ]
  tail_loop_cut (o ∷ out) size (line ∷ before) hs =
      elim (Bool-cases (not (ltb (length (o ∷ out)) ml))) [
        | inl e ↦ rw e (stop_whole (o ∷ out) (line ∷ before) (λ l more q. inl (ground arith)))
        | inr e ↦ elim (Bool-cases (ltb mb (size + line_cost (o ∷ out) line))) [
          | inl f ↦
              let z : eqb (length (o ∷ out)) 0 ≡ false = ground arith in
              rw (e, f, z)
                (stop_whole (o ∷ out) (line ∷ before)
                  (λ l more q. inr (ground (arith, length-join-cons (o ∷ out) line))))
          | inr f ↦
              rw (e, f)
                (rw (reverse-cons_append line before (o ∷ out)) (
                  tail_loop_cut (line ∷ o ∷ out) (size + line_cost (o ∷ out) line) before
                    (ground (arith, length-join-cons (o ∷ out) line))))
        ]
      ]

-- Joined, a cut is a suffix of the joined lines.
TailCut-suffix :
    {ml mb : ℕ} {lines kept : List Bytes} {partial : Bool}
    → TailCut ml mb lines kept partial
    → (front : Bytes) × (join newline lines ≡ front ++ join newline kept)
TailCut-suffix (whole_lines left kept splits _) =
    (join_front (reverse left) kept, rw splits (join-append_front (reverse left) kept))
TailCut-suffix {mb} (part_of_line left line text splits _ last) =
    let rest = last.front ++ last.skipped in
    (
      join_front (reverse left) (line ∷ []) ++ rest,
      rw splits (
          join-append_front (reverse left) (line ∷ [])
          ∙ ap (λ (t : Bytes). join_front (reverse left) (line ∷ []) ++ t)
              (append-nil line ∙ last.split ∙ sym (append_assoc last.front last.skipped text))
          ∙ sym (append_assoc (join_front (reverse left) (line ∷ [])) rest text)
          ∙ ap (λ (t : Bytes). (join_front (reverse left) (line ∷ []) ++ rest) ++ t)
              (sym (append-nil text))),
    )

TailCut-StartsRune :
    {ml mb : ℕ} {lines kept : List Bytes} {partial : Bool}
    → TailCut ml mb lines kept partial
    → partial ≡ true
    → StartsRune (join newline kept)
TailCut-StartsRune (whole_lines left kept splits _) h = cc
TailCut-StartsRune {mb} (part_of_line left line text splits _ last) h = rw append-nil last.starts

-- What a cut at the tail is, in terms of the lines of the content.
pub record IsTailCut (content : Bytes) (max_lines max_bytes : ℕ) (t : Truncation) : Type 0 where
  pub kept : List Bytes
  pub cut : TailCut max_lines max_bytes (split_count_lines content) kept t.partial
  pub content_kept : t.content ≡ join newline kept
  pub lines_counted : t.output_lines ≡ length kept
  pub bytes_counted : t.output_bytes ≡ length t.content

module _ (content : Bytes) (ml mb : ℕ) where
  -- For any content and limits, the lines and bytes that truncateTail counts and the bytes of the
  -- text that it returns are within the limits.
  pub truncate_tail_within :
      ((truncate_tail content ml mb).output_lines ≤ ml)
      × ((truncate_tail content ml mb).output_bytes ≤ mb)
      × (length (truncate_tail content ml mb).content ≤ mb)
  unfolding truncate_tail
  truncate_tail_within =
      ground (arith, tail_loop_bounds ml mb [] 0 (reverse (split_count_lines content)))

  -- The result is marked truncated exactly when the content exceeds a limit, and else it is the
  -- content.
  pub truncate_tail-truncated :
      ((truncate_tail content ml mb).truncated ≡ not (fits content ml mb))
      × ((truncate_tail content ml mb).truncated ≡ false
          → (truncate_tail content ml mb).content ≡ content)
  unfolding truncate_tail
  truncate_tail-truncated = ground arith

  -- When truncateTail reports a truncation, its result holds the last lines of the content, counted
  -- rightly, and with the line before them a limit would be exceeded; or the last line is too long
  -- alone, and it holds what the last bytes of that line, as many as the limit, have behind the
  -- rest of a character at their beginning.
  pub truncate_tail-IsTailCut :
      (truncate_tail content ml mb).truncated ≡ true
      → IsTailCut content ml mb (truncate_tail content ml mb)
  unfolding truncate_tail
  truncate_tail-IsTailCut h = elim (Bool-cases (fits content ml mb)) [
    | inl e ↦ absurd (ground arith)
    | inr e ↦
        let lines = split_count_lines content in
        let cut = tail_loop_cut ml mb [] 0 (reverse lines) refl in
        rw e (record {
          kept = (tail_loop ml mb [] 0 (reverse lines)).0;
          cut = rw (append-nil, reverse-reverse) at cut;
          content_kept = refl;
          lines_counted = refl;
          bytes_counted = refl;
        })
  ]

  -- When truncateTail reports a truncation, the text that it returns is a suffix of the content
  -- without its final newline.
  pub truncate_tail-suffix :
      (truncate_tail content ml mb).truncated ≡ true
      → (front : Bytes) × (content
          ≡ front ++ ((truncate_tail content ml mb).content ++ final_newline content))
  truncate_tail-suffix h =
      let c = truncate_tail-IsTailCut h in
      let (front, p) = TailCut-suffix c.cut in
      (
        front,
        sym (join-split_count_lines content)
            ∙ rw (c.content_kept, p)
                (append_assoc front (join newline c.kept) (final_newline content)),
      )

  -- When truncateTail reports a truncation within a line, the text that it returns begins at the
  -- first byte of a character.
  pub truncate_tail-StartsRune :
      (truncate_tail content ml mb).truncated ≡ true
      → (truncate_tail content ml mb).partial ≡ true
      → StartsRune (truncate_tail content ml mb).content
  truncate_tail-StartsRune h q =
      let c = truncate_tail-IsTailCut h in rw c.content_kept (TailCut-StartsRune c.cut q)
