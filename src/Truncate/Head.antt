-- ===== src/Truncate/Head.antt =====
-- `truncateHead` of internal/engine/truncate.go.
use ergo_agent.Prelude.{
  ℕ, ◌+◌, ◌≤◌, ◌<◌, ◌⊎◌, ◌≡◌, refl, sym, ◌∙◌, true, false, not, List, [], ◌∷◌, ◌++◌, append-nil,
  append_assoc, Bytes, length, length-append, leb, ltb, Bool-cases, inl, inr, arith,
}
use ergo_agent.Truncate.{
  newline, join, split_count_lines, line_cost, Truncation, head_loop, first_exceeds, fits,
  truncate_head,
}
use ergo_agent.Truncate.Lines.{
  final_newline, join-split_count_lines, join_rest, join-append_rest, length-join-snoc,
}

-- The lines fall into those kept and a rest, whose first line has no room beside the kept ones.
pub record Cut (max_lines max_bytes : ℕ) (lines kept : List Bytes) : Type 0 where
  pub rest : List Bytes
  pub splits : lines ≡ kept ++ rest
  pub no_room :
      (line : Bytes) (more : List Bytes)
      → rest ≡ line ∷ more
      → (max_lines ≤ length kept) ⊎ (max_bytes < length (join newline (kept ++ line ∷ [])))

module _ (ml mb : ℕ) where
  -- The loop keeps the number of lines and of joined bytes within the limits.
  head_loop_bounds :
      (i : ℕ) (out : List Bytes) (size : ℕ) (lines : List Bytes)
      → length out ≡ i
      → i ≤ ml
      → length (join newline out) ≡ size
      → size ≤ mb
      → (length (head_loop ml mb i out size lines).0 ≤ ml)
        × (length (join newline (head_loop ml mb i out size lines).0) ≤ mb)
  unfolding head_loop
  head_loop_bounds i out size [] hi li hs ls = ground arith
  head_loop_bounds i out size (line ∷ rest) hi li hs ls = ground (
    arith,
    length-append out (line ∷ []),
    length-join-snoc out line,
    head_loop_bounds (i + 1) (out ++ line ∷ []) (size + line_cost out line) rest,
  )

  -- The loop cuts `out` and the lines it is given where the next line has no room.
  head_loop-Cut :
      (i : ℕ) (out : List Bytes) (size : ℕ) (lines : List Bytes)
      → length out ≡ i
      → length (join newline out) ≡ size
      → Cut ml mb (out ++ lines) (head_loop ml mb i out size lines).0
  unfolding head_loop
  head_loop-Cut i out size [] hi hs = record {
    rest = [];
    splits = refl;
    no_room = λ line more e. cc;
  }
  head_loop-Cut i out size (line ∷ rest) hi hs = elim (Bool-cases (leb ml i)) [
    | inl e ↦
        rw e
          (record { rest = line ∷ rest; splits = refl; no_room = λ l more q. inl (ground arith) })
    | inr e ↦ elim (Bool-cases (ltb mb (size + line_cost out line))) [
      | inl f ↦
          rw (e, f)
            (record {
              rest = line ∷ rest;
              splits = refl;
              no_room = λ l more q. inr (ground (arith, length-join-snoc out line));
            })
      | inr f ↦
          let next =
            head_loop-Cut (i + 1) (out ++ line ∷ []) (size + line_cost out line) rest
              (ground (arith, length-append out (line ∷ [])))
              (ground (arith, length-join-snoc out line)) in
          rw (e, f)
            (record {
              rest = next.rest;
              splits = sym (append_assoc out (line ∷ []) rest) ∙ next.splits;
              no_room = next.no_room;
            })
    ]
  ]

-- What a cut at the head is, in terms of the lines of the content.
pub record IsHeadCut (content : Bytes) (max_lines max_bytes : ℕ) (t : Truncation) : Type 0 where
  pub kept : List Bytes
  pub cut : Cut max_lines max_bytes (split_count_lines content) kept
  pub content_kept : t.content ≡ join newline kept
  pub lines_counted : t.output_lines ≡ length kept
  pub bytes_counted : t.output_bytes ≡ length t.content

no_room_for_first :
    (ml mb : ℕ) (lines : List Bytes) → first_exceeds lines mb ≡ true → Cut ml mb lines []
no_room_for_first ml mb [] h = cc
no_room_for_first ml mb (line ∷ lines) h = record {
  rest = line ∷ lines;
  splits = refl;
  no_room = λ l more q. inr (ground (arith, append-nil l));
}

module _ (content : Bytes) (ml mb : ℕ) where
  -- For any content and limits, the lines and bytes that truncateHead counts and the bytes of the
  -- text that it returns are within the limits.
  pub truncate_head_within :
      ((truncate_head content ml mb).output_lines ≤ ml)
      × ((truncate_head content ml mb).output_bytes ≤ mb)
      × (length (truncate_head content ml mb).content ≤ mb)
  unfolding truncate_head
  truncate_head_within = ground (arith, head_loop_bounds ml mb 0 [] 0 (split_count_lines content))

  -- The result is marked truncated exactly when the content exceeds a limit, and else it is the
  -- content.
  pub truncate_head-truncated :
      ((truncate_head content ml mb).truncated ≡ not (fits content ml mb))
      × ((truncate_head content ml mb).truncated ≡ false
          → (truncate_head content ml mb).content ≡ content)
  unfolding truncate_head
  truncate_head-truncated = ground arith

  -- When truncateHead reports a truncation, its result holds the first lines of the content,
  -- counted rightly, and with the first line left out a limit would be exceeded.
  pub truncate_head-IsHeadCut :
      (truncate_head content ml mb).truncated ≡ true
      → IsHeadCut content ml mb (truncate_head content ml mb)
  unfolding truncate_head
  truncate_head-IsHeadCut h = elim (Bool-cases (fits content ml mb)) [
    | inl e ↦ absurd (ground arith)
    | inr e ↦ elim (Bool-cases (first_exceeds (split_count_lines content) mb)) [
      | inl f ↦
          rw (e, f)
            (record {
              kept = [];
              cut = no_room_for_first ml mb (split_count_lines content) f;
              content_kept = refl;
              lines_counted = refl;
              bytes_counted = refl;
            })
      | inr f ↦
          rw (e, f)
            (record {
              kept = (head_loop ml mb 0 [] 0 (split_count_lines content)).0;
              cut = head_loop-Cut ml mb 0 [] 0 (split_count_lines content) refl refl;
              content_kept = refl;
              lines_counted = refl;
              bytes_counted = refl;
            })
    ]
  ]

  -- The text that truncateHead returns is a prefix of the content.
  pub truncate_head-prefix :
      (rest : Bytes) × (content ≡ (truncate_head content ml mb).content ++ rest)
  truncate_head-prefix = elim (Bool-cases (truncate_head content ml mb).truncated) [
    | inl e ↦
        let c = truncate_head-IsHeadCut e in
        (
          join_rest c.kept c.cut.rest ++ final_newline content,
          sym (join-split_count_lines content)
              ∙ rw (c.content_kept, c.cut.splits, join-append_rest)
                  (append_assoc (join newline c.kept) (join_rest c.kept c.cut.rest)
                    (final_newline content)),
        )
    | inr e ↦ ([], sym (append-nil _ ∙ truncate_head-truncated.1 e))
  ]
