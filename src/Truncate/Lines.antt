-- ===== src/Truncate/Lines.antt =====
-- `splitCountLines` of internal/engine/truncate.go, and the joins that undo it.
use ergo_agent.Prelude.{
  ℕ, ◌+◌, ◌≡◌, refl, true, List, [], ◌∷◌, ◌++◌, append-nil, append_assoc, Bytes, length,
  length-append, Bool-cases, inl, inr, if◌then◌else◌, arith,
}
use ergo_agent.Truncate.{
  newline, cons_head, split, join_more, join, ends_with, drop_last, split_count_lines, line_cost,
}

join_more-cons_head :
    (sep c : ℕ) (ls : List Bytes) (t : Bytes)
    → join_more sep ls ≡ sep ∷ t
    → join_more sep (cons_head c ls) ≡ sep ∷ c ∷ t
join_more-cons_head sep c [] t h = cc
join_more-cons_head sep c (l ∷ ls) t h = cc

join_more-split : (sep : ℕ) (s : Bytes) → join_more sep (split sep s) ≡ sep ∷ s
unfolding split
join_more-split sep [] = refl
join_more-split sep (c ∷ s) =
    ground (arith, join_more-split sep s, join_more-cons_head sep c (split sep s) s)

join_of_join_more :
    (sep : ℕ) (ls : List Bytes) (t : Bytes) → join_more sep ls ≡ sep ∷ t → join sep ls ≡ t
join_of_join_more sep [] t h = cc
join_of_join_more sep (l ∷ ls) t h = cc

pub join-split : (sep : ℕ) (s : Bytes) → join sep (split sep s) ≡ s
join-split sep s = join_of_join_more sep (split sep s) s (join_more-split sep s)

drop_last-cons_head :
    (c d : ℕ) (ls : List Bytes) (t : Bytes)
    → join_more newline (drop_last ls) ++ newline ∷ [] ≡ newline ∷ d ∷ t
    → join_more newline (drop_last (cons_head c ls)) ++ newline ∷ [] ≡ newline ∷ c ∷ d ∷ t
drop_last-cons_head c d [] t h = cc
drop_last-cons_head c d (l ∷ []) t h = cc
drop_last-cons_head c d (l ∷ l' ∷ ls) t h = cc

drop_last-empty_line :
    (d : ℕ) (ls : List Bytes) (t : Bytes)
    → join_more newline (drop_last ls) ++ newline ∷ [] ≡ newline ∷ d ∷ t
    → join_more newline (drop_last ([] ∷ ls)) ++ newline ∷ [] ≡ newline ∷ newline ∷ d ∷ t
drop_last-empty_line d [] t h = cc
drop_last-empty_line d (l ∷ ls) t h = cc

join_more-drop_last :
    (c : ℕ) (s : Bytes)
    → ends_with newline (c ∷ s) ≡ true
    → join_more newline (drop_last (split newline (c ∷ s))) ++ newline ∷ [] ≡ newline ∷ c ∷ s
unfolding split ends_with
join_more-drop_last c [] h = ground arith
join_more-drop_last c (d ∷ s) h = ground (
  arith,
  join_more-drop_last d s,
  drop_last-empty_line d (split newline (d ∷ s)) s,
  drop_last-cons_head c d (split newline (d ∷ s)) s,
)

join-drop_last :
    (ls : List Bytes) (c : ℕ) (s : Bytes)
    → join_more newline ls ++ newline ∷ [] ≡ newline ∷ c ∷ s
    → join newline ls ++ newline ∷ [] ≡ c ∷ s
join-drop_last [] c s h = cc
join-drop_last (l ∷ ls) c s h = cc

-- The newline at the end, which `split_count_lines` does not count as a line.
abbrev pub final_newline : Bytes → Bytes
final_newline content = if ends_with newline content then newline ∷ [] else []

pub join-split_count_lines :
    (content : Bytes) → join newline (split_count_lines content) ++ final_newline content ≡ content
unfolding split_count_lines
join-split_count_lines [] = unfold ends_with in refl
join-split_count_lines (c ∷ s) = elim (Bool-cases (ends_with newline (c ∷ s))) [
  | inl e ↦
      rw e (join-drop_last (drop_last (split newline (c ∷ s))) c s (join_more-drop_last c s e))
  | inr e ↦ rw e (rw append-nil (join-split newline (c ∷ s)))
]

pub join_more-append :
    (sep : ℕ) (a b : List Bytes) → join_more sep (a ++ b) ≡ join_more sep a ++ join_more sep b
join_more-append sep [] b = refl
join_more-append sep (l ∷ a) b = simp (join_more-append sep a b, append_assoc)

-- What stands behind the joined lines `a` when the lines `b` follow them.
pub join_rest : List Bytes → List Bytes → Bytes
join_rest [] b = join newline b
join_rest (l ∷ a) b = join_more newline b

pub join-append_rest : (a b : List Bytes) → join newline (a ++ b) ≡ join newline a ++ join_rest a b
unfolding join_rest
join-append_rest [] b = refl
join-append_rest (l ∷ a) b = simp (join_more-append, append_assoc)

-- What stands before the joined lines `b` when the lines `a` precede them.
pub join_front : List Bytes → List Bytes → Bytes
join_front [] b = []
join_front (l ∷ a) [] = join newline (l ∷ a)
join_front (l ∷ a) (m ∷ b) = join newline (l ∷ a) ++ newline ∷ []

pub join-append_front :
    (a b : List Bytes) → join newline (a ++ b) ≡ join_front a b ++ join newline b
unfolding join_front
join-append_front [] b = refl
join-append_front (l ∷ a) [] = simp (append-nil)
join-append_front (l ∷ a) (m ∷ b) = simp (join_more-append, append_assoc)

pub length-join-snoc :
    (out : List Bytes) (line : Bytes)
    → length (join newline (out ++ line ∷ [])) ≡ length (join newline out) + line_cost out line
length-join-snoc [] line = rw append-nil (omega arith)
length-join-snoc (l ∷ out) line =
    simp (join_more-append newline out (line ∷ []), append-nil)
      (ground (
        arith,
        length-append l (join_more newline out ++ newline ∷ line),
        length-append (join_more newline out) (newline ∷ line),
        length-append l (join_more newline out),
      ))

pub length-join-cons :
    (out : List Bytes) (line : Bytes)
    → length (join newline (line ∷ out)) ≡ length (join newline out) + line_cost out line
length-join-cons [] line = rw append-nil (omega arith)
length-join-cons (l ∷ out) line =
    ground (arith, length-append line (newline ∷ l ++ join_more newline out))
