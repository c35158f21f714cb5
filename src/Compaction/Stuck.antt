-- ===== src/Compaction/Stuck.antt =====
-- The fallback of the cut in `prepareCompaction` of internal/engine/compaction.go.
use ergo_agent.Prelude.{
  ℕ, suc, ◌+◌, ◌-◌, ◌≤◌, ◌<◌, String, Bool, true, false, ◌||◌, ◌≡◌, subst, refl, sym, Option, none,
  some, List, [], ◌∷◌, ◌++◌, leb, eqb, arith, value_or, length, length-snoc, drop, get_elem?,
  if◌then◌else◌, ◌==◌,
}
use ergo_agent.Prelude.Int.{ℤ}
use ergo_agent.Json.{Value}
use ergo_agent.Message.{Message}
use ergo_agent.Session.{Entry}
use ergo_agent.Compaction.Entries.{last_index, entry_message, messages_of}
use ergo_agent.Compaction.Tokens.{estimate_message_tokens}
use ergo_agent.Compaction.{
  is_compaction, entry_at, boundary_of, has_role, is_cut, valid_cuts, candidate, keep_recent,
  move_back, cut_of, turn_of, prepare_at, prepare_compaction, first_id_of, ends_compacted,
}

-- All numbers of the list are less than the bound.
abbrev pub AllLess : List ℕ → ℕ → Type 0
AllLess [] n = Unit
AllLess (c ∷ cuts) n = (c < n) × AllLess cuts n

AllLess-if :
    (b : Bool) (c : ℕ) (cuts : List ℕ) (n : ℕ)
    → c < n
    → AllLess cuts n
    → AllLess (if b then c ∷ cuts else cuts) n
AllLess-if true c cuts n l h = (l, h)
AllLess-if false c cuts n l h = h

length_of :
    (u : Entry) (front : List Entry) (t : Entry)
    → length (u ∷ front ++ t ∷ []) - 0 ≡ suc (suc (length front))
length_of u front t = omega (arith, length-snoc front t)

if_none : {A : Type 0} → (b : Bool) (o : Option A) → o ≡ none → (if b then none else o) ≡ none
if_none true o h = refl
if_none false o h = h

or_true : (b : Bool) → (b || true) ≡ true
or_true b = ground arith

plus_zero : (n : ℕ) → 0 + n ≡ n
plus_zero n = omega arith

leb-true : (m n : ℕ) → m ≤ n → leb m n ≡ true
leb-true m n h = ground arith

candidate-none : (i cut : ℕ) (cuts : List ℕ) → AllLess cuts i → candidate i cut cuts ≡ cut
unfolding candidate
candidate-none i cut [] h = refl
candidate-none i cut (c ∷ cuts) (l, h) = ground (arith, candidate-none i cut cuts h)

entry_at-last : (front : List Entry) (t : Entry) → entry_at (front ++ t ∷ []) (length front) ≡ t
entry_at-last [] t = refl
entry_at-last (e ∷ front) t = entry_at-last front t

module _ (parse_time : String → Option ℤ) (raw_length : Option Value → ℕ) where
  valid_cuts-less :
      (start n : ℕ) (front : List Entry) (t : Entry)
      → is_cut parse_time raw_length t ≡ false
      → start + length front ≡ n
      → AllLess (valid_cuts parse_time raw_length start (front ++ t ∷ [])) n
  unfolding valid_cuts
  valid_cuts-less start n [] t h e =
      subst (λ b. AllLess (if b then start ∷ [] else []) n) (sym h) tt
  valid_cuts-less start n (f ∷ front) t h e =
      AllLess-if (is_cut parse_time raw_length f) start
        (valid_cuts parse_time raw_length (start + 1) (front ++ t ∷ [])) n (omega arith)
        (valid_cuts-less (start + 1) n front t h (omega arith))

  keep_recent-last :
      (keep : ℕ) (cuts : List ℕ) (front : List Entry) (t : Entry) (m : Message)
      → entry_message parse_time t ≡ some m
      → keep ≤ estimate_message_tokens raw_length m
      → AllLess cuts (length front)
      → keep_recent parse_time raw_length keep cuts (front ++ t ∷ []) 0 (suc (length front)) 0
        ≡ value_or 0 (get_elem? cuts 0)
  unfolding keep_recent
  keep_recent-last keep cuts front t m h k l = cc (
    plus_zero (length front),
    plus_zero (estimate_message_tokens raw_length m),
    entry_at-last front t,
    h,
    leb-true keep (estimate_message_tokens raw_length m) k,
    candidate-none (length front) (value_or 0 (get_elem? cuts 0)) cuts l,
  )

  cut_of-first :
      (keep : ℕ) (u : Entry) (front : List Entry) (t : Entry) (m : Message) (cuts : List ℕ)
      → entry_message parse_time t ≡ some m
      → keep ≤ estimate_message_tokens raw_length m
      → AllLess (0 ∷ cuts) (suc (length front))
      → cut_of parse_time raw_length (u ∷ front ++ t ∷ []) keep 0 (0 ∷ cuts) ≡ 0
  unfolding cut_of move_back
  cut_of-first keep u front t m cuts h k l =
      let entries = u ∷ front ++ t ∷ [] in
      cc (length_of u front t, keep_recent-last keep (0 ∷ cuts) (u ∷ front) t m h k l)

  is_cut-user :
      (u : Entry)
      → has_role parse_time raw_length "user" u ≡ true
      → is_cut parse_time raw_length u ≡ true
  is_cut-user u r = ground arith

  prepare_at-zero :
      (entries : List Entry) → prepare_at parse_time raw_length entries 0 0 none ≡ none
  unfolding prepare_at messages_of
  prepare_at-zero entries = cc (or_true (first_id_of parse_time raw_length entries 0 == ""))

  turn_of-zero :
      (u : Entry) (entries : List Entry)
      → has_role parse_time raw_length "user" u ≡ true
      → turn_of parse_time raw_length (u ∷ entries) 0 0 ≡ none
  unfolding turn_of
  turn_of-zero u entries r = cc r

  boundary_of-zero :
      (entries : List Entry) → last_index is_compaction entries ≡ none → boundary_of entries ≡ 0
  unfolding boundary_of
  boundary_of-zero entries n = cc n

  valid_cuts-user :
      (u : Entry) (entries : List Entry)
      → has_role parse_time raw_length "user" u ≡ true
      → valid_cuts parse_time raw_length 0 (u ∷ entries)
        ≡ 0 ∷ valid_cuts parse_time raw_length (0 + 1) entries
  unfolding valid_cuts
  valid_cuts-user u entries r = cc (is_cut-user u r)

  -- A branch that has no compaction, begins with a user message and ends with a message that is no
  -- place to cut, such as a tool result, of keepRecent tokens or more is never prepared for a
  -- compaction, however long it is.
  pub prepare_compaction-none :
      (keep : ℕ) (u : Entry) (front : List Entry) (t : Entry) (m : Message)
      → has_role parse_time raw_length "user" u ≡ true
      → last_index is_compaction (u ∷ front ++ t ∷ []) ≡ none
      → entry_message parse_time t ≡ some m
      → is_cut parse_time raw_length t ≡ false
      → keep ≤ estimate_message_tokens raw_length m
      → prepare_compaction parse_time raw_length (u ∷ front ++ t ∷ []) keep ≡ none
  unfolding prepare_compaction
  prepare_compaction-none keep u front t m r n h c k =
      let entries = u ∷ front ++ t ∷ [] in
      let rest = valid_cuts parse_time raw_length (0 + 1) (front ++ t ∷ []) in
      let b = boundary_of entries in
      let cuts = valid_cuts parse_time raw_length b (drop b entries) in
      let cut = cut_of parse_time raw_length entries keep b cuts in
      let nothing : prepare_at parse_time raw_length entries b cut
            (turn_of parse_time raw_length entries b cut)
          ≡ none =
        cc (
          boundary_of-zero entries n,
          valid_cuts-user u (front ++ t ∷ []) r,
          cut_of-first keep u front t m rest h k
              (omega arith, valid_cuts-less (0 + 1) (suc (length front)) front t c (omega arith)),
          turn_of-zero u (front ++ t ∷ []) r,
          prepare_at-zero entries,
        ) in
      if_none
        (eqb (length entries) 0
          || ends_compacted parse_time raw_length entries
          || eqb (length cuts) 0
          || leb (length entries) cut)
        _ nothing
