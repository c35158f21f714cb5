-- ===== src/Compaction/Partition.antt =====
-- The parts of a branch that `prepareCompaction` of internal/engine/compaction.go hands on.
use ergo_agent.Prelude.{
  ℕ, zero, suc, ◌+◌, ◌-◌, ◌≤◌, ◌<◌, String, false, ◌≡◌, refl, sym, ap, ◌∙◌, Option, some, List, [],
  ◌∷◌, ◌++◌, append_assoc, arith, value_or, length, drop, take-append-drop, ◌==◌,
}
use ergo_agent.Prelude.Int.{ℤ}
use ergo_agent.Json.{Value, get, string_or_empty}
use ergo_agent.Session.{Entry}
use ergo_agent.Compaction.Entries.{messages_of, option_list, entry_message}
use ergo_agent.Compaction.{
  Preparation, entry_at, slice, boundary_of, valid_cuts, cut_of, turn_of, prepare_at,
  prepare_compaction,
}
use ergo_agent.Compaction.Cuts.{boundary-le-cut_of, turn_of_within}

drop-drop :
    {A : Type 0} → (m n k : ℕ) (list : List A) → k ≡ n + m → drop m (drop n list) ≡ drop k list
drop-drop m zero k list h = ap (λ j. drop j list) (omega arith)
drop-drop zero (suc n) zero [] h = refl
drop-drop (suc m) (suc n) zero [] h = refl
drop-drop zero (suc n) (suc k) [] h = refl
drop-drop (suc m) (suc n) (suc k) [] h = refl
drop-drop m (suc n) zero (a ∷ list) h = absurd (omega arith)
drop-drop m (suc n) (suc k) (a ∷ list) h = drop-drop m n k list (omega arith)

module _ (parse_time : String → Option ℤ) (raw_length : Option Value → ℕ) where
  slice-append-drop :
      (start stop : ℕ) (entries : List Entry)
      → start ≤ stop
      → slice start stop entries ++ drop stop entries ≡ drop start entries
  slice-append-drop start stop entries h = cc (
    take-append-drop (stop - start) (drop start entries),
    drop-drop (stop - start) start stop entries (omega arith),
  )

  messages_of-append :
      (a b : List Entry)
      → messages_of parse_time (a ++ b) ≡ messages_of parse_time a ++ messages_of parse_time b
  unfolding messages_of
  messages_of-append [] b = refl
  messages_of-append (e ∷ a) b =
      ap (λ list. option_list (entry_message parse_time e) ++ list) (messages_of-append a b)
      ∙ sym (
          append_assoc (option_list (entry_message parse_time e)) (messages_of parse_time a)
            (messages_of parse_time b))

  messages_of-slices :
      (a b c : ℕ) (entries : List Entry)
      → a ≤ b
      → b ≤ c
      → messages_of parse_time (slice a b entries)
          ++ (messages_of parse_time (slice b c entries) ++ messages_of parse_time (drop c entries))
        ≡ messages_of parse_time (drop a entries)
  messages_of-slices a b c entries h l = cc (
    slice-append-drop a b entries h,
    slice-append-drop b c entries l,
    messages_of-append (slice a b entries) (drop b entries),
    messages_of-append (slice b c entries) (drop c entries),
  )

  -- What a preparation says of the branch that it was made from.
  pub record IsPreparation (entries : List Entry) (p : Preparation) : Type 0 where
    pub cut : ℕ
    pub boundary_le_cut : boundary_of entries ≤ cut
    pub cut_lt : cut < length entries
    pub first_kept : p.first_kept_id ≡ string_or_empty (get "id" (entry_at entries cut))
    pub first_kept_named : (p.first_kept_id == "") ≡ false
    pub tail : p.retained_tail ≡ messages_of parse_time (drop cut entries)
    pub nothing_lost :
        p.messages ++ (p.turn_prefix ++ p.retained_tail)
        ≡ messages_of parse_time (drop (boundary_of entries) entries)
    pub something_summarized : 0 < length p.messages + length p.turn_prefix

  prepare_at-IsPreparation :
      (entries : List Entry) (cut : ℕ) (p : Preparation)
      → boundary_of entries ≤ cut
      → cut < length entries
      → prepare_at parse_time raw_length entries
          (boundary_of entries)
          cut
          (turn_of parse_time raw_length entries (boundary_of entries) cut)
        ≡ some p
      → IsPreparation entries p
  unfolding prepare_at
  prepare_at-IsPreparation entries cut p h l e = record {
    cut = cut;
    boundary_le_cut = h;
    cut_lt = l;
    first_kept = ground arith;
    first_kept_named = ground arith;
    tail = ground arith;
    nothing_lost = ground (
      arith,
      messages_of-slices (boundary_of entries)
          (value_or cut (turn_of parse_time raw_length entries (boundary_of entries) cut)) cut
          entries (turn_of_within parse_time raw_length entries (boundary_of entries) cut h).0
          (turn_of_within parse_time raw_length entries (boundary_of entries) cut h).1,
    );
    something_summarized = ground arith;
  }

  -- The cut that prepareCompaction makes.
  abbrev pub real_cut : List Entry → ℕ → ℕ
  real_cut entries keep =
      cut_of parse_time raw_length entries keep (boundary_of entries) (
        valid_cuts parse_time raw_length (boundary_of entries) (drop (boundary_of entries) entries))

  -- What the preparation says of the real cut.
  pub prepare_compaction-real_cut :
      (entries : List Entry) (keep : ℕ) (p : Preparation)
      → prepare_compaction parse_time raw_length entries keep ≡ some p
      → (p.first_kept_id ≡ string_or_empty (get "id" (entry_at entries (real_cut entries keep))))
        × (p.retained_tail ≡ messages_of parse_time (drop (real_cut entries keep) entries))
  unfolding prepare_compaction prepare_at
  prepare_compaction-real_cut entries keep p h = (ground arith, ground arith)

  -- When prepareCompaction prepares a compaction, the messages to summarise, the prefix of the turn
  -- and the retained tail are together, in their order, the messages of the entries from the
  -- boundary on, with none lost; the tail is what stands from a cut between the boundary and the
  -- end, the id that is named as kept first is that of the entry at the cut and is not empty, and
  -- there is something to summarise.
  pub prepare_compaction-IsPreparation :
      (entries : List Entry) (keep : ℕ) (p : Preparation)
      → prepare_compaction parse_time raw_length entries keep ≡ some p
      → IsPreparation entries p
  unfolding prepare_compaction
  prepare_compaction-IsPreparation entries keep p e =
      let cuts =
        valid_cuts parse_time raw_length (boundary_of entries)
          (drop (boundary_of entries) entries) in
      let cut = cut_of parse_time raw_length entries keep (boundary_of entries) cuts in
      prepare_at-IsPreparation entries cut p
        (boundary-le-cut_of parse_time raw_length entries keep (boundary_of entries) cuts)
        (ground arith) (ground arith)
