-- ===== src/Compaction/Summaries.antt =====
-- Branch summaries in what `prepareCompaction` of internal/engine/compaction.go retains.
use ergo_agent.Prelude.{
  ap, ◌++◌, filter, not, ℕ, ◌+◌, String, true, false, ◌≡◌, refl, sym, ◌∙◌, Option, none, some, List,
  [], ◌∷◌, arith, ◌==◌, eq_iff, length, length-append, drop, Bool-cases, inl, inr, if◌then◌else◌,
}
use ergo_agent.Prelude.Int.{ℤ}
use ergo_agent.Json.{Value, str, get, string?, string_or_empty, is_text}
use ergo_agent.Session.{Entry}
use ergo_agent.Compaction.{entry_at, Preparation, prepare_compaction}
use ergo_agent.Compaction.Entries.{
  has_type, entry_message, option_list, messages_of, context_message, context_of,
}
use ergo_agent.Compaction.Partition.{real_cut, prepare_compaction-real_cut}

abbrev pub is_filled : Option String → ℕ
is_filled none = 0
is_filled (some summary) = if summary == "" then 0 else 1

-- The branch summaries that are read as messages.
unfoldable pub branch_summaries : List Entry → ℕ
branch_summaries [] = 0
branch_summaries (e ∷ entries) =
    (if has_type e "branch_summary" then is_filled (string? (get "summary" e)) else 0)
    + branch_summaries entries

-- The entries that are no branch summaries.
abbrev pub without_summaries : List Entry → List Entry
without_summaries entries = filter (λ e. not (has_type e "branch_summary")) entries

is_text_unique : (o : Option Value) (a b : String) → is_text o a ≡ true → is_text o b ≡ true → a ≡ b
is_text_unique none a b h k = cc
is_text_unique (some (str s)) a b h k = sym ((eq_iff s a).0 h) ∙ (eq_iff s b).0 k
is_text_unique _ a b h k = cc

-- An entry has one type.
has_type-other :
    (e : Entry) (a b : String) → (a == b) ≡ false → has_type e a ≡ true → has_type e b ≡ false
has_type-other e a b n h = elim (Bool-cases (has_type e b)) [
  | inl k ↦ ground (arith, is_text_unique (get "type" e) a b h k, eq_iff a b)
  | inr k ↦ k
]

module _ (parse_time : String → Option ℤ) where
  length-context_message :
      (e : Entry)
      → length (context_message parse_time e)
        ≡ length (option_list (entry_message parse_time e))
          + (if has_type e "branch_summary" then is_filled (string? (get "summary" e)) else 0)
  unfolding context_message entry_message
  length-context_message e = elim (Bool-cases (has_type e "compaction")) [
    | inl h ↦ ground (
      arith,
      has_type-other e "compaction" "branch_summary" refl h,
      has_type-other e "compaction" "custom_message" refl h,
      has_type-other e "compaction" "message" refl h,
    )
    | inr h ↦ elim (Bool-cases (has_type e "branch_summary")) [
      | inl k ↦ ground (
        arith,
        has_type-other e "branch_summary" "custom_message" refl k,
        has_type-other e "branch_summary" "message" refl k,
      )
      | inr k ↦ ground arith
    ]
  ]

  length-context_of :
      (entries : List Entry)
      → length (context_of parse_time entries)
        ≡ length (messages_of parse_time entries) + branch_summaries entries
  unfolding context_of messages_of branch_summaries
  length-context_of [] = refl
  length-context_of (e ∷ entries) = omega (
    arith,
    length-context_message e,
    length-context_of entries,
    length-append (context_message parse_time e) (context_of parse_time entries),
    length-append (option_list (entry_message parse_time e)) (messages_of parse_time entries),
  )

  entry_message-branch_summary :
      (e : Entry)
      → has_type e "branch_summary" ≡ true
      → option_list (entry_message parse_time e) ≡ []
  unfolding entry_message
  entry_message-branch_summary e k = rw (
    has_type-other e "branch_summary" "custom_message" refl k,
    has_type-other e "branch_summary" "message" refl k,
  )

  entry_message-compaction :
      (e : Entry) → has_type e "compaction" ≡ true → option_list (entry_message parse_time e) ≡ []
  unfolding entry_message
  entry_message-compaction e k = rw (
    has_type-other e "compaction" "custom_message" refl k,
    has_type-other e "compaction" "message" refl k,
  )

  context_message-other :
      (e : Entry)
      → has_type e "branch_summary" ≡ false
      → context_message parse_time e ≡ option_list (entry_message parse_time e)
  unfolding context_message
  context_message-other e k = elim (Bool-cases (has_type e "compaction")) [
    | inl h ↦ rw h (sym (entry_message-compaction e h))
    | inr h ↦ rw (h, k)
  ]

  messages_of-without_summaries :
      (entries : List Entry)
      → messages_of parse_time entries ≡ context_of parse_time (without_summaries entries)
  unfolding context_of messages_of
  messages_of-without_summaries [] = refl
  messages_of-without_summaries (e ∷ entries) =
      let rest = messages_of-without_summaries entries in
      elim (Bool-cases (has_type e "branch_summary")) [
        | inl k ↦ rw (k, entry_message-branch_summary e k) rest
        | inr k ↦
            rw (k, context_message-other e k)
              (ap (λ list. option_list (entry_message parse_time e) ++ list) rest)
      ]

  -- When prepareCompaction prepares a compaction, the entry that is kept first is the one at the
  -- cut, the retained tail is what the entries from the cut on stand for in the context when the
  -- branch summaries among them are left out, and with them they stood for one message more for
  -- each branch summary that is not empty: those are not retained.
  pub length-retained_tail :
      (raw_length : Option Value → ℕ) (entries : List Entry) (keep : ℕ) (p : Preparation)
      → prepare_compaction parse_time raw_length entries keep ≡ some p
      → (p.first_kept_id
          ≡ string_or_empty
              (get "id" (entry_at entries (real_cut parse_time raw_length entries keep))))
        × (p.retained_tail
            ≡ context_of parse_time
                (without_summaries (drop (real_cut parse_time raw_length entries keep) entries)))
        × (length
              (context_of parse_time (drop (real_cut parse_time raw_length entries keep) entries))
            ≡ length p.retained_tail
              + branch_summaries (drop (real_cut parse_time raw_length entries keep) entries))
  length-retained_tail raw_length entries keep p h =
      let (first, tail) = prepare_compaction-real_cut parse_time raw_length entries keep p h in
      let kept = drop (real_cut parse_time raw_length entries keep) entries in
      (first, tail ∙ messages_of-without_summaries kept, cc (length-context_of kept, tail))
