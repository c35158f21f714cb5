-- ===== src/Compaction.antt =====
-- internal/engine/compaction.go: which part of a branch is summarised, and which is kept.
pub mod Entries
pub mod Tokens
pub mod Cuts
pub mod Partition
pub mod Context
pub mod Summaries
pub mod Stuck
pub mod Serialize
pub mod Run
pub mod Effect
use ergo_agent.Prelude.{
  ℕ, zero, suc, ◌+◌, ◌-◌, String, Bool, true, false, not, ◌&&◌, ◌||◌, Option, none, some, List, [],
  ◌∷◌, ◌++◌, ◌==◌, eqb, ltb, leb, if◌then◌else◌, length, take, drop, get_elem?, contains, value_or,
  is_some, filter,
}
use ergo_agent.Prelude.Int.{ℤ}
use ergo_agent.Json.{Value, obj, end, get, string_or_empty, is_text}
use ergo_agent.Message.{ToolCall, Message}
use ergo_agent.Session.{Entry}
use ergo_agent.Compaction.Entries.{
  has_type, entry_message, messages_of, messages_from_entries, last_index, first_index, sort_texts,
}
use ergo_agent.Compaction.Tokens.{estimate_message_tokens, estimate_context_tokens}

pub record Preparation : Type 0 where
  pub first_kept_id : String
  pub messages : List Message
  pub turn_prefix : List Message
  pub retained_tail : List Message
  pub split_turn : Bool
  pub previous_summary : String
  pub tokens_before : ℤ
  pub read_files : List String
  pub modified_files : List String

abbrev pub is_compaction : Entry → Bool
is_compaction e = has_type e "compaction"

abbrev pub entry_at : List Entry → ℕ → Entry
entry_at entries i = value_or end (get_elem? entries i)

-- The entry from which the kept part of the latest compaction begins, and its summary.
unfoldable pub boundary_of : List Entry → ℕ
boundary_of entries = elim (last_index is_compaction entries) [
  | none ↦ 0
  | some i ↦ value_or 0 (
      first_index
        (λ e. is_text (get "id" e) (string_or_empty (get "firstKeptEntryId" (entry_at entries i))))
        entries)
]

unfoldable pub previous_of : List Entry → String
previous_of entries = elim (last_index is_compaction entries) [
  | none ↦ ""
  | some i ↦ string_or_empty (get "summary" (entry_at entries i))
]

-- reads[path] = true
abbrev pub add : String → List String → List String
add path set = if contains set path then set else set ++ path ∷ []

abbrev pub path_of : ToolCall → String
path_of call = elim call.arguments [ some (obj fs) ↦ string_or_empty (get "path" fs) | _ ↦ "" ]

-- The loops over the calls of the summarised messages, with the sets `reads` and `writes`.
unfoldable pub call_files : List ToolCall → List String → List String → List String × List String
call_files [] reads writes = (reads, writes)
call_files (call ∷ calls) reads writes =
    let path = path_of call in
    let is_read = not (path == "") && (call.name == "read") in
    let is_write = not (path == "") && (call.name == "write" || call.name == "edit") in
    call_files calls (if is_read then add path reads else reads)
      (if is_write then add path writes else writes)

unfoldable pub message_files : List Message → List String → List String → List String × List String
message_files [] reads writes = (reads, writes)
message_files (m ∷ messages) reads writes =
    let (reads', writes') = call_files m.tool_calls reads writes in
    message_files messages reads' writes'

-- The first candidate that is not before the index, or else the cut so far.
unfoldable pub candidate : ℕ → ℕ → List ℕ → ℕ
candidate i cut [] = cut
candidate i cut (c ∷ cuts) = if leb i c then c else candidate i cut cuts

-- The loop that moves the cut, at boundary + left, over entries that are no messages.
unfoldable pub move_back : List Entry → ℕ → ℕ → ℕ
move_back entries boundary zero = boundary
move_back entries boundary (suc left) =
    let e = entry_at entries (boundary + left) in
    elim (not (has_type e "message") && not (has_type e "compaction")) [
      | true ↦ move_back entries boundary left
      | false ↦ boundary + suc left
    ]

abbrev pub slice : ℕ → ℕ → List Entry → List Entry
slice start stop entries = take (stop - start) (drop start entries)

module _ (parse_time : String → Option ℤ) (raw_length : Option Value → ℕ) where
  abbrev pub has_role : String → Entry → Bool
  has_role role e = elim (entry_message parse_time e) [ none ↦ false | some m ↦ m.role == role ]

  abbrev pub is_side : Entry → Bool
  is_side e = has_type e "branch_summary" || has_type e "custom_message"

  -- The entries at which a cut may stand, and those at which a turn begins.
  abbrev pub is_cut : Entry → Bool
  is_cut e = is_side e || has_role "user" e || has_role "assistant" e

  abbrev pub starts_turn : Entry → Bool
  starts_turn e = is_side e || has_role "user" e

  -- The loop that collects `validCuts`, at the index of the head of the list.
  unfoldable pub valid_cuts : ℕ → List Entry → List ℕ
  valid_cuts i [] = []
  valid_cuts i (e ∷ entries) =
      let rest = valid_cuts (i + 1) entries in if is_cut e then i ∷ rest else rest

  -- The loop over i from the last entry down to the boundary; `left` entries are left, so that i
  -- is boundary + left - 1.
  unfoldable pub keep_recent : ℕ → List ℕ → List Entry → ℕ → ℕ → ℕ → ℕ
  keep_recent keep cuts entries boundary zero accumulated = value_or 0 (get_elem? cuts 0)
  keep_recent keep cuts entries boundary (suc left) accumulated =
      let i = boundary + left in
      elim (entry_message parse_time (entry_at entries i)) [
        | none ↦ keep_recent keep cuts entries boundary left accumulated
        | some m ↦
            let accumulated' = accumulated + estimate_message_tokens raw_length m in
            elim (leb keep accumulated') [
              | true ↦ candidate i (value_or 0 (get_elem? cuts 0)) cuts
              | false ↦ keep_recent keep cuts entries boundary left accumulated'
            ]
      ]

  -- The loop that looks for the start of the turn, over the entries before boundary + left.
  unfoldable pub turn_start : List Entry → ℕ → ℕ → Option ℕ
  turn_start entries boundary zero = none
  turn_start entries boundary (suc left) = elim (starts_turn (entry_at entries (boundary + left))) [
    | true ↦ some (boundary + left)
    | false ↦ turn_start entries boundary left
  ]

  -- What remains of `prepareCompaction` when the cut and the start of its turn are known.
  abbrev pub first_id_of : List Entry → ℕ → String
  first_id_of entries cut = string_or_empty (get "id" (entry_at entries cut))

  unfoldable pub prepare_at : List Entry → ℕ → ℕ → Option ℕ → Option Preparation
  prepare_at entries boundary cut turn =
      let history_end = value_or cut turn in
      let summarized = messages_of parse_time (slice boundary history_end entries) in
      let prefix = messages_of parse_time (slice history_end cut entries) in
      let (reads, writes) = message_files summarized [] [] in
      if first_id_of entries cut == "" || (eqb (length summarized) 0 && eqb (length prefix) 0)
      then none
      else some (record {
        first_kept_id = first_id_of entries cut;
        messages = summarized;
        turn_prefix = prefix;
        retained_tail = messages_of parse_time (drop cut entries);
        split_turn = is_some turn;
        previous_summary = previous_of entries;
        tokens_before =
            estimate_context_tokens raw_length (messages_from_entries parse_time entries);
        read_files = sort_texts (filter (λ path. not (contains writes path)) reads);
        modified_files = sort_texts writes;
      })

  unfoldable pub cut_of : List Entry → ℕ → ℕ → List ℕ → ℕ
  cut_of entries keep boundary cuts =
      move_back entries boundary
        (keep_recent keep cuts entries boundary (length entries - boundary) 0 - boundary)

  unfoldable pub turn_of : List Entry → ℕ → ℕ → Option ℕ
  turn_of entries boundary cut =
      if has_role "user" (entry_at entries cut)
      then none
      else turn_start entries boundary (cut + 1 - boundary)

  abbrev pub ends_compacted : List Entry → Bool
  ends_compacted entries = elim (last_index is_compaction entries) [
    | none ↦ false
    | some i ↦ eqb (i + 1) (length entries)
  ]

  unfoldable pub prepare_compaction : List Entry → ℕ → Option Preparation
  prepare_compaction entries keep =
      let boundary = boundary_of entries in
      let cuts = valid_cuts boundary (drop boundary entries) in
      let cut = cut_of entries keep boundary cuts in
      if eqb (length entries) 0
        || ends_compacted entries
        || eqb (length cuts) 0
        || leb (length entries) cut
      then none
      else prepare_at entries boundary cut (turn_of entries boundary cut)
