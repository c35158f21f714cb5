-- ===== src/Compaction/Entries.antt =====
-- internal/engine/runtime.go and compaction.go: the messages that session entries stand for.
use Prim.Native.String.{◌++◌ as append, compare}
use text.Mathlib.Text.{is_lt}
use ergo_agent.Prelude.{
  ℕ, suc, ◌+◌, String, Bool, Option, none, some, List, [], ◌∷◌, ◌++◌, ◌==◌, if◌then◌else◌, drop,
  get_elem?, value_or,
}
use ergo_agent.Prelude.Int.{ℤ, pos}
use ergo_agent.Json.{Value, null, end, get, string?, string_or_empty, is_text}
use ergo_agent.Message.{Message, zero_message}
use ergo_agent.Message.Codec.{decode_message, slice_of}
use ergo_agent.Session.{Entry}

-- entry["type"] == kind
abbrev pub has_type : Entry → String → Bool
has_type e kind = is_text (get "type" e) kind

module _ {A : Type 0} (test : A → Bool) where
  -- A loop over a slice from its end, and one from its beginning.
  unfoldable pub last_index : List A → Option ℕ
  last_index [] = none
  last_index (a ∷ list) = elim (last_index list) [
    | some i ↦ some (suc i)
    | none ↦ if test a then some 0 else none
  ]

  unfoldable pub first_index : List A → Option ℕ
  first_index [] = none
  first_index (a ∷ list) =
      if test a then some 0 else elim (first_index list) [ some i ↦ some (suc i) | none ↦ none ]

abbrev pub compaction_summary_prefix : String
compaction_summary_prefix =
    "The conversation history before this point was compacted into the following summary:\n\n<summary>\n"

abbrev pub compaction_summary_suffix : String
compaction_summary_suffix = "\n</summary>"

abbrev pub branch_summary_prefix : String
branch_summary_prefix =
    "The following is a summary of a branch that this conversation came back from:\n\n<summary>\n"

abbrev pub branch_summary_suffix : String
branch_summary_suffix = "</summary>"

-- A slice of texts in their byte order.
abbrev pub insert_text : String → List String → List String
insert_text t [] = t ∷ []
insert_text t (s ∷ list) = if is_lt (compare t s) then t ∷ s ∷ list else s ∷ insert_text t list

abbrev pub sort_texts : List String → List String
sort_texts [] = []
sort_texts (t ∷ list) = insert_text t (sort_texts list)

abbrev pub option_list : {A : Type 0} → Option A → List A
option_list none = []
option_list (some a) = a ∷ []

-- `parse_time` is `time.Parse(time.RFC3339Nano, …)` followed by `UnixMilli`.
module _ (parse_time : String → Option ℤ) where
  unfoldable pub entry_timestamp : Entry → ℤ
  entry_timestamp e = elim (string? (get "timestamp" e)) [
    | none ↦ pos 0
    | some value ↦ value_or (pos 0) (parse_time value)
  ]

  abbrev pub user_message : Entry → String → Message
  user_message e content = record zero_message {
    role = "user";
    content = content;
    timestamp = entry_timestamp e;
  }

  -- json.Unmarshal of a marshalled value, and the test of the role.
  abbrev pub stored_message : Value → Option Message
  stored_message v = elim (decode_message v) [
    | none ↦ none
    | some m ↦ if m.role == "" then none else some m
  ]

  unfoldable pub entry_message : Entry → Option Message
  entry_message e =
      if has_type e "custom_message"
      then elim (string? (get "content" e)) [
        | none ↦ none
        | some content ↦ some (user_message e content)
      ]
      else if has_type e "message"
      then stored_message (value_or null (get "message" e))
      else none

  -- The loops that collect the messages of a part of the entries.
  unfoldable pub messages_of : List Entry → List Message
  messages_of [] = []
  messages_of (e ∷ entries) = option_list (entry_message e) ++ messages_of entries

  -- The latest compaction of `messagesFromEntries`: the messages that stand for it, and the index
  -- from which the other entries are read.
  unfoldable pub compaction_head : Entry → List Message
  compaction_head e = elim (string? (get "summary" e)) [
    | none ↦ []
    | some summary ↦
        if summary == ""
        then []
        else user_message e
            (append (append compaction_summary_prefix summary) compaction_summary_suffix)
          ∷ []
  ]

  unfoldable pub retained_tail_of : Entry → List Message
  retained_tail_of e = elim (get "retainedTail" e) [
    | none ↦ []
    | some v ↦ value_or [] (slice_of (λ w. decode_message w) v)
  ]

  unfoldable pub kept_from : Entry → List Entry → ℕ
  kept_from e entries =
      value_or 0 (
        first_index (λ f. is_text (get "id" f) (string_or_empty (get "firstKeptEntryId" e)))
          entries)

  -- The body of the second loop of `messagesFromEntries`.
  unfoldable pub context_message : Entry → List Message
  context_message e =
      if has_type e "compaction"
      then []
      else if has_type e "branch_summary"
      then elim (string? (get "summary" e)) [
        | none ↦ []
        | some summary ↦
            if summary == ""
            then []
            else user_message e
                (append (append branch_summary_prefix summary) branch_summary_suffix)
              ∷ []
      ]
      else option_list (entry_message e)

  unfoldable pub context_of : List Entry → List Message
  context_of [] = []
  context_of (e ∷ entries) = context_message e ++ context_of entries

  -- The messages when the latest compaction is the entry at that index.
  unfoldable pub from_compaction : List Entry → ℕ → Entry → List Message
  from_compaction entries i e = compaction_head e ++ elim (retained_tail_of e) [
    | [] ↦ context_of (drop (kept_from e entries) entries)
    | m ∷ tail ↦ (m ∷ tail) ++ context_of (drop (i + 1) entries)
  ]

  unfoldable pub messages_from_entries : List Entry → List Message
  messages_from_entries entries = elim (last_index (λ e. has_type e "compaction") entries) [
    | none ↦ context_of entries
    | some i ↦ from_compaction entries i (value_or end (get_elem? entries i))
  ]
