-- ===== src/Tests/Compactions.antt =====
-- Concrete runs of internal/engine/compaction.go and of the codec of message/message.go.
use ergo_agent.Prelude.{
  arith, ℕ, ◌+◌, String, true, false, inr, ◌≡◌, refl, Option, none, some, List, [], ◌∷◌, ◌++◌,
  length, drop, contains,
}
use ergo_agent.Prelude.Int.{◌+ℤ◌, ℤ, pos}
use ergo_agent.Json.{Value, str, arr, obj, nil, cons, Items, end, field, get}
use ergo_agent.Message.{Message, zero_message}
use ergo_agent.Message.Codec.{decode_message, encode_message, members, message_member, call_member}
use ergo_agent.Message.Codec.RoundTrip.{decode_message-encode_message}
use ergo_agent.Provider.{completed}
use ergo_agent.Session.{Entry, Session, by_id, branch, branch_entries}
use ergo_agent.Session.Append.{branch_from_leaf}
use ergo_agent.Compaction.Run.{
  Compactor, advised, consult, summary_of, report, after_summary, after_consult, after_preparation,
  compact_with_reason,
}
use ergo_agent.Compaction.Effect.{compact_with_reason-messages}
use ergo_agent.Compaction.{
  Preparation, prepare_compaction, valid_cuts, boundary_of, cut_of, move_back, keep_recent,
  candidate, prepare_at, turn_of, previous_of, message_files, call_files, turn_start,
}
use ergo_agent.Compaction.Tokens.{
  estimate_message_tokens, estimate_context_tokens, after_usage, estimate_all, number, usage_tokens,
}
use ergo_agent.Compaction.Entries.{
  last_index, entry_message, context_message, entry_timestamp, compaction_head, context_of,
  messages_from_entries, messages_of,
}
use ergo_agent.Compaction.Partition.{IsPreparation, prepare_compaction-IsPreparation}
use ergo_agent.Compaction.Context.{encode_messages, messages_from_entries-compacted}
use ergo_agent.Compaction.Stuck.{prepare_compaction-none}
use ergo_agent.Compaction.Summaries.{branch_summaries, without_summaries, length-retained_tail}
use ergo_agent.Compaction.Partition.{real_cut}
use ergo_agent.Compaction.{entry_at}
use ergo_agent.Json.{string_or_empty}

abbrev call_message : Message
call_message = record zero_message {
  role = "assistant";
  content = "";
  timestamp = pos 7;
  tool_calls =
      record {
        id = "1";
        name = "read";
        arguments = some (obj (field "path" (str "a.go") end));
        metadata = none;
      }
      ∷ [];
}

decode_message-encode_message_example :
    (v : Value) × (encode_message call_message ≡ some v) × (decode_message v ≡ some call_message)
decode_message-encode_message_example = decode_message-encode_message call_message refl refl refl

abbrev entry : String → String → String → Entry
entry id role content = field "type" (str "message") (
    field "id" (str id)
      (field "message" (obj (field "role" (str role) (field "content" (str content) end))) end))

abbrev summary_entry : Entry
summary_entry =
    field "type" (str "branch_summary")
      (field "id" (str "s") (field "summary" (str "explored") end))

abbrev no_time : String → Option ℤ
no_time s = none

abbrev two_bytes : Option Value → ℕ
two_bytes o = 2

abbrev conversation : List Entry
conversation =
    entry "a" "user" "first question"
    ∷ entry "b" "assistant" "answer"
    ∷ entry "c" "user" "second question"
    ∷ summary_entry
    ∷ entry "d" "assistant" "done"
    ∷ []

abbrev said : String → String → Message
said role content = record zero_message { role = role; content = content }

abbrev preparation : Preparation
preparation = record {
  first_kept_id = "c";
  messages = said "user" "first question" ∷ said "assistant" "answer" ∷ [];
  turn_prefix = [];
  retained_tail = said "user" "second question" ∷ said "assistant" "done" ∷ [];
  split_turn = false;
  previous_summary = "";
  tokens_before = pos 38;
  read_files = [];
  modified_files = [];
}

prepare_compaction_run : prepare_compaction no_time two_bytes conversation 4 ≡ some preparation
unfolding prepare_compaction last_index get valid_cuts boundary_of entry_message decode_message
    cut_of move_back keep_recent estimate_message_tokens candidate prepare_at messages_of turn_of
    previous_of estimate_context_tokens message_files after_usage call_files messages_from_entries
    context_message context_of entry_timestamp estimate_all number usage_tokens turn_start
    call_member members message_member contains ◌+ℤ◌
prepare_compaction_run = refl

prepare_compaction-IsPreparation_example : IsPreparation no_time two_bytes conversation preparation
prepare_compaction-IsPreparation_example =
    prepare_compaction-IsPreparation no_time two_bytes conversation 4 preparation
      prepare_compaction_run

-- The branch summary stands after the cut, and its message is lost.
length-retained_tail_example :
    (preparation.first_kept_id
      ≡ string_or_empty
          (get "id" (entry_at conversation (real_cut no_time two_bytes conversation 4))))
    × (preparation.retained_tail
        ≡ context_of no_time
            (without_summaries (drop (real_cut no_time two_bytes conversation 4) conversation)))
    × (length (context_of no_time (drop (real_cut no_time two_bytes conversation 4) conversation))
        ≡ length preparation.retained_tail
          + branch_summaries (drop (real_cut no_time two_bytes conversation 4) conversation))
length-retained_tail_example =
    length-retained_tail no_time two_bytes conversation 4 preparation prepare_compaction_run

abbrev encoded_tail : Items
encoded_tail =
    cons (obj (field "role" (str "user") (field "content" (str "second question") end)))
      (cons (obj (field "role" (str "assistant") (field "content" (str "done") end))) nil)

abbrev compaction_entry : Entry
compaction_entry =
    field "type" (str "compaction")
      (field "summary" (str "all so far") (field "retainedTail" (arr encoded_tail) end))

messages_from_entries-compacted_example :
    messages_from_entries no_time (conversation ++ compaction_entry ∷ entry "e" "user" "next" ∷ [])
    ≡ compaction_head no_time compaction_entry
      ++ (preparation.retained_tail ++ context_of no_time (entry "e" "user" "next" ∷ []))
unfolding get last_index encode_messages encode_message
messages_from_entries-compacted_example =
    messages_from_entries-compacted no_time conversation (entry "e" "user" "next" ∷ [])
      compaction_entry (said "user" "second question") (said "assistant" "done" ∷ []) encoded_tail
      refl refl refl refl refl

prepare_compaction-none_example :
    prepare_compaction no_time two_bytes
      (entry "a" "user" "do it"
        ∷ entry "b" "assistant" "reading"
        ∷ entry "t" "tool" "a long file"
        ∷ [])
      3
    ≡ none
unfolding get last_index entry_message decode_message members message_member estimate_message_tokens
prepare_compaction-none_example =
    prepare_compaction-none no_time two_bytes 3 (entry "a" "user" "do it")
      (entry "b" "assistant" "reading" ∷ []) (entry "t" "tool" "a long file")
      (said "tool" "a long file") refl refl refl refl (omega arith)

abbrev compactor : Compactor ℕ
compactor = record {
  keep_recent = pos 4;
  reserve = pos 0;
  max_output_tokens = pos 0;
  session_id = "s";
  model = "m";
  thinking = "low";
  before =
      none
      ∷ some (λ p custom. advised (record p { first_kept_id = "kept" }) custom "the tests" false)
      ∷ [];
  after = [];
  complete = λ i request. completed (record {
    text = "all so far";
    text_signature = "";
    thinking = "";
    thinking_signature = "";
    tool_calls = [];
    usage = none;
    stop_reason = "stop";
    error_message = "";
  });
  fresh = λ n. ("new", "t");
}

abbrev talked : Session
talked = record { entries = conversation; leaf_id = "" }

abbrev empty_object : Option Value → String
empty_object o = "{}"

prepared : prepare_compaction no_time two_bytes (branch talked) 4 ≡ some preparation
unfolding branch branch_entries
prepared = prepare_compaction_run

summarised : (compact_with_reason no_time empty_object two_bytes compactor "" talked).0 ≡ inr true
unfolding compact_with_reason after_preparation after_consult consult summary_of after_summary
    report
summarised = rw prepared

compact_with_reason-messages_example :
    (e : Entry) × (branch (compact_with_reason no_time empty_object two_bytes compactor "" talked).1
      ≡ branch_from_leaf talked ++ e ∷ [])
    × (messages_from_entries no_time
          (branch (compact_with_reason no_time empty_object two_bytes compactor "" talked).1)
        ≡ compaction_head no_time e ++ preparation.retained_tail)
unfolding by_id get
compact_with_reason-messages_example =
    compact_with_reason-messages no_time empty_object two_bytes compactor "" "the tests" talked
      preparation (record preparation { first_kept_id = "kept" }) (said "user" "second question")
      (said "assistant" "done" ∷ []) refl refl prepared (unfold consult in refl) refl refl
      summarised
