-- ===== src/Tests/Sessions.antt =====
-- Sessions, control queues and the journal of internal/engine/runtime.go on concrete inputs.
use ergo_agent.Prelude.{
  true, ℕ, ◌+◌, String, ◌≡◌, refl, Option, none, some, List, [], ◌∷◌, ◌++◌, ◌==◌, arith, contains,
  length, if◌then◌else◌,
}
use ergo_agent.Json.{Value, bool, obj, get, null, str, Fields, end, field, get}
use ergo_agent.Message.{Message}
use ergo_agent.Session.{Entry, by_id, branch_entries, Session, branch, new_entry, append_entry}
use ergo_agent.Session.Branch.{IsBranch, branch_entries-IsBranch}
use ergo_agent.Session.Append.{branch_from_leaf, branch-append_entry}
use ergo_agent.Controls.{
  Queues, Control, Polling, control_message, accept, poll, inject_queued_messages,
}
use ergo_agent.Controls.Injection.{inject_queued_messages-accept}
use ergo_agent.Controls.Drain.{queue_of, drain_turns, drain_turns_all}
use ergo_agent.Controls.Delivery.{IsDelivered, poll-IsDelivered}
use ergo_agent.Journal.{Extension, Hooked, passed, failed, Event, new_journal, emit, emit_all}
use ergo_agent.Journal.Sequence.{
  IsJournal, OneFailure, successes, emit_all-IsJournal, emit_all-OneFailure,
}

abbrev node : String → String → Entry
node id parent = field "id" (str id) (field "parentId" (str parent) end)

-- b and c are two branches from a.
abbrev tree : List Entry
tree = node "a" "" ∷ node "b" "a" ∷ node "c" "a" ∷ []

branch_of_c : branch_entries tree "c" ≡ node "a" "" ∷ node "c" "a" ∷ []
unfolding branch_entries by_id get contains
branch_of_c = refl

abbrev loop_entries : List Entry
loop_entries = node "x" "y" ∷ node "y" "x" ∷ []

branch_of_cycle : branch_entries loop_entries "x" ≡ node "y" "x" ∷ node "x" "y" ∷ []
unfolding branch_entries by_id get contains
branch_of_cycle = refl

branch_entries-IsBranch_example :
    IsBranch tree (branch_entries tree "c")
    × ((e : Entry)
        → by_id tree "c" ≡ some e
        → (front : List Entry) × (branch_entries tree "c" ≡ front ++ e ∷ []))
branch_entries-IsBranch_example = branch_entries-IsBranch tree "c" refl

abbrev at_b : Session
at_b = record { entries = tree; leaf_id = "b" }

branch-append_entry_example :
    branch (append_entry at_b "d" "t" "message" (field "message" null end))
    ≡ branch_from_leaf at_b ++ new_entry "b" "d" "t" "message" (field "message" null end) ∷ []
unfolding by_id get
branch-append_entry_example =
    branch-append_entry at_b "d" "t" "message" (field "message" null end) refl refl refl refl

abbrev steer : String → Control
steer id = record {
  id = id;
  action = "steer";
  content = "stop";
  entry_id = id;
  timestamp = "t";
  millis = 1;
}

abbrev no_queues : Queues
no_queues = record { steering = []; follow_ups = []; steering_mode = ""; follow_up_mode = "all" }

abbrev idle : Polling
idle = record {
  seen = [];
  queues = no_queues;
  session = record { entries = []; leaf_id = "" };
  accepted = [];
}

abbrev encode : Message → Value
encode m = str m.content

abbrev two : List Control
two = steer "1" ∷ steer "2" ∷ []

polled_twice : (poll encode (steer "2" ∷ []) (poll encode two idle)).accepted ≡ "1" ∷ "2" ∷ []
unfolding poll accept contains
polled_twice = refl

abbrev follow : Control
follow = record (steer "3") { action = "followUp" }

-- A control that comes again, and one for the other queue.
poll-IsDelivered_example :
    IsDelivered encode
      (steer "1" ∷ steer "1" ∷ follow ∷ [])
      idle
      (poll encode (steer "1" ∷ steer "1" ∷ follow ∷ []) idle)
poll-IsDelivered_example = poll-IsDelivered encode (steer "1" ∷ steer "1" ∷ follow ∷ []) idle

drain_turns_all_example :
    ((drain_turns 2 "steer" (poll encode two idle).queues).0
      ≡ queue_of "steer" (poll encode two idle).queues)
    × (queue_of "steer" (drain_turns 2 "steer" (poll encode two idle).queues).1 ≡ [])
unfolding poll accept contains
drain_turns_all_example = drain_turns_all 2 "steer" (poll encode two idle).queues (omega arith)

-- An extension that refuses one kind of event.
abbrev refuse : String → Fields → Hooked
refuse kind payload = if kind == "bad" then failed "no" else passed payload

abbrev strict : List Extension
strict = record { on_event = some refuse; action = none } ∷ []

abbrev take_all : Event → Option String
take_all e = none

abbrev three : List (String × Fields)
three = ("one", end) ∷ ("bad", end) ∷ ("two", end) ∷ []

refused : (emit_all strict take_all three new_journal).1 ≡ none ∷ some "no" ∷ some "no" ∷ []
unfolding emit_all emit
refused = refl

new_journal-IsJournal : IsJournal new_journal
new_journal-IsJournal = record { numbered = tt; counted = λ e. refl; stopped = λ err h. cc }

emit_all-IsJournal_example : IsJournal (emit_all strict take_all three new_journal).0
emit_all-IsJournal_example =
    emit_all-IsJournal strict take_all three new_journal new_journal-IsJournal (omega arith)

emit_all-OneFailure_example :
    OneFailure (emit_all strict take_all three new_journal).1
    × (length (emit_all strict take_all three new_journal).0.delivered
        ≡ 0 + successes (emit_all strict take_all three new_journal).1)
emit_all-OneFailure_example = emit_all-OneFailure strict take_all three new_journal refl

abbrev fresh_entry : ℕ → String × String
fresh_entry n = ("fresh", "t")

inject_queued_messages-accept_example :
    (a : Entry) × (b : Entry) × ((inject_queued_messages encode fresh_entry "steer" 0
        (accept encode (steer "1") idle).queues
        (accept encode (steer "1") idle).session).0
      ≡ control_message (steer "1") ∷ [])
    × ((inject_queued_messages encode fresh_entry "steer" 0
          (accept encode (steer "1") idle).queues
          (accept encode (steer "1") idle).session).2.entries
        ≡ [] ++ a ∷ b ∷ [])
    × (get "message" a ≡ some (encode (control_message (steer "1"))))
    × (get "message" b ≡ some (encode (control_message (steer "1"))))
unfolding contains
inject_queued_messages-accept_example =
    inject_queued_messages-accept encode fresh_entry (steer "1") idle refl refl refl

abbrev plan_entry : Entry
plan_entry = field "type" (str "custom") (
    field "customType" (str "plan-mode") (field "data" (obj (field "enabled" (bool true) end)) end))
