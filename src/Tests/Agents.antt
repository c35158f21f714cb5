-- ===== src/Tests/Agents.antt =====
-- The loop of runAgent of internal/engine/runtime.go on concrete runs.
use Prim.Native.Char.{Char}
use ergo_agent.Prelude.{
  ℕ, zero, suc, ◌+◌, ◌<◌, ◌≤◌, String, Bool, false, ◌≡◌, refl, ap, Option, none, some, List, [],
  ◌∷◌, ◌==◌, eq_iff, arith, Bool-cases, inl, inr,
}
use ergo_agent.Prelude.Int.{pos}
use ergo_agent.Message.{ToolCall, Message, zero_message}
use ergo_agent.Session.{by_id, branch, branch_entries}
use ergo_agent.Compaction.Entries.{last_index, context_of, messages_from_entries}
use ergo_agent.Agent.Replay.{replay}
use ergo_agent.Provider.{Request, Reply, completed, failed}
use ergo_agent.Agent.{Overrides, Setup, Outside, Run}
use ergo_agent.Agent.Loop.{run_turns}
use ergo_agent.Agent.Stable.{Holds, Yields}
use ergo_agent.Agent.Recovery.{run_turns-recovers_once}
use ergo_agent.Agent.Recovery.Flags.{recoveries}
use ergo_agent.Agent.Mirror.{IsQuiet, IsKeeping, IsMirrored}
use ergo_agent.Agent.Mirror.Turns.{run_turns-IsMirrored}
use ergo_agent.Agent.Answered.{balanced}
use ergo_agent.Agent.Answered.Turns.{run_turns-IsSent}
use ergo_agent.Agent.Answered.Turns.Calls.{IsAnswered, IsSent}
use ergo_agent.Tests.Pipelines.{tools, world, running, waiting, call}

-- Ids of growing length.
abbrev mark : ℕ → String
mark zero = "x"
mark (suc n) = String.◌∷◌ (Char.char 120 tt) (mark n)

abbrev size : String → ℕ
size String.[] = 0
size (String.◌∷◌ c s) = suc (size s)

size-mark : (n : ℕ) → size (mark n) ≡ n + 1
size-mark zero = refl
size-mark (suc n) = omega (arith, size-mark n)

mark-filled : (n : ℕ) → (mark n == "") ≡ false
mark-filled n = elim (Bool-cases (mark n == "")) [
  | inl a ↦ absurd (omega (arith, size-mark n, ap size ((eq_iff (mark n) "").0 a)))
  | inr a ↦ a
]

mark-distinct : (m n : ℕ) → m < n → (mark m == mark n) ≡ false
mark-distinct m n h = elim (Bool-cases (mark m == mark n)) [
  | inl a ↦
      absurd (omega (arith, size-mark m, size-mark n, ap size ((eq_iff (mark m) (mark n)).0 a)))
  | inr a ↦ a
]

abbrev setup : Option Bool → Setup ℕ
setup compaction = record {
  depth = 0;
  max_turns = pos 5;
  session_id = "s";
  system = "";
  tools = tools;
  mcp_names = [];
  base_tool_filter = [];
  base_tool_filter_set = false;
  max_output_tokens = pos 0;
  context_window = pos 0;
  compaction_enabled = compaction;
  compaction_reserve = pos 0;
  compaction_keep_recent = pos 0;
  pricing = λ provider model. none;
  matches = λ pattern text. pattern == text;
  lower = λ text. text;
  raw = λ o. "{}";
  raw_length = λ o. 2;
  parse_time = λ s. none;
  fresh = λ n. (mark n, "t");
}

abbrev no_overrides : Overrides
no_overrides = record { provider = ""; model = ""; thinking = ""; tools = []; tools_set = false }

abbrev outside : (Request ℕ → Reply) → Outside ℕ
outside complete = record {
  arrivals = [];
  late_arrivals = [];
  compaction_requested = false;
  overrides = no_overrides;
  millis = pos 5;
  provider_error = λ provider model. none;
  complete = complete;
  complete_summary = λ i. complete;
  transform_context = [];
  after_turn = [];
  before_compact = [];
  after_compact = [];
  on_agent_end = [];
  on_agent_settled = [];
  emit_error = λ event. none;
  world = world;
  running = running;
  aborted = λ i. false;
  stopped = λ i. false;
}

abbrev said : String → List ToolCall → Reply
said text calls = completed (record {
  text = text;
  text_signature = "";
  thinking = "";
  thinking_signature = "";
  tool_calls = calls;
  usage = none;
  stop_reason = "stop";
  error_message = "";
})

-- A provider that asks for a tool once, and one whose context always overflows.
abbrev asks_once : Request ℕ → Reply
asks_once request = elim request.messages [
  | m ∷ a ∷ rest ↦ said "done" []
  | _ ↦ said "" (call "2" "bash" "ls" ∷ [])
]

abbrev overflows : Request ℕ → Reply
overflows request =
    failed (record { text = "(?i)prompt is too long"; is_context = false; http = none })

abbrev question : Message
question = record zero_message { role = "user"; content = "list" }

abbrev start : List Message → Run ℕ
start messages = record {
  messages = messages;
  polling = record {
    seen = [];
    queues = record { steering = []; follow_ups = []; steering_mode = ""; follow_up_mode = "" };
    session = record { entries = []; leaf_id = "" };
    accepted = [];
  };
  waiting = waiting;
  provider_name = "p";
  model = "m";
  thinking = "medium";
  usage = none;
  overflow_recovery_attempted = false;
  requests = [];
  events = [];
}

run_turns-recovers_once_example :
    Holds
      (λ r. recoveries r.events ≤ 1)
      (run_turns (setup none) (λ turn. outside overflows) 0 (pos 5) (start (question ∷ [])))
unfolding recoveries
run_turns-recovers_once_example =
    run_turns-recovers_once (setup none) (λ turn. outside overflows) 0 (pos 5)
      (start (question ∷ [])) refl

quiet : IsQuiet (outside asks_once)
quiet = record { no_arrivals = refl; no_late_arrivals = refl; no_request = refl }

keeping : IsKeeping (setup (some false))
keeping = record {
  at_top = refl;
  no_compaction = refl;
  named = mark-filled;
  distinct = mark-distinct;
}

start-IsMirrored : IsMirrored (setup (some false)) keeping [] (start [])
unfolding by_id branch replay messages_from_entries context_of last_index branch_entries
start-IsMirrored = record {
  live = record { unused = λ n h. refl; rooted = refl; uncompacted = refl };
  new = [];
  in_memory = refl;
  in_session = refl;
  no_steering = refl;
  no_follow_ups = refl;
}

run_turns-IsMirrored_example :
    Holds
      (IsMirrored (setup (some false)) keeping [])
      (run_turns (setup (some false)) (λ turn. outside asks_once) 0 (pos 5) (start []))
run_turns-IsMirrored_example =
    run_turns-IsMirrored (setup (some false)) keeping [] (λ turn. outside asks_once) (λ turn. quiet)
      0 (pos 5) (start []) start-IsMirrored

run_turns-IsSent_example :
    Yields IsAnswered IsSent
      (run_turns (setup (some false)) (λ turn. outside asks_once) 0 (pos 5) (start (question ∷ [])))
unfolding balanced
run_turns-IsSent_example =
    run_turns-IsSent (setup (some false)) (λ turn. outside asks_once)
      (λ turn. record {
        no_compaction = refl;
        no_request = refl;
        no_message_hooks = refl;
        no_context_hooks = refl;
        runs = λ i. refl;
        keeps = λ tool a b h. cc h;
      })
      0 (pos 5) (start (question ∷ []))
      (record {
        in_memory = refl;
        sent = refl;
        waiting = record { steering = refl; follow_ups = refl };
      })
