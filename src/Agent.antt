-- ===== src/Agent.antt =====
-- internal/engine/runtime.go: the loop of runAgent. The children model its parts: the tests for an
-- overflow of the context, the usage, the turns; here are the state and what stands outside it.
pub mod Overflow
pub mod Usage
pub mod Tools
pub mod Turn
pub mod Loop
pub mod Stable
pub mod Recovery
pub mod Replay
pub mod Mirror
pub mod Answered
use ergo_agent.Prelude.{
  ℕ, String, Bool, true, false, Option, none, some, List, [], ◌∷◌, ◌++◌, value_or, eqb,
  if◌then◌else◌,
}
use ergo_agent.Prelude.Int.{ℤ}
use ergo_agent.Json.{Value, null, Fields}
use ergo_agent.Message.{ToolCall, Message}
use ergo_agent.Message.Codec.{encode_message}
use ergo_agent.Registry.{ToolDefinition}
use ergo_agent.Session.{Session}
use ergo_agent.Controls.{Control, Polling, append_message}
use ergo_agent.Pipeline.{Waiting, World}
use ergo_agent.Pipeline.Batch.{Running}
use ergo_agent.Provider.{Request, Reply}
use ergo_agent.Compaction.{Preparation}
use ergo_agent.Compaction.Run.{Advice}

-- The events that the loop emits, with the fields that tell them apart.
pub data AgentEvent : Type 0 where
  turn_start : ℕ → AgentEvent
  message_start : Message → AgentEvent
  message_end : Message → AgentEvent
  turn_end : Message → List Message → AgentEvent
  compaction_start : String → Bool → AgentEvent
  snapshot : AgentEvent
  agent_end : List Message → AgentEvent
  agent_settled : AgentEvent

-- What `runtimeOverrides` returns.
pub record Overrides : Type 0 where
  pub provider : String
  pub model : String
  pub thinking : String
  pub tools : List String
  pub tools_set : Bool

-- What a `TransformContext` hook makes of the system prompt, the messages and the tools.
pub data Transformed (R : Type 0) : Type 0 where
  transformed : String → List Message → List (ToolDefinition R) → Transformed R
  untransformed : String → Transformed R

-- The prices in millionths.
pub record Pricing : Type 0 where
  pub input_price : ℕ
  pub output_price : ℕ
  pub cache_read_price : ℕ
  pub cache_write_price : ℕ

-- What stands fixed while the loop runs: fields of the command, and what runAgent has built before
-- the loop. `matches` is a regular expression at a
-- text, and `lower` is strings.ToLower.
pub record Setup (R : Type 0) : Type 0 where
  pub depth : ℕ
  pub max_turns : ℤ
  pub session_id : String
  pub system : String
  pub tools : List (ToolDefinition R)
  pub mcp_names : List String
  pub base_tool_filter : List String
  pub base_tool_filter_set : Bool
  pub max_output_tokens : ℤ
  pub context_window : ℤ
  pub compaction_enabled : Option Bool
  pub compaction_reserve : ℤ
  pub compaction_keep_recent : ℤ
  pub pricing : String → String → Option Pricing
  pub matches : String → String → Bool
  pub lower : String → String
  pub raw : Option Value → String
  pub raw_length : Option Value → ℕ
  pub parse_time : String → Option ℤ
  pub fresh : ℕ → String × String

-- What the outside does in one turn: the controls that are polled before the turn and during it,
-- the overrides, the providers, the tools and the hooks of the extensions.
pub record Outside (R : Type 0) : Type 0 where
  pub arrivals : List Control
  pub late_arrivals : List Control
  pub compaction_requested : Bool
  pub overrides : Overrides
  pub millis : ℤ
  pub provider_error : String → String → Option String
  pub complete : Request R → Reply
  pub complete_summary : ℕ → Request R → Reply
  pub transform_context : List (Option (Request R → Transformed R))
  pub after_turn : List (Option (Message → Option Fields → Option String))
  pub before_compact : List (Option (Preparation → String → Advice))
  pub after_compact : List (Option (Fields → Option String))
  pub on_agent_end : List (Option (List Message → Message → Option String → Option String))
  pub on_agent_settled : List (Option (List Message → Message → Option String → Option String))
  pub emit_error : AgentEvent → Option String
  pub world : World R
  pub running : Running R
  pub aborted : ℕ → Bool
  pub stopped : ℕ → Bool

-- The variables of the loop, with what it has sent to the provider and the events that it emitted.
pub record Run (R : Type 0) : Type 0 where
  pub messages : List Message
  pub polling : Polling
  pub waiting : Waiting
  pub provider_name : String
  pub model : String
  pub thinking : String
  pub usage : Option Fields
  pub overflow_recovery_attempted : Bool
  pub requests : List (Request R)
  pub events : List AgentEvent

-- The loop goes on, or the function returns its text and its error.
pub data Next (R : Type 0) : Type 0 where
  again : Run R → Next R
  stop : Run R → String → Option String → Next R

abbrev pub and_next : {R : Type 0} → Next R → (Run R → Next R) → Next R
and_next (again run) f = f run
and_next (stop run text err) f = stop run text err

abbrev pub say : {R : Type 0} → AgentEvent → Run R → Run R
say event run = record run { events = run.events ++ event ∷ [] }

abbrev pub encode : Message → Value
encode m = value_or null (encode_message m)

abbrev pub session_with : {R : Type 0} → Setup R → Message → Fields → Session → Session
session_with setup m extra session =
    if eqb setup.depth 0 then append_message encode setup.fresh m extra session else session

-- if depth == 0 { e.appendMessage(message, extra) }
unfoldable pub record_message : {R : Type 0} → Setup R → Message → Fields → Run R → Run R
record_message setup m extra run = record run {
  polling = record run.polling { session = session_with setup m extra run.polling.session };
}
