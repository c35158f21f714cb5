-- ===== src/Pipeline.antt =====
-- The tool calls of a turn in internal/engine/runtime.go: prepareToolExecution, executePreparedTool,
-- executeToolBatch and recordToolOutcome. The events but those of an approval are left out.
pub mod Batch
pub mod Clearance
pub mod Answers
use Prim.Native.String.{◌++◌ as append}
use ergo_agent.Prelude.{
  ℕ, zero, suc, ◌+◌, String, Bool, true, false, not, ◌&&◌, ◌||◌, Option, none, some, List, [], ◌∷◌,
  ◌++◌, ◌==◌, if◌then◌else◌, value_or, is_some, contains,
}
use ergo_agent.Prelude.Int.{ℤ}
use ergo_agent.Json.{
  Value, null, bool, str, arr, obj, Items, nil, cons, Fields, end, field, get, string_or_empty,
}
use ergo_agent.Message.{Image, ToolCall, Message, zero_message}
use ergo_agent.Registry.{ToolDefinition, find_tool}

pub record ToolResult : Type 0 where
  pub text : String
  pub images : List Image
  pub details : Option Fields
  pub usage : Option Fields
  pub added_tool_names : List String
  pub terminate : Bool

abbrev pub text_result : String → ToolResult
text_result text = record {
  text = text;
  images = [];
  details = none;
  usage = none;
  added_tool_names = [];
  terminate = false;
}

pub record Outcome : Type 0 where
  pub call : ToolCall
  pub result : ToolResult
  pub err : Option String
  pub message : Message

-- `millis` is what `nowMillis` returns.
unfoldable pub tool_outcome_message : ℤ → ToolCall → ToolResult → Option String → Message
tool_outcome_message millis call result err = record zero_message {
  role = "tool";
  tool_call_id = call.id;
  tool_name = call.name;
  content = value_or result.text err;
  images = result.images;
  usage = result.usage;
  added_tool_names = result.added_tool_names;
  is_error = is_some err;
  timestamp = millis;
}

unfoldable pub finish_tool_outcome : ℤ → ToolCall → ToolResult → Option String → Outcome
finish_tool_outcome millis call result err = record {
  call = call;
  result = result;
  err = err;
  message = tool_outcome_message millis call result err;
}

-- The sets of hashes and of ids that the execution keeps.
pub record Policy : Type 0 where
  pub denied_hashes : List String
  pub approved_hashes : List String
  pub approved_calls : List String
  pub mcp_approval : List String

-- The counters `pending` and `pendingInput`, and the calls for which an approval was requested.
pub record Waiting : Type 0 where
  pub pending : ℕ
  pub pending_input : ℕ
  pub requested : List ToolCall

-- What a `BeforeToolCall` hook does: an error, a block with its reason, or the input as it leaves
-- it. A nil map is `none`.
pub data Decision : Type 0 where
  refused : String → Decision
  blocked : String → Decision
  allowed : Option Fields → Decision

pub data Validated : Type 0 where
  invalid : String → Validated
  valid : ToolCall → Validated

-- json.Unmarshal into map[string]any; the text of the error is that of encoding/json.
pub data Input : Type 0 where
  not_an_object : String → Input
  input : Option Fields → Input

abbrev pub marshalled : Option Fields → Value
marshalled none = null
marshalled (some fs) = obj fs

-- `first(reason, "Tool execution was blocked")`
abbrev pub reason_or_default : String → String
reason_or_default reason = if reason == "" then "Tool execution was blocked" else reason

abbrev pub text_of : String → Fields → String
text_of k fs = string_or_empty (get k fs)

-- The agents of a list of tasks, as `requiresApproval` reads its input.
abbrev pub task_agents : Items → List String
task_agents nil = []
task_agents (cons (obj fs) vs) = text_of "agent" fs ∷ task_agents vs
task_agents (cons _ vs) = "" ∷ task_agents vs

abbrev pub agents_under : String → Fields → List String
agents_under k fs = elim (get k fs) [ some (arr vs) ↦ task_agents vs | _ ↦ [] ]

-- A *bool that is nil or true.
abbrev pub true_unless_false : Option Value → Bool
true_unless_false (some (bool b)) = b
true_unless_false _ = true

abbrev pub fields_of : Option Value → Fields
fields_of (some (obj fs)) = fs
fields_of _ = end

-- `is_bundled` is IsBundledAgentAt of the resources, at an agent and a scope, and `matches` is a
-- regular expression at a text.
module _ (is_bundled : String → String → Bool) (matches : String → String → Bool) where
  abbrev pub has_project_agent : String → List String → Bool
  has_project_agent scope [] = false
  has_project_agent scope (agent ∷ agents) =
      not (is_bundled agent scope) || has_project_agent scope agents

  unfoldable pub subagent_needs_approval : Fields → Bool
  subagent_needs_approval fs =
      let agent = text_of "agent" fs in
      let scope = text_of "agentScope" fs in
      true_unless_false (get "confirmProjectAgents" fs)
      && (scope == "project" || scope == "both")
      && ((not (agent == "") && not (is_bundled agent scope))
          || has_project_agent scope (agents_under "tasks" fs ++ agents_under "chain" fs))

  abbrev pub is_dangerous : String → Bool
  is_dangerous command =
      matches "(?i)\\brm\\s+(-rf?|--recursive)" command
      || matches "(?i)\\bsudo\\b" command
      || matches "(?i)\\b(chmod|chown)\\b.*777" command

  unfoldable pub requires_approval : Policy → ToolCall → Bool
  requires_approval policy call =
      (call.name == "subagent" && subagent_needs_approval (fields_of call.arguments))
      || (if call.name == "bash"
          then is_dangerous (text_of "command" (fields_of call.arguments))
          else contains policy.mcp_approval call.name)

-- What a prepared call becomes: an outcome at once, or a call that a tool will execute.
pub data Prepared (R : Type 0) : Type 0 where
  immediate : Outcome → Prepared R
  ready : ToolCall → ToolDefinition R → Prepared R

-- What the code calls and does not decide. `validate_call` is validateToolCall, `unmarshal` is
-- json.Unmarshal of the arguments, and `hash` is argumentHash.
pub record World (R : Type 0) : Type 0 where
  pub policy : Policy
  pub validate_call : ToolDefinition R → ToolCall → Validated
  pub unmarshal : Option Value → Input
  pub marshal_error : Option Fields → Option String
  pub before : List (Option (ToolCall → Option Fields → Decision))
  pub hash : String → Option Value → String
  pub needs_approval : ToolCall → Bool
  pub millis : ℤ

module _ {R : Type 0} (w : World R) where
  abbrev pub fail_now : ToolCall → String → Waiting → Prepared R × Waiting
  fail_now call text waiting =
      (immediate (finish_tool_outcome w.millis call (text_result text) (some text)), waiting)

  -- The loop over the extensions.
  unfoldable pub run_before :
      List (Option (ToolCall → Option Fields → Decision)) → ToolCall → Option Fields → Decision
  run_before [] call fields = allowed fields
  run_before (none ∷ hooks) call fields = run_before hooks call fields
  run_before (some hook ∷ hooks) call fields = elim (hook call fields) [
    | refused err ↦ refused err
    | blocked reason ↦ blocked reason
    | allowed fields' ↦ run_before hooks call fields'
  ]

  unfoldable pub is_approved : ToolCall → Bool
  is_approved call =
      contains w.policy.approved_calls call.id
      || contains w.policy.approved_hashes (w.hash call.name call.arguments)

  -- The gates at the end: cancellation, a denial, an approval.
  unfoldable pub pass_gates : Bool → ToolDefinition R → ToolCall → Waiting → Prepared R × Waiting
  pass_gates aborted tool call waiting =
      if aborted
      then fail_now call "Operation aborted" waiting
      else if contains w.policy.denied_hashes (w.hash call.name call.arguments)
      then fail_now call "this tool call was denied by the user" waiting
      else if w.needs_approval call && not (is_approved call)
      then fail_now call "dangerous tool call requires App approval" (record waiting {
        pending = waiting.pending + 1;
        requested = waiting.requested ++ call ∷ [];
      })
      else (ready call tool, waiting)

  -- The error of json.Marshal for the input as the hooks leave it.
  unfoldable pub after_marshal :
      Option String
      → Option Fields
      → Bool
      → ToolDefinition R
      → ToolCall
      → Waiting
      → Prepared R × Waiting
  after_marshal (some err) fields aborted tool call waiting = fail_now call err waiting
  after_marshal none fields aborted tool call waiting =
      pass_gates aborted tool (record call { arguments = some (marshalled fields) }) waiting

  unfoldable pub after_hooks :
      Decision → Bool → ToolDefinition R → ToolCall → Waiting → Prepared R × Waiting
  after_hooks (refused err) aborted tool call waiting = fail_now call err waiting
  after_hooks (blocked reason) aborted tool call waiting =
      fail_now call (reason_or_default reason) waiting
  after_hooks (allowed fields) aborted tool call waiting =
      after_marshal (w.marshal_error fields) fields aborted tool call waiting

  unfoldable pub after_input :
      Input → Bool → ToolDefinition R → ToolCall → Waiting → Prepared R × Waiting
  after_input (not_an_object err) aborted tool call waiting = fail_now call err waiting
  after_input (input fields) aborted tool call waiting =
      after_hooks (run_before w.before call fields) aborted tool call waiting

  unfoldable pub after_validation :
      Validated → Bool → ToolDefinition R → ToolCall → Waiting → Prepared R × Waiting
  after_validation (invalid err) aborted tool call waiting = fail_now call err waiting
  after_validation (valid prepared) aborted tool call waiting =
      after_input (w.unmarshal prepared.arguments) aborted tool prepared waiting

  unfoldable pub after_find :
      Option (ToolDefinition R) → Bool → ToolCall → Waiting → Prepared R × Waiting
  after_find none aborted call waiting =
      fail_now call (append (append "tool " call.name) " not found") waiting
  after_find (some tool) aborted call waiting =
      after_validation (w.validate_call tool call) aborted tool call waiting

  -- `aborted` tells whether the context was done when it was looked at.
  unfoldable pub prepare_tool_execution :
      List (ToolDefinition R) → Bool → ToolCall → Waiting → Prepared R × Waiting
  prepare_tool_execution tools aborted call waiting =
      after_find (find_tool tools call.name) aborted call waiting
