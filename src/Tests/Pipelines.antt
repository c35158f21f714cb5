-- ===== src/Tests/Pipelines.antt =====
-- Tool calls of internal/engine/runtime.go on concrete inputs.
use ergo_agent.Prelude.{
  ℕ, String, Bool, true, false, ◌≡◌, refl, Option, none, some, List, [], ◌∷◌, ◌==◌, contains,
}
use ergo_agent.Prelude.Int.{pos}
use ergo_agent.Json.{Value, str, obj, end, field, get}
use ergo_agent.Message.{ToolCall}
use ergo_agent.Registry.{ToolDefinition, find_tool}
use ergo_agent.Pipeline.{
  text_result, tool_outcome_message, Policy, Waiting, Input, input, not_an_object, valid, World,
  ready, prepare_tool_execution, requires_approval, after_find, after_validation, after_input,
  after_hooks, after_marshal, pass_gates, run_before, is_approved,
}
use ergo_agent.Pipeline.Batch.{unanswered, Running, execute_tool_batch, is_sequential}
use ergo_agent.Pipeline.Clearance.{IsCleared, prepare_tool_execution-IsCleared}
use ergo_agent.Pipeline.Answers.{message_ids, execute_tool_batch-ids, execute_tool_batch-no_id}

abbrev definition : String → ToolDefinition ℕ
definition name = record { name = name; execution_mode = ""; rest = 0 }

abbrev pub tools : List (ToolDefinition ℕ)
tools = definition "read" ∷ definition "bash" ∷ []

abbrev fields_input : Option Value → Input
fields_input (some (obj fs)) = input (some fs)
fields_input _ = not_an_object "json: cannot unmarshal"

abbrev policy : Policy
policy = record {
  denied_hashes = [];
  approved_hashes = [];
  approved_calls = "2" ∷ [];
  mcp_approval = [];
}

abbrev only_sudo : String → String → Bool
only_sudo pattern text = text == "sudo true"

abbrev pub world : World ℕ
world = record {
  policy = policy;
  validate_call = λ tool call. valid call;
  unmarshal = λ v. fields_input v;
  marshal_error = λ fields. none;
  before = [];
  hash = λ name v. name;
  needs_approval = λ call. requires_approval (λ agent scope. true) only_sudo policy call;
  millis = pos 5;
}

abbrev pub call : String → String → String → ToolCall
call id name command = record {
  id = id;
  name = name;
  arguments = some (obj (field "command" (str command) end));
  metadata = none;
}

abbrev pub waiting : Waiting
waiting = record { pending = 0; pending_input = 0; requested = [] }

abbrev pub running : Running ℕ
running = record {
  execute = λ tool c. (text_result tool.name, none);
  interact = λ id. unanswered;
  interaction_id = λ c fs. "q";
  after = [];
  message_end = [];
  context_error = none;
}

-- A dangerous command that the user has approved is executed.
approved_run :
    prepare_tool_execution world tools false (call "2" "bash" "sudo true") waiting
    ≡ (ready (call "2" "bash" "sudo true") (definition "bash"), waiting)
unfolding prepare_tool_execution after_find find_tool after_validation after_input after_hooks
    after_marshal run_before pass_gates contains requires_approval get is_approved
approved_run = refl

prepare_tool_execution-IsCleared_example :
    (find_tool tools "bash" ≡ some (definition "bash"))
    × (waiting ≡ waiting)
    × IsCleared world false (call "2" "bash" "sudo true")
prepare_tool_execution-IsCleared_example =
    prepare_tool_execution-IsCleared world tools false (definition "bash")
      (call "2" "bash" "sudo true") (call "2" "bash" "sudo true") waiting waiting approved_run

abbrev calls : List ToolCall
calls = call "1" "bash" "sudo true" ∷ call "2" "bash" "ls" ∷ call "3" "none" "" ∷ []

execute_tool_batch-ids_example :
    message_ids (execute_tool_batch world running tools (λ i. false) (λ i. false) calls waiting).0
    ≡ "1" ∷ "2" ∷ "3" ∷ []
execute_tool_batch-ids_example =
    execute_tool_batch-ids world running (λ tool a b h. cc h) tools (λ i. false) (λ i. false)
      (λ i. refl) refl calls waiting

execute_tool_batch-no_id_example :
    (execute_tool_batch world running tools
      (λ i. false)
      (λ i. false)
      (call "" "read" "" ∷ [])
      waiting).0
    ≡ tool_outcome_message (pos 5) (call "" "read" "") (text_result "Operation aborted") none ∷ []
unfolding is_sequential find_tool
execute_tool_batch-no_id_example =
    execute_tool_batch-no_id world running (λ tool a b h. cc h) tools (λ i. false) (λ i. false)
      (λ i. refl) refl (call "" "read" "") waiting refl refl
