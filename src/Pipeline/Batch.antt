-- ===== src/Pipeline/Batch.antt =====
-- internal/engine/runtime.go: executePreparedTool, recordToolOutcome and executeToolBatch.
use Prim.Native.String.{◌++◌ as append}
use ergo_agent.Prelude.{
  ℕ, ◌+◌, String, Bool, true, false, ◌&&◌, ◌||◌, Option, none, some, List, [], ◌∷◌, ◌==◌,
  if◌then◌else◌, value_or,
}
use ergo_agent.Json.{Value, str, bool, Fields, end, field, get}
use ergo_agent.Message.{ToolCall, Message, zero_call}
use ergo_agent.Registry.{ToolDefinition, find_tool}
use ergo_agent.Schema.Values.{object?}
use ergo_agent.Pipeline.{
  ToolResult, text_result, Outcome, finish_tool_outcome, Waiting, World, Prepared, immediate, ready,
  prepare_tool_execution,
}

-- What the poller of interactions answers: there is none or no reply yet, an error, a cancellation,
-- or a response with its JSON text.
pub data Interaction : Type 0 where
  unanswered cancelled : Interaction
  poll_failed : String → Interaction
  answered : Value → String → Interaction

-- What an `AfterToolCall` hook overrides, or its error.
pub data Override : Type 0 where
  hook_failed : String → Override
  override : Option ToolResult → Option Bool → Option Bool → Override

-- What a `MessageEnd` hook makes of a message, or its error.
pub data Replacement : Type 0 where
  replaced : Message → Replacement
  rejected : String → Replacement

pub record Running (R : Type 0) : Type 0 where
  pub execute : ToolDefinition R → ToolCall → ToolResult × Option String
  pub interact : String → Interaction
  pub interaction_id : ToolCall → Fields → String
  pub after : List (Option (ToolCall → ToolResult → Option String → Override))
  pub message_end : List (Option (Message → Replacement))
  pub context_error : Option String

-- A result with its error.
abbrev pub Executed : Type 0
Executed = ToolResult × Option String

abbrev pub with_terminate : Option Bool → ToolResult → ToolResult
with_terminate none result = result
with_terminate (some b) result = record result { terminate = b }

abbrev pub with_error : Option Bool → ToolResult → Option String → Option String
with_error none result err = err
with_error (some true) result none = some result.text
with_error (some true) result (some err) = some err
with_error (some false) result err = none

unfoldable pub apply_override : Override → Executed → Executed
apply_override (hook_failed err) (result, old) = (text_result err, some err)
apply_override (override given terminate is_error) (result, err) =
    let result' = with_terminate terminate (value_or result given) in
    (result', with_error is_error result' err)

unfoldable pub run_after :
    List (Option (ToolCall → ToolResult → Option String → Override))
    → ToolCall
    → Executed
    → Executed
run_after [] call x = x
run_after (none ∷ hooks) call x = run_after hooks call x
run_after (some hook ∷ hooks) call x = run_after hooks call (apply_override (hook call x.0 x.1) x)

module _ {R : Type 0} (w : World R) (r : Running R) where
  -- The answer to a questionnaire, and the number of inputs that are waited for.
  unfoldable pub answer : Interaction → String → Executed → Executed × ℕ
  answer unanswered id x = (x, 1)
  answer cancelled id x = (
    (
      record (text_result "The user cancelled the questionnaire.") {
        details = some (field "interactionId" (str id) (field "cancelled" (bool true) end));
      },
      none,
    ),
    0,
  )
  answer (poll_failed err) id x = ((text_result err, some err), 0)
  answer (answered response text) id x = (
    (
      record (text_result (append "Questionnaire response:\n" text)) {
        details = some (field "interactionId" (str id) (field "response" response end));
      },
      none,
    ),
    0,
  )

  abbrev pub questionnaire_of : Executed → Option Fields
  questionnaire_of (result, some err) = none
  questionnaire_of (result, none) = object? (get "questionnaire" (value_or end result.details))

  unfoldable pub interacted : ToolCall → Executed → Executed × ℕ
  interacted call x = elim (questionnaire_of x) [
    | none ↦ (x, 0)
    | some request ↦ let id = r.interaction_id call request in answer (r.interact id) id x
  ]

  unfoldable pub execute_prepared_tool : ToolCall → ToolDefinition R → Waiting → Outcome × Waiting
  execute_prepared_tool call tool waiting =
      let (x, inputs) = interacted call (r.execute tool call) in
      let (result, err) = run_after r.after call x in
      (
        finish_tool_outcome w.millis call result err,
        record waiting { pending_input = waiting.pending_input + inputs },
      )

  -- The loop of `transformMessageEnd`, at the role that the message must keep.
  unfoldable pub transform_message_end :
      List (Option (Message → Replacement)) → String → Message → Replacement
  transform_message_end [] role message = replaced message
  transform_message_end (none ∷ hooks) role message = transform_message_end hooks role message
  transform_message_end (some hook ∷ hooks) role message = elim (hook message) [
    | rejected err ↦ rejected err
    | replaced message' ↦ elim (message'.role == role) [
      | true ↦ transform_message_end hooks role message'
      | false ↦ rejected "message_end replacement must preserve the message role"
    ]
  ]

  -- The message that is recorded; at depth 0 it is appended to the session too.
  unfoldable pub record_tool_outcome : Outcome → Message
  record_tool_outcome o = elim (transform_message_end r.message_end o.message.role o.message) [
    | rejected err ↦ record o.message { is_error = true; content = err }
    | replaced message ↦ message
  ]

  unfoldable pub should_terminate : List Outcome → Bool
  should_terminate [] = false
  should_terminate (o ∷ []) = o.result.terminate
  should_terminate (o ∷ p ∷ outcomes) = o.result.terminate && should_terminate (p ∷ outcomes)

  unfoldable pub is_sequential : List (ToolDefinition R) → List ToolCall → Bool
  is_sequential tools [] = false
  is_sequential tools (call ∷ calls) =
      elim (find_tool tools call.name) [
        | none ↦ false
        | some tool ↦ tool.execution_mode == "sequential"
      ]
      || is_sequential tools calls

  unfoldable pub finish_prepared : Prepared R → Waiting → Outcome × Waiting
  finish_prepared (immediate o) waiting = (o, waiting)
  finish_prepared (ready call tool) waiting = execute_prepared_tool call tool waiting

  -- The goroutines write disjoint slots and share only the counter, which they count up.
  unfoldable pub finish_all : List (Prepared R) → Waiting → List Outcome × Waiting
  finish_all [] waiting = ([], waiting)
  finish_all (p ∷ prepared) waiting =
      let (o, waiting') = finish_prepared p waiting in
      let (outcomes, last) = finish_all prepared waiting' in (o ∷ outcomes, last)

  -- An outcome whose call has no id counts as one that was never written.
  unfoldable pub settle : ToolCall → Outcome → Outcome
  settle call o =
      if o.call.id == ""
      then finish_tool_outcome w.millis call (text_result "Operation aborted") r.context_error
      else o

  unfoldable pub settle_all : List ToolCall → List Outcome → List Outcome
  settle_all calls [] = []
  settle_all [] (o ∷ outcomes) = settle zero_call o ∷ settle_all [] outcomes
  settle_all (call ∷ calls) (o ∷ outcomes) = settle call o ∷ settle_all calls outcomes

  unfoldable pub record_all : List Outcome → List Message
  record_all [] = []
  record_all (o ∷ outcomes) = record_tool_outcome o ∷ record_all outcomes

  -- The context is looked at in the preparation of a call and after it: `aborted i` and
  -- `stopped i` for the call with the index i.
  module _ (tools : List (ToolDefinition R)) (aborted stopped : ℕ → Bool) where
    unfoldable pub run_sequential : ℕ → List ToolCall → Waiting → List Outcome × Waiting
    run_sequential i [] waiting = ([], waiting)
    run_sequential i (call ∷ calls) waiting =
        let (p, waiting') = prepare_tool_execution w tools (aborted i) call waiting in
        let (o, waiting'') = finish_prepared p waiting' in
        let (outcomes, last) = run_sequential (i + 1) calls waiting'' in
        if stopped i then (o ∷ [], waiting'') else (o ∷ outcomes, last)

    unfoldable pub prepare_all : ℕ → List ToolCall → Waiting → List (Prepared R) × Waiting
    prepare_all i [] waiting = ([], waiting)
    prepare_all i (call ∷ calls) waiting =
        let (p, waiting') = prepare_tool_execution w tools (aborted i) call waiting in
        let (rest, last) = prepare_all (i + 1) calls waiting' in
        if stopped i then (p ∷ [], waiting') else (p ∷ rest, last)

    -- The outcomes of the batch, whether the agent stops, and what is waited for.
    unfoldable pub batch_outcomes : List ToolCall → Waiting → List Outcome × Bool × Waiting
    batch_outcomes calls waiting =
        if is_sequential tools calls
        then (let (outcomes, last) = run_sequential 0 calls waiting in
            (outcomes, should_terminate outcomes, last))
        else (let (prepared, waiting') = prepare_all 0 calls waiting in
            let (outcomes, last) = finish_all prepared waiting' in
            (settle_all calls outcomes, should_terminate outcomes, last))

    -- The messages that record the outcomes.
    unfoldable pub execute_tool_batch : List ToolCall → Waiting → List Message × Bool × Waiting
    unfolding batch_outcomes
    execute_tool_batch calls waiting =
        let (outcomes, terminate, last) = batch_outcomes calls waiting in
        (record_all outcomes, terminate, last)
