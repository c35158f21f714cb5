-- ===== src/Pipeline/Answers.antt =====
-- Which messages answer the tool calls of a turn: executeToolBatch of internal/engine/runtime.go.
use ergo_agent.Prelude.{
  ℕ, ◌+◌, String, Bool, false, ◌≡◌, refl, ◌∙◌, Option, none, some, List, [], ◌∷◌, ◌==◌, eq_refl,
  arith, Bool-cases, inl, inr,
}
use ergo_agent.Message.{ToolCall, Message}
use ergo_agent.Registry.{ToolDefinition, find_tool}
use ergo_agent.Json.{Fields}
use ergo_agent.Pipeline.{
  Outcome, Waiting, World, Prepared, immediate, ready, Decision, refused, blocked, allowed, Input,
  not_an_object, input, Validated, invalid, valid, marshalled, pass_gates, after_marshal,
  after_hooks, after_input, after_validation, after_find, run_before, prepare_tool_execution,
  finish_tool_outcome, tool_outcome_message, text_result,
}
use ergo_agent.Pipeline.Batch.{
  Running, execute_prepared_tool, finish_prepared, run_sequential, prepare_all, finish_all, settle,
  settle_all, record_all, record_tool_outcome, transform_message_end, execute_tool_batch,
  is_sequential,
}

-- The id of the call that a prepared call is about, and the one that its answer names.
module _ {R : Type 0} where
  abbrev pub prepared_id : Prepared R → String
  prepared_id (immediate o) = o.call.id
  prepared_id (ready call tool) = call.id

  abbrev pub answered_id : Prepared R → String
  answered_id (immediate o) = o.message.tool_call_id
  answered_id (ready call tool) = call.id

abbrev pub call_ids : List ToolCall → List String
call_ids [] = []
call_ids (call ∷ calls) = call.id ∷ call_ids calls

abbrev pub message_ids : List Message → List String
message_ids [] = []
message_ids (m ∷ messages) = m.tool_call_id ∷ message_ids messages

module _ {R : Type 0} (w : World R) (r : Running R)
    (keeps : (tool : ToolDefinition R) (call c : ToolCall)
      → w.validate_call tool call ≡ valid c
      → c.id ≡ call.id) where
  pass_gates-id :
      (aborted : Bool) (tool : ToolDefinition R) (call : ToolCall) (s : Waiting)
      → (prepared_id (pass_gates w aborted tool call s).0 ≡ call.id)
        × (answered_id (pass_gates w aborted tool call s).0 ≡ call.id)
  unfolding pass_gates finish_tool_outcome tool_outcome_message
  pass_gates-id aborted tool call s = ground arith

  after_marshal-id :
      (o : Option String) (fields : Option Fields) (aborted : Bool) (tool : ToolDefinition R)
      (call : ToolCall) (s : Waiting)
      → (prepared_id (after_marshal w o fields aborted tool call s).0 ≡ call.id)
        × (answered_id (after_marshal w o fields aborted tool call s).0 ≡ call.id)
  unfolding after_marshal finish_tool_outcome tool_outcome_message
  after_marshal-id (some err) fields aborted tool call s = (refl, refl)
  after_marshal-id none fields aborted tool call s =
      pass_gates-id aborted tool (record call { arguments = some (marshalled fields) }) s

  after_hooks-id :
      (d : Decision) (aborted : Bool) (tool : ToolDefinition R) (call : ToolCall) (s : Waiting)
      → (prepared_id (after_hooks w d aborted tool call s).0 ≡ call.id)
        × (answered_id (after_hooks w d aborted tool call s).0 ≡ call.id)
  unfolding after_hooks finish_tool_outcome tool_outcome_message
  after_hooks-id (refused err) aborted tool call s = (refl, refl)
  after_hooks-id (blocked reason) aborted tool call s = (refl, refl)
  after_hooks-id (allowed fields) aborted tool call s =
      after_marshal-id (w.marshal_error fields) fields aborted tool call s

  after_input-id :
      (i : Input) (aborted : Bool) (tool : ToolDefinition R) (call : ToolCall) (s : Waiting)
      → (prepared_id (after_input w i aborted tool call s).0 ≡ call.id)
        × (answered_id (after_input w i aborted tool call s).0 ≡ call.id)
  unfolding after_input finish_tool_outcome tool_outcome_message
  after_input-id (not_an_object err) aborted tool call s = (refl, refl)
  after_input-id (input fields) aborted tool call s =
      after_hooks-id (run_before w w.before call fields) aborted tool call s

  after_validation-id :
      (v : Validated) (aborted : Bool) (tool : ToolDefinition R) (call : ToolCall) (s : Waiting)
      → ((c : ToolCall) → v ≡ valid c → c.id ≡ call.id)
      → (prepared_id (after_validation w v aborted tool call s).0 ≡ call.id)
        × (answered_id (after_validation w v aborted tool call s).0 ≡ call.id)
  unfolding after_validation finish_tool_outcome tool_outcome_message
  after_validation-id (invalid err) aborted tool call s k = (refl, refl)
  after_validation-id (valid c) aborted tool call s k =
      let (a, b) = after_input-id (w.unmarshal c.arguments) aborted tool c s in
      (a ∙ k c refl, b ∙ k c refl)

  after_find-id :
      (found : Option (ToolDefinition R)) (aborted : Bool) (call : ToolCall) (s : Waiting)
      → (prepared_id (after_find w found aborted call s).0 ≡ call.id)
        × (answered_id (after_find w found aborted call s).0 ≡ call.id)
  unfolding after_find finish_tool_outcome tool_outcome_message
  after_find-id none aborted call s = (refl, refl)
  after_find-id (some tool) aborted call s =
      after_validation-id (w.validate_call tool call) aborted tool call s (keeps tool call)

  prepare-id :
      (tools : List (ToolDefinition R)) (aborted : Bool) (call : ToolCall) (s : Waiting)
      → (prepared_id (prepare_tool_execution w tools aborted call s).0 ≡ call.id)
        × (answered_id (prepare_tool_execution w tools aborted call s).0 ≡ call.id)
  unfolding prepare_tool_execution
  prepare-id tools aborted call s = after_find-id (find_tool tools call.name) aborted call s

  finish_prepared-id :
      (p : Prepared R) (s : Waiting)
      → ((finish_prepared w r p s).0.call.id ≡ prepared_id p)
        × ((finish_prepared w r p s).0.message.tool_call_id ≡ answered_id p)
  unfolding finish_prepared execute_prepared_tool finish_tool_outcome tool_outcome_message
  finish_prepared-id (immediate o) s = (refl, refl)
  finish_prepared-id (ready call tool) s = (refl, refl)

  -- Without hooks a message is recorded as it is.
  record_tool_outcome-message :
      (o : Outcome) → r.message_end ≡ [] → record_tool_outcome w r o ≡ o.message
  unfolding record_tool_outcome transform_message_end
  record_tool_outcome-message o h = cc h

  module _ (tools : List (ToolDefinition R)) (aborted stopped : ℕ → Bool)
      (runs : (i : ℕ) → stopped i ≡ false) (plain : r.message_end ≡ []) where
    sequential-ids :
        (i : ℕ) (calls : List ToolCall) (s : Waiting)
        → message_ids (record_all w r (run_sequential w r tools aborted stopped i calls s).0)
          ≡ call_ids calls
    unfolding run_sequential record_all
    sequential-ids i [] s = refl
    sequential-ids i (call ∷ calls) s =
        let (p, s') = prepare_tool_execution w tools (aborted i) call s in
        let (o, s'') = finish_prepared w r p s' in
        cc (
          runs i,
          record_tool_outcome-message o plain,
          (finish_prepared-id p s').1,
          (prepare-id tools (aborted i) call s).1,
          sequential-ids (i + 1) calls s'',
        )

    settle-id :
        (call : ToolCall) (o : Outcome)
        → o.message.tool_call_id ≡ call.id
        → (settle w r call o).message.tool_call_id ≡ call.id
    unfolding settle finish_tool_outcome tool_outcome_message
    settle-id call o h = elim (Bool-cases (o.call.id == "")) [ inl e ↦ cc e | inr e ↦ cc (e, h) ]

    parallel-ids :
        (i : ℕ) (calls : List ToolCall) (s t : Waiting)
        → message_ids (
            record_all w r (
              settle_all w r calls
                (finish_all w r (prepare_all w r tools aborted stopped i calls s).0 t).0))
          ≡ call_ids calls
    unfolding prepare_all finish_all settle_all record_all
    parallel-ids i [] s t = refl
    parallel-ids i (call ∷ calls) s t =
        let (p, s') = prepare_tool_execution w tools (aborted i) call s in
        let (o, t') = finish_prepared w r p t in
        let answered = finish_prepared-id p t in
        let prepared = prepare-id tools (aborted i) call s in
        cc (
          runs i,
          record_tool_outcome-message (settle w r call o) plain,
          settle-id call o (answered.1 ∙ prepared.1),
          parallel-ids (i + 1) calls s' t',
        )

    -- When validation keeps the ids of calls, no hook replaces messages, and the context is not
    -- done after a call, executeToolBatch answers every call with one message, in the order of the
    -- calls, in the sequential mode and in the parallel one, whatever the tools, hooks, denials and
    -- approvals do.
    pub execute_tool_batch-ids :
        (calls : List ToolCall) (s : Waiting)
        → message_ids (execute_tool_batch w r tools aborted stopped calls s).0 ≡ call_ids calls
    unfolding execute_tool_batch
    execute_tool_batch-ids calls s = elim (Bool-cases (is_sequential w r tools calls)) [
      | inl e ↦ cc (e, sequential-ids 0 calls s)
      | inr e ↦ cc (e, parallel-ids 0 calls s (prepare_all w r tools aborted stopped 0 calls s).1)
    ]

    settle-no_id :
        (call : ToolCall) (o : Outcome)
        → o.call.id ≡ ""
        → settle w r call o
          ≡ finish_tool_outcome w.millis call (text_result "Operation aborted") r.context_error
    unfolding settle
    settle-no_id call o h = cc (h, eq_refl "")

    -- Under the conditions of an unbroken batch, a single call with the empty id that is executed
    -- in the parallel mode is answered by the text Operation aborted, or the error of the context
    -- if there is one, whatever the tool returned.
    pub execute_tool_batch-no_id :
        (call : ToolCall) (s : Waiting)
        → call.id ≡ ""
        → is_sequential w r tools (call ∷ []) ≡ false
        → (execute_tool_batch w r tools aborted stopped (call ∷ []) s).0
          ≡ tool_outcome_message w.millis call (text_result "Operation aborted") r.context_error
            ∷ []
    unfolding execute_tool_batch prepare_all finish_all settle_all record_all finish_tool_outcome
    execute_tool_batch-no_id call s n e =
        let (p, s') = prepare_tool_execution w tools (aborted 0) call s in
        let (o, t) = finish_prepared w r p s' in
        let answered = finish_prepared-id p s' in
        let prepared = prepare-id tools (aborted 0) call s in
        cc (
          e,
          runs 0,
          record_tool_outcome-message (settle w r call o) plain,
          settle-no_id call o (answered.0 ∙ prepared.0 ∙ n),
        )
