-- ===== src/Agent/Tools.antt =====
-- internal/engine/runtime.go: the tool calls of a turn, failTruncatedToolCalls and the recording of
-- the outcomes of executeToolBatch in the session.
use Prim.Native.String.{◌++◌ as append}
use ergo_agent.Prelude.{Bool, true, false, Option, none, some, List, [], ◌∷◌, ◌==◌, if◌then◌else◌}
use ergo_agent.Prelude.Int.{ℤ}
use ergo_agent.Json.{str, null, obj, Fields, end, field, Value}
use ergo_agent.Message.{ToolCall, Message, zero_message}
use ergo_agent.Provider.{Completion}
use ergo_agent.Pipeline.{Outcome}
use ergo_agent.Pipeline.Batch.{batch_outcomes, record_tool_outcome, record_all}
use ergo_agent.Agent.{Setup, Outside, Run, record_message}

-- fmt.Sprintf with %q: the name in quotes. Names hold no characters that %q escapes.
unfoldable pub truncated_call_message : ℤ → ToolCall → Message
truncated_call_message millis call = record zero_message {
  role = "tool";
  tool_call_id = call.id;
  tool_name = call.name;
  content =
      append (append "Tool call \"" (append call.name "\""))
        " was not executed: the response hit the output token limit, so its arguments may be truncated. Re-issue the tool call with complete arguments.";
  is_error = true;
  timestamp = millis;
}

abbrev pub details_value : Option Fields → Value
details_value none = null
details_value (some fs) = obj fs

module _ {R : Type 0} (setup : Setup R) (o : Outside R) where
  -- The messages of the loop over the calls, and the run with its session.
  unfoldable pub fail_truncated_tool_calls : List ToolCall → Run R → List Message × Run R
  fail_truncated_tool_calls [] run = ([], run)
  fail_truncated_tool_calls (call ∷ calls) run =
      let m = truncated_call_message o.millis call in
      let (messages, run') =
        fail_truncated_tool_calls calls
          (record_message setup m (field "toolName" (str call.name) end) run) in
      (m ∷ messages, run')

  unfoldable pub record_outcomes : List Outcome → Run R → Run R
  record_outcomes [] run = run
  record_outcomes (out ∷ outcomes) run = record_outcomes outcomes (
      record_message setup (record_tool_outcome o.world o.running out)
        (field "toolName" (str out.call.name)
          (field "details" (details_value out.result.details) end))
        run)

  -- The messages, whether the agent stops, and the run.
  unfoldable pub run_batch : List ToolCall → Run R → List Message × Bool × Run R
  run_batch calls run =
      let (outcomes, terminate, waiting) =
        batch_outcomes o.world o.running setup.tools o.aborted o.stopped calls run.waiting in
      (
        record_all o.world o.running outcomes,
        terminate,
        record_outcomes outcomes (record run { waiting = waiting }),
      )

  -- Calls whose arguments may be cut are not executed.
  unfoldable pub run_calls : Completion → Run R → List Message × Bool × Run R
  run_calls completion run =
      if completion.stop_reason == "length"
      then (let (messages, run') = fail_truncated_tool_calls completion.tool_calls run in
          (messages, false, run'))
      else run_batch completion.tool_calls run
