-- ===== src/Pipeline/Clearance.antt =====
-- Which tool calls are executed: the gates of prepareToolExecution of internal/engine/runtime.go.
use ergo_agent.Prelude.{String, Bool, true, false, ◌≡◌, Option, none, some, List, contains, arith}
use ergo_agent.Json.{Fields}
use ergo_agent.Message.{ToolCall}
use ergo_agent.Registry.{ToolDefinition, find_tool}
use ergo_agent.Pipeline.{
  Waiting, World, ready, Decision, refused, blocked, allowed, Input, not_an_object, input,
  Validated, invalid, valid, marshalled, is_approved, pass_gates, after_marshal, after_hooks,
  after_input, after_validation, after_find, run_before, prepare_tool_execution,
}

module _ {R : Type 0} (w : World R) where
  -- What is known of a call that a tool will execute.
  pub record IsCleared (aborted : Bool) (call : ToolCall) : Type 0 where
    pub running : aborted ≡ false
    pub not_denied : contains w.policy.denied_hashes (w.hash call.name call.arguments) ≡ false
    pub approved : w.needs_approval call ≡ true → is_approved w call ≡ true

  pass_gates-IsCleared :
      (aborted : Bool) (tool t : ToolDefinition R) (call c : ToolCall) (s s' : Waiting)
      → pass_gates w aborted tool call s ≡ (ready c t, s')
      → (t ≡ tool) × (s' ≡ s) × IsCleared aborted c
  unfolding pass_gates
  pass_gates-IsCleared aborted tool t call c s s' h = ground arith

  after_marshal-IsCleared :
      (o : Option String) (fields : Option Fields) (aborted : Bool) (tool t : ToolDefinition R)
      (call c : ToolCall) (s s' : Waiting)
      → after_marshal w o fields aborted tool call s ≡ (ready c t, s')
      → (t ≡ tool) × (s' ≡ s) × IsCleared aborted c
  unfolding after_marshal
  after_marshal-IsCleared (some err) fields aborted tool t call c s s' h = cc
  after_marshal-IsCleared none fields aborted tool t call c s s' h =
      pass_gates-IsCleared aborted tool t (record call { arguments = some (marshalled fields) }) c s
        s' h

  after_hooks-IsCleared :
      (d : Decision) (aborted : Bool) (tool t : ToolDefinition R) (call c : ToolCall)
      (s s' : Waiting)
      → after_hooks w d aborted tool call s ≡ (ready c t, s')
      → (t ≡ tool) × (s' ≡ s) × IsCleared aborted c
  unfolding after_hooks
  after_hooks-IsCleared (refused err) aborted tool t call c s s' h = cc
  after_hooks-IsCleared (blocked reason) aborted tool t call c s s' h = cc
  after_hooks-IsCleared (allowed fields) aborted tool t call c s s' h =
      after_marshal-IsCleared (w.marshal_error fields) fields aborted tool t call c s s' h

  after_input-IsCleared :
      (i : Input) (aborted : Bool) (tool t : ToolDefinition R) (call c : ToolCall) (s s' : Waiting)
      → after_input w i aborted tool call s ≡ (ready c t, s')
      → (t ≡ tool) × (s' ≡ s) × IsCleared aborted c
  unfolding after_input
  after_input-IsCleared (not_an_object err) aborted tool t call c s s' h = cc
  after_input-IsCleared (input fields) aborted tool t call c s s' h =
      after_hooks-IsCleared (run_before w w.before call fields) aborted tool t call c s s' h

  after_validation-IsCleared :
      (v : Validated) (aborted : Bool) (tool t : ToolDefinition R) (call c : ToolCall)
      (s s' : Waiting)
      → after_validation w v aborted tool call s ≡ (ready c t, s')
      → (t ≡ tool) × (s' ≡ s) × IsCleared aborted c
  unfolding after_validation
  after_validation-IsCleared (invalid err) aborted tool t call c s s' h = cc
  after_validation-IsCleared (valid prepared) aborted tool t call c s s' h =
      after_input-IsCleared (w.unmarshal prepared.arguments) aborted tool t prepared c s s' h

  after_find-IsCleared :
      (found : Option (ToolDefinition R)) (aborted : Bool) (t : ToolDefinition R)
      (call c : ToolCall) (s s' : Waiting)
      → after_find w found aborted call s ≡ (ready c t, s')
      → (found ≡ some t) × (s' ≡ s) × IsCleared aborted c
  unfolding after_find
  after_find-IsCleared none aborted t call c s s' h = cc
  after_find-IsCleared (some tool) aborted t call c s s' h =
      let (e, u, r) =
        after_validation-IsCleared (w.validate_call tool call) aborted tool t call c s s' h in
      (cc e, u, r)

  -- When prepareToolExecution hands a call on to be executed, the tool is the one that findTool
  -- finds under the name of the call; the context was not done, the call that will run is not among
  -- the denied ones, and if it requires an approval its id or its hash is approved; nothing new is
  -- waited for.
  pub prepare_tool_execution-IsCleared :
      (tools : List (ToolDefinition R)) (aborted : Bool) (t : ToolDefinition R) (call c : ToolCall)
      (s s' : Waiting)
      → prepare_tool_execution w tools aborted call s ≡ (ready c t, s')
      → (find_tool tools call.name ≡ some t) × (s' ≡ s) × IsCleared aborted c
  unfolding prepare_tool_execution
  prepare_tool_execution-IsCleared tools aborted t call c s s' h =
      after_find-IsCleared (find_tool tools call.name) aborted t call c s s' h
