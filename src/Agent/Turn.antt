-- ===== src/Agent/Turn.antt =====
-- internal/engine/runtime.go: the body of the loop of runAgent, and endAgent. The events of the
-- stream within a message are left out.
use ergo_agent.Prelude.{
  String, Bool, true, false, ◌&&◌, ◌||◌, Option, none, some, List, [], ◌∷◌, ◌++◌, ◌==◌, eqb,
  if◌then◌else◌, inl, inr, value_or,
}
use ergo_agent.Prelude.Int.{ℤ, ◌+ℤ◌, ◌*ℤ◌, negsuc, ltb_ℤ, int64}
use ergo_agent.Json.{end}
use ergo_agent.Message.{Message, zero_message}
use ergo_agent.Registry.{ToolDefinition, expand_tools, filter_tools}
use ergo_agent.Session.{Session, branch}
use ergo_agent.Session.Settings.{first}
use ergo_agent.Controls.{inject_queued_messages}
use ergo_agent.Pipeline.Batch.{Replacement, replaced, rejected, transform_message_end}
use ergo_agent.Provider.{Request}
use ergo_agent.Compaction.Entries.{messages_from_entries}
use ergo_agent.Compaction.Tokens.{estimate_context_tokens}
use ergo_agent.Compaction.Run.{Compactor, Compacted, compact_with_reason, or_default}
use ergo_agent.Agent.{
  AgentEvent, message_end, compaction_start, agent_end, agent_settled, Setup, Outside, Run, Next,
  again, stop, say, encode, record_message, Transformed, transformed, untransformed,
}

abbrev pub opposite : ℤ → ℤ
opposite n = n *ℤ negsuc 0

abbrev pub is_empty : {A : Type 0} → List A → Bool
is_empty [] = true
is_empty (a ∷ list) = false

module _ {R : Type 0} (setup : Setup R) (o : Outside R) where
  abbrev pub AgentHook : Type 0
  AgentHook = List Message → Message → Option String → Option String

  -- A loop over the hooks at the end of the agent, which ends at the first error.
  unfoldable pub tell : List (Option AgentHook) → Run R → Message → Option String → Option String
  tell [] run m cause = none
  tell (none ∷ hooks) run m cause = tell hooks run m cause
  tell (some hook ∷ hooks) run m cause = elim (hook run.messages m cause) [
    | some err ↦ some err
    | none ↦ tell hooks run m cause
  ]

  abbrev pub unless_error : Option String → Run R → (Run R → Next R) → Next R
  unless_error (some err) run continue = stop run "" (some err)
  unless_error none run continue = continue run

  -- e.emit with its error.
  unfoldable pub emit_next : AgentEvent → Run R → (Run R → Next R) → Next R
  emit_next event run continue =
      unless_error (o.emit_error event) run (λ run. continue (say event run))

  -- endAgent from its end, and then the return of the text and the error.
  abbrev pub settled : Message → Option String → String → Option String → Run R → Next R
  settled m cause text err run = emit_next agent_settled run (λ run. stop run text err)

  abbrev pub ended : Message → Option String → String → Option String → Run R → Next R
  ended m cause text err run =
      unless_error (tell o.on_agent_settled run m cause) run (settled m cause text err)

  abbrev pub told : Message → Option String → String → Option String → Run R → Next R
  told m cause text err run = emit_next (agent_end run.messages) run (ended m cause text err)

  unfoldable pub end_agent : Message → Option String → String → Option String → Run R → Next R
  end_agent m cause text err run =
      unless_error (tell o.on_agent_end run m cause) run (told m cause text err)

  unfoldable pub add_messages : List Message → Run R → Run R
  add_messages messages run = record run { messages = run.messages ++ messages }

  unfoldable pub inject : String → Run R → List Message × Run R
  inject kind run =
      let (messages, queues, session) =
        inject_queued_messages encode setup.fresh kind setup.depth run.polling.queues
          run.polling.session in
      (messages, record run { polling = record run.polling { queues = queues; session = session } })

  abbrev pub compactor_of : Run R → Compactor R
  compactor_of run = record {
    keep_recent = setup.compaction_keep_recent;
    reserve = setup.compaction_reserve;
    max_output_tokens = setup.max_output_tokens;
    session_id = setup.session_id;
    model = run.model;
    thinking = run.thinking;
    before = o.before_compact;
    after = o.after_compact;
    complete = o.complete_summary;
    fresh = setup.fresh;
  }

  abbrev pub with_session : Session → Run R → Run R
  with_session session run = record run { polling = record run.polling { session = session } }

  -- What the loop does with the result of a compaction: `continue` gets the run with the new
  -- session, and whether it was compacted.
  unfoldable pub after_compacting : Compacted → Run R → (Bool → Run R → Next R) → Next R
  after_compacting (inl err, session) run continue = stop (with_session session run) "" (some err)
  after_compacting (inr done, session) run continue = continue done (with_session session run)

  unfoldable pub compacting : String → Bool → Run R → (Bool → Run R → Next R) → Next R
  compacting reason will_retry run continue =
      let run' = say (compaction_start reason will_retry) run in
      after_compacting
        (compact_with_reason setup.parse_time setup.raw setup.raw_length (compactor_of run') ""
          run'.polling.session)
        run' continue

  -- messages = messagesFromEntries(e.branch())
  unfoldable pub reload : Run R → Run R
  reload run = record run {
    messages = messages_from_entries setup.parse_time (branch run.polling.session);
  }

  abbrev pub compaction_is_on : Bool
  compaction_is_on = value_or true setup.compaction_enabled

  unfoldable pub is_over_threshold : List Message → Bool
  is_over_threshold messages =
      let window = or_default setup.context_window 200000 in
      let reserve = or_default setup.compaction_reserve 16384 in
      ltb_ℤ (int64 (window +ℤ opposite reserve)) (estimate_context_tokens setup.raw_length messages)

  abbrev pub reload_if : Bool → Run R → Run R
  reload_if done run = if done then reload run else run

  -- The beginning of a turn at depth 0: the queue of steering messages and the compaction.
  unfoldable pub prepare_turn : Run R → Next R
  prepare_turn run =
      let (queued, injected) = inject "steer" run in
      let run' = add_messages queued injected in
      if o.compaction_requested || (compaction_is_on && is_over_threshold run'.messages)
      then compacting "threshold" false run' (λ done run. again (reload_if done run))
      else again run'

  -- The provider, the model and the level of thinking for the request.
  unfoldable pub select_model : Run R → Next R
  select_model run =
      let provider_name = first o.overrides.provider run.provider_name in
      let model = first o.overrides.model run.model in
      let thinking = first o.overrides.thinking run.thinking in
      let selected = record run {
        provider_name = provider_name;
        model = model;
        thinking = thinking;
      } in
      if provider_name == run.provider_name && model == run.model
      then again (record run { thinking = thinking })
      else unless_error (o.provider_error provider_name model) run (λ run'. again selected)

  unfoldable pub request_tools : List (ToolDefinition R)
  request_tools =
      let names = if eqb setup.depth 0 then o.overrides.tools else setup.base_tool_filter in
      let is_set =
        if eqb setup.depth 0 then o.overrides.tools_set else setup.base_tool_filter_set in
      if is_set then filter_tools setup.tools (expand_tools names setup.mcp_names) else setup.tools

  unfoldable pub request_of : Run R → Request R
  request_of run = record {
    session_id = setup.session_id;
    model = run.model;
    system = setup.system;
    messages = run.messages;
    tools = request_tools;
    thinking_level = run.thinking;
    max_tokens = setup.max_output_tokens;
  }

  abbrev pub with_transformed : Transformed R → Run R → Request R → (Request R → Next R) → Next R
  with_transformed (untransformed err) run request continue = stop run "" (some err)
  with_transformed (transformed system messages tools) run request continue =
      continue (record request { system = system; messages = messages; tools = tools })

  -- The loop over the `TransformContext` hooks.
  unfoldable pub transform_request :
      List (Option (Request R → Transformed R)) → Run R → Request R → (Request R → Next R) → Next R
  transform_request [] run request continue = continue request
  transform_request (none ∷ hooks) run request continue =
      transform_request hooks run request continue
  transform_request (some hook ∷ hooks) run request continue =
      with_transformed (hook request) run request
        (λ request'. transform_request hooks run request' continue)

  abbrev pub assistant_message : Run R → Message
  assistant_message run = record zero_message {
    role = "assistant";
    provider = run.provider_name;
    model = run.model;
    timestamp = o.millis;
  }

  abbrev pub answer_with : Replacement → Run R → (Message → Run R → Next R) → Next R
  answer_with (rejected err) run continue = stop run "" (some err)
  answer_with (replaced m) run continue =
      continue m (say (message_end m) (record_message setup m end (add_messages (m ∷ []) run)))

  -- The answer as the hooks leave it, in the messages and in the session.
  unfoldable pub add_answer : Message → Run R → (Message → Run R → Next R) → Next R
  add_answer m run continue =
      answer_with (transform_message_end o.world o.running o.running.message_end m.role m) run
        continue
