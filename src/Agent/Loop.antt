-- ===== src/Agent/Loop.antt =====
-- internal/engine/runtime.go: the turns of runAgent. With a bound on the turns their number is the
-- fuel of the loop; without one the loop may run for ever, and the fuel is the number of turns that
-- are looked at.
use Prim.Native.String.{◌++◌ as append}
use ergo_agent.Prelude.{
  ℕ, zero, suc, ◌+◌, String, Bool, true, false, not, ◌&&◌, ◌||◌, Option, none, some, List, [], ◌∷◌,
  ◌++◌, eqb, ltb, if◌then◌else◌,
}
use ergo_agent.Prelude.Int.{ℤ, pos, negsuc}
use ergo_agent.Prelude.Text.{decimal}
use ergo_agent.Json.{Fields}
use ergo_agent.Message.{Message, zero_message}
use ergo_agent.Controls.{Control, poll}
use ergo_agent.Provider.{Completion, Reply, completed, failed, Failure}
use ergo_agent.Compaction.Run.{first_positive}
use ergo_agent.Agent.{
  turn_start, message_start, turn_end, snapshot, Setup, Outside, Run, Next, again, and_next, say,
  encode,
}
use ergo_agent.Agent.Overflow.{is_context_overflow_error, is_context_overflow_message}
use ergo_agent.Agent.Usage.{apply_model_pricing}
use ergo_agent.Agent.Tools.{run_calls, run_batch}
use ergo_agent.Agent.Turn.{
  emit_next, unless_error, end_agent, add_messages, inject, compacting, reload, compaction_is_on,
  is_empty, prepare_turn, select_model, request_of, transform_request, assistant_message,
  add_answer,
}

module _ {R : Type 0} (setup : Setup R) (o : Outside R) where
  -- After the compaction of a recovery: the turn is taken again if there was one to make.
  abbrev pub recovered : Failure → Message → Bool → Run R → Next R
  recovered failure m true run = again (reload setup o run)
  recovered failure m false run = end_agent setup o m (some failure.text) "" none run

  -- A reply that is an error: the one recovery from an overflow, or the end.
  unfoldable pub recover : Failure → Message → Run R → Next R
  recover failure m run =
      if eqb setup.depth 0
        && compaction_is_on setup o
        && not run.overflow_recovery_attempted
        && is_context_overflow_error setup.matches setup.lower failure
      then compacting setup o "overflow" true (record run { overflow_recovery_attempted = true })
          (recovered failure m)
      else end_agent setup o m (some failure.text) "" none run

  unfoldable pub on_failure : Failure → Run R → Next R
  on_failure failure run =
      add_answer setup o
        (record (assistant_message setup o run) {
          stop_reason = if failure.is_context then "aborted" else "error";
          error_message = failure.text;
        })
        run λ m run. recover failure m (say (turn_end m []) run)

  unfoldable pub after_turn :
      List (Option (Message → Option Fields → Option String))
      → Message
      → Run R
      → (Run R → Next R)
      → Next R
  after_turn [] m run continue = continue run
  after_turn (none ∷ hooks) m run continue = after_turn hooks m run continue
  after_turn (some hook ∷ hooks) m run continue =
      unless_error setup o (hook m run.usage) run (λ run. after_turn hooks m run continue)

  -- An answer that overflows the context is followed by a compaction, for the next prompt.
  unfoldable pub compact_after : Message → Run R → (Run R → Next R) → Next R
  compact_after m run continue =
      if eqb setup.depth 0
        && compaction_is_on setup o
        && is_context_overflow_message m (first_positive setup.context_window (pos 200000))
      then compacting setup o "overflow" false run (λ done run. continue run)
      else continue run

  -- The queues at the end of an answer without calls: the loop goes on if one gives messages.
  unfoldable pub continue_queued : List String → Run R → (Run R → Next R) → Next R
  continue_queued [] run finish = finish run
  continue_queued (kind ∷ kinds) run finish =
      let (queued, run') = inject setup o kind run in
      let rest = continue_queued kinds run' finish in
      if is_empty queued then rest else again (add_messages setup o queued run')

  unfoldable pub on_answer : Completion → Message → Run R → Next R
  on_answer completion m run = compact_after m (say (turn_end m []) run) λ run.
      continue_queued (if eqb setup.depth 0 then "steer" ∷ "follow_up" ∷ [] else []) run
        (end_agent setup o m none completion.text none)

  -- Something waits for the user.
  abbrev pub is_waiting : Run R → Bool
  is_waiting run = ltb 0 run.waiting.pending || ltb 0 run.waiting.pending_input

  unfoldable pub on_calls : Completion → Message → Run R → Next R
  on_calls completion m run =
      let (results, terminate, run') = run_calls setup o completion run in
      let run'' = say (turn_end m results) (add_messages setup o results run') in
      if is_waiting run'' || terminate
      then end_agent setup o m none completion.text none run''
      else again run''

  unfoldable pub save : Run R → (Run R → Next R) → Next R
  save run continue =
      if eqb setup.depth 0 then emit_next setup o snapshot run continue else continue run

  unfoldable pub dispatch : Completion → Message → Run R → Next R
  dispatch completion m run =
      if is_empty completion.tool_calls
      then on_answer completion m run
      else save run (on_calls completion m)

  unfoldable pub on_completion : Completion → Run R → Next R
  on_completion completion run =
      let usage =
        some (apply_model_pricing completion.usage (setup.pricing run.provider_name run.model)) in
      add_answer setup o
        (record (assistant_message setup o run) {
          content = completion.text;
          text_signature = completion.text_signature;
          thinking = completion.thinking;
          thinking_signature = completion.thinking_signature;
          tool_calls = completion.tool_calls;
          usage = usage;
          stop_reason = completion.stop_reason;
          error_message = completion.error_message;
        })
        (record run { usage = usage })
        λ m run. after_turn o.after_turn m run (dispatch completion m)

  unfoldable pub on_reply : Reply → Run R → Next R
  on_reply (failed failure) run = on_failure failure run
  on_reply (completed completion) run = on_completion completion run

  -- The controls that arrive while the provider answers.
  abbrev pub receive : List Control → Run R → Run R
  receive controls run = record run { polling = poll encode controls run.polling }

  unfoldable pub ask : Run R → Next R
  ask run = transform_request setup o o.transform_context run (request_of setup o run) λ request.
      on_reply (o.complete request)
        (receive o.late_arrivals (record run { requests = run.requests ++ request ∷ [] }))

  abbrev pub begin : ℕ → Run R → Run R
  begin turn run = if ltb 0 turn then say (turn_start (turn + 1)) run else run

  abbrev pub prepare : Run R → Next R
  prepare run = if eqb setup.depth 0 then prepare_turn setup o run else again run

  abbrev pub select : Run R → Next R
  select run = if eqb setup.depth 0 then select_model setup o run else again run

  unfoldable pub take_turn : ℕ → Run R → Next R
  take_turn turn run =
      and_next (prepare (receive o.arrivals (begin turn run)))
        λ run. and_next (select (say (message_start (assistant_message setup o run)) run)) ask

module _ {R : Type 0} (setup : Setup R) (outside : ℕ → Outside R) where
  -- `again` when the fuel is used up.
  unfoldable pub turns : ℕ → ℕ → Run R → Next R
  turns zero turn run = again run
  turns (suc fuel) turn run =
      and_next (take_turn setup (outside turn) turn run) (turns fuel (turn + 1))

  abbrev pub limit_message : Outside R → String → Message
  limit_message o err = record zero_message {
    role = "assistant";
    stop_reason = "error";
    error_message = err;
    timestamp = o.millis;
  }

  abbrev pub limit_error : ℕ → String
  limit_error n = append (append "agent exceeded " (decimal n)) " tool turns"

  abbrev pub exceed : ℕ → Run R → Next R
  exceed n run =
      let o = outside n in
      let err = limit_error n in
      end_agent setup o (limit_message o err) (some err) "" (some err) run

  -- The loop from its first turn, for a bound on the turns that is positive or not.
  unfoldable pub run_turns : ℕ → ℤ → Run R → Next R
  run_turns fuel (pos zero) run = turns fuel 0 run
  run_turns fuel (pos (suc n)) run = and_next (turns (suc n) 0 run) (exceed (suc n))
  run_turns fuel (negsuc n) run = turns fuel 0 run

  -- A run that resumes at an answer whose tool calls are pending executes them first.
  unfoldable pub resume : ℕ → Message → Run R → Next R
  resume fuel m run =
      let o = outside 0 in
      let (results, terminate, run') = run_batch setup o m.tool_calls run in
      let run'' = add_messages setup o results run' in
      if is_waiting setup o run'' || terminate
      then end_agent setup o m none m.content none run''
      else run_turns fuel setup.max_turns run''
