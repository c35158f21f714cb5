-- ===== src/Agent/Answered/Turns.antt =====
-- Which messages runAgent of internal/engine/runtime.go sends to a provider, over the turns.
pub mod Calls
use ergo_agent.Prelude.{
  ℕ, zero, suc, ◌+◌, String, true, false, not, ◌&&◌, ◌||◌, ◌≡◌, refl, sym, subst, ap, ◌∙◌, Option,
  none, some, List, [], ◌∷◌, ◌++◌, append-nil, append_assoc, Bool-cases, inl, inr, ◌==◌, eqb, ltb,
  if◌then◌else◌,
}
use ergo_agent.Prelude.Int.{ℤ, pos, negsuc}
use ergo_agent.Json.{end, field, str}
use ergo_agent.Message.{ToolCall, Message}
use ergo_agent.Controls.{inject_queued_messages}
use ergo_agent.Registry.{ToolDefinition}
use ergo_agent.Pipeline.{Outcome, valid}
use ergo_agent.Pipeline.Batch.{execute_tool_batch, batch_outcomes, transform_message_end}
use ergo_agent.Pipeline.Answers.{call_ids, message_ids, execute_tool_batch-ids}
use ergo_agent.Provider.{Request, Completion, Reply, completed, failed, Failure}
use ergo_agent.Compaction.Run.{first_positive}
use ergo_agent.Agent.{
  turn_start, message_start, turn_end, snapshot, message_end, Setup, Outside, Run, Next, again,
  Transformed, say, record_message,
}
use ergo_agent.Agent.Usage.{apply_model_pricing}
use ergo_agent.Agent.Overflow.{is_context_overflow_error, is_context_overflow_message}
use ergo_agent.Agent.Tools.{
  fail_truncated_tool_calls, record_outcomes, run_batch, run_calls, truncated_call_message,
}
use ergo_agent.Agent.Turn.{
  end_agent, add_messages, inject, compaction_is_on, is_empty, is_over_threshold, prepare_turn,
  select_model, request_of, transform_request, assistant_message, add_answer,
}
use ergo_agent.Agent.Loop.{
  recover, on_failure, after_turn, compact_after, continue_queued, on_answer, is_waiting, on_calls,
  save, dispatch, on_completion, on_reply, receive, ask, begin, prepare, select, take_turn, turns,
  exceed, run_turns, limit_message, limit_error,
}
use ergo_agent.Agent.Stable.{
  Yields, IsStable, Yields-and_next, Yields-if, Yields-end_agent, Yields-select_model,
  Yields-after_turn, Yields-save,
}
use ergo_agent.Agent.Answered.{
  balanced, balanced-append, balanced-answers, all_balanced, all_balanced-snoc, balanced-plain,
  are_plain, ArePlain, ArePlain-drain_queue, ArePlain-poll, call_ids-empty,
}
use ergo_agent.Agent.Answered.Turns.Calls.{
  IsSimple, IsAnswered, IsSent, IsPending, IsSent-IsStable, IsAnswered-IsStable, Fine,
  Fine-end_agent, plain-add_messages, inject-IsAnswered, Fine-prepare_turn, Fine-continue_queued,
  add_answer-plain, answered_by, answered-IsPending, IsPending-none, fail_truncated-ids, Same,
  fail_truncated-Same, record_outcomes-Same, run_calls-Same,
}

module _ {R : Type 0} where
  module _ (setup : Setup R) (o : Outside R) (simple : IsSimple setup o) where
    Fine-compact_after :
        (m : Message) (run : Run R) (f : Run R → Next R)
        → Fine (f run)
        → Fine (compact_after setup o m run f)
    unfolding compact_after
    Fine-compact_after m run f h =
        let off : (eqb setup.depth 0
              && compaction_is_on setup o
              && is_context_overflow_message m (first_positive setup.context_window (pos 200000)))
            ≡ false =
          elim (Bool-cases (eqb setup.depth 0)) [
            | inl a ↦ cc (a, simple.no_compaction)
            | inr a ↦ cc a
          ] in
        rw off h

    Fine-recover :
        (failure : Failure) (m : Message) (run : Run R)
        → IsSent run
        → Fine (recover setup o failure m run)
    unfolding recover
    Fine-recover failure m run h =
        let off : (eqb setup.depth 0
              && compaction_is_on setup o
              && not run.overflow_recovery_attempted
              && is_context_overflow_error setup.matches setup.lower failure)
            ≡ false =
          elim (Bool-cases (eqb setup.depth 0)) [
            | inl a ↦ cc (a, simple.no_compaction)
            | inr a ↦ cc a
          ] in
        rw off (Fine-end_agent setup o simple m (some failure.text) "" none run h)

    Fine-on_answer :
        (completion : Completion) (m : Message) (run : Run R)
        → IsAnswered run
        → Fine (on_answer setup o completion m run)
    unfolding on_answer
    Fine-on_answer completion m run h =
        let kinds = if eqb setup.depth 0 then "steer" ∷ "follow_up" ∷ [] else [] in
        let finish = end_agent setup o m none completion.text none in
        let said = say (turn_end m []) run in
        Fine-compact_after m said (λ r. continue_queued setup o kinds r finish)
          (Fine-continue_queued setup o simple kinds said finish
            (IsAnswered-IsStable.says (turn_end m []) run refl h)
            (λ r p. Fine-end_agent setup o simple m none completion.text none r p.sent))

    Fine-on_calls :
        (completion : Completion) (m : Message) (run : Run R)
        → IsPending completion.tool_calls run
        → Fine (on_calls setup o completion m run)
    unfolding on_calls add_messages
    Fine-on_calls completion m run h =
        let (results, terminate, run') = run_calls setup o completion run in
        let (ids, (messages, requests, queues)) = run_calls-Same setup o simple completion run in
        let run'' = say (turn_end m results) (add_messages setup o results run') in
        let p : IsAnswered run'' = record {
          in_memory = ap (λ ms. balanced [] (ms ++ results)) messages ∙ h.in_memory results ids;
          sent = ap all_balanced requests ∙ h.sent;
          waiting = subst ArePlain (sym queues) h.waiting;
        } in
        Yields-if IsAnswered IsSent (is_waiting setup o run'' || terminate)
          (end_agent setup o m none completion.text none run'') (again run'')
          (λ t. Fine-end_agent setup o simple m none completion.text none run'' p.sent) (λ t. p)

    Fine-dispatch :
        (completion : Completion) (m : Message) (run : Run R)
        → IsPending completion.tool_calls run
        → Fine (dispatch setup o completion m run)
    unfolding dispatch
    Fine-dispatch completion m run h =
        Yields-if IsAnswered IsSent (is_empty completion.tool_calls)
          (on_answer setup o completion m run) (save setup o run (on_calls setup o completion m))
          (λ t. Fine-on_answer completion m run (
            IsPending-none setup o simple completion.tool_calls run
              (call_ids-empty completion.tool_calls t) h))
          (λ t.
            Yields-save IsAnswered IsSent IsSent-IsStable setup o run
              (on_calls setup o completion m) h.sent (Fine-on_calls completion m run h)
              (Fine-on_calls completion m (say snapshot run)
                (record { in_memory = h.in_memory; sent = h.sent; waiting = h.waiting })))

    Fine-on_reply :
        (reply : Reply) (run : Run R) → IsAnswered run → Fine (on_reply setup o reply run)
    unfolding on_reply on_failure on_completion answered_by
    Fine-on_reply (failed failure) run h =
        let m = record (assistant_message setup o run) {
          stop_reason = if failure.is_context then "aborted" else "error";
          error_message = failure.text;
        } in
        let f : Message → Run R → Next R =
          λ m r. recover setup o failure m (say (turn_end m []) r) in
        subst Fine (sym (add_answer-plain setup o simple m run f)) (
          Fine-recover failure m (say (turn_end m []) (answered_by setup o simple m run))
            (answered-IsPending setup o simple m run h).sent)
    Fine-on_reply (completed completion) run h =
        let usage =
          some (apply_model_pricing completion.usage (setup.pricing run.provider_name run.model)) in
        let m = record (assistant_message setup o run) {
          content = completion.text;
          text_signature = completion.text_signature;
          thinking = completion.thinking;
          thinking_signature = completion.thinking_signature;
          tool_calls = completion.tool_calls;
          usage = usage;
          stop_reason = completion.stop_reason;
          error_message = completion.error_message;
        } in
        let used = record run { usage = usage } in
        let f : Message → Run R → Next R =
          λ m r. after_turn setup o o.after_turn m r (dispatch setup o completion m) in
        let p : IsPending completion.tool_calls (answered_by setup o simple m used) =
          answered-IsPending setup o simple m used
            (record { in_memory = h.in_memory; sent = h.sent; waiting = h.waiting }) in
        subst Fine (sym (add_answer-plain setup o simple m used f)) (
          Yields-after_turn IsAnswered IsSent IsSent-IsStable setup o o.after_turn m
            (answered_by setup o simple m used) (dispatch setup o completion m) p.sent
            (Fine-dispatch completion m (answered_by setup o simple m used) p))

    transform_request-none :
        (hooks : List (Option (Request R → Transformed R))) (run : Run R) (request : Request R)
        (f : Request R → Next R)
        → hooks ≡ []
        → transform_request setup o hooks run request f ≡ f request
    unfolding transform_request
    transform_request-none hooks run request f h = cc h

    Fine-ask : (run : Run R) → IsAnswered run → Fine (ask setup o run)
    unfolding ask request_of
    Fine-ask run h =
        let request = request_of setup o run in
        let asked = record run { requests = run.requests ++ request ∷ [] } in
        let next = receive setup o o.late_arrivals asked in
        let p : IsAnswered next = record {
          in_memory = h.in_memory;
          sent = all_balanced-snoc run.requests request h.sent h.in_memory;
          waiting = ArePlain-poll o.late_arrivals run.polling h.waiting;
        } in
        let continue : Request R → Next R = λ r.
          on_reply setup o (o.complete r)
            (receive setup o o.late_arrivals (record run { requests = run.requests ++ r ∷ [] })) in
        subst Fine
          (sym (
            transform_request-none o.transform_context run request continue
              simple.no_context_hooks))
          (Fine-on_reply (o.complete request) next p)

    Fine-take_turn : (turn : ℕ) (run : Run R) → IsAnswered run → Fine (take_turn setup o turn run)
    unfolding take_turn
    Fine-take_turn turn run h =
        let begun = begin setup o turn run in
        let ready = receive setup o o.arrivals begun in
        let p : IsAnswered begun = elim (Bool-cases (ltb 0 turn)) [
          | inl a ↦ rw a (IsAnswered-IsStable.says (turn_start (turn + 1)) run refl h)
          | inr a ↦ rw a h
        ] in
        let p' : IsAnswered ready = record {
          in_memory = p.in_memory;
          sent = p.sent;
          waiting = ArePlain-poll o.arrivals begun.polling p.waiting;
        } in
        Yields-and_next IsAnswered IsAnswered IsSent (prepare setup o ready) _
          (Yields-if IsAnswered IsSent (eqb setup.depth 0) (prepare_turn setup o ready)
            (again ready) (λ t. Fine-prepare_turn setup o simple ready p') (λ t. p'))
          (λ r q.
            let s = say (message_start (assistant_message setup o r)) r in
            let q' : IsAnswered s =
              IsAnswered-IsStable.says (message_start (assistant_message setup o r)) r refl q in
            Yields-and_next IsAnswered IsAnswered IsSent (select setup o s) (ask setup o)
              (Yields-if IsAnswered IsSent (eqb setup.depth 0) (select_model setup o s) (again s)
                (λ t.
                  Yields-select_model IsAnswered IsSent IsSent-IsStable setup o IsAnswered-IsStable
                    s q' q'.sent)
                (λ t. q'))
              Fine-ask)

  module _ (setup : Setup R) (outside : ℕ → Outside R)
      (simple : (turn : ℕ) → IsSimple setup (outside turn)) where
    Fine-turns :
        (fuel turn : ℕ) (run : Run R) → IsAnswered run → Fine (turns setup outside fuel turn run)
    unfolding turns
    Fine-turns zero turn run h = h
    Fine-turns (suc fuel) turn run h =
        Yields-and_next IsAnswered IsAnswered IsSent (take_turn setup (outside turn) turn run)
          (turns setup outside fuel (turn + 1))
          (Fine-take_turn setup (outside turn) (simple turn) turn run h)
          (Fine-turns fuel (turn + 1))

    -- Without hooks on messages and requests, with the compaction switched off and not asked for,
    -- calls whose ids validation keeps and a context that is not done after a call, every request
    -- that the loop sends to a provider has each tool call answered by the messages that stand
    -- right behind it, in the order of the calls, at any depth and whatever controls arrive, when
    -- the run began with such messages and its queues hold messages without calls; and so have the
    -- messages when the loop goes on.
    pub run_turns-IsSent :
        (fuel : ℕ) (max_turns : ℤ) (run : Run R)
        → IsAnswered run
        → Yields IsAnswered IsSent (run_turns setup outside fuel max_turns run)
    unfolding run_turns
    run_turns-IsSent fuel (pos zero) run h = Fine-turns fuel 0 run h
    run_turns-IsSent fuel (negsuc n) run h = Fine-turns fuel 0 run h
    run_turns-IsSent fuel (pos (suc n)) run h =
        let o = outside (suc n) in
        let err = limit_error setup outside (suc n) in
        Yields-and_next IsAnswered IsAnswered IsSent (turns setup outside (suc n) 0 run)
          (exceed setup outside (suc n)) (Fine-turns (suc n) 0 run h)
          (λ r p.
            Fine-end_agent setup o (simple (suc n)) (limit_message setup outside o err) (some err)
              "" (some err) r p.sent)
