-- ===== src/Agent/Answered/Turns/Calls.antt =====
-- The messages of a turn of runAgent of internal/engine/runtime.go, up to the answers to its calls.
use ergo_agent.Prelude.{
  ℕ, String, true, false, ◌&&◌, ◌||◌, ◌≡◌, refl, sym, ap, ◌∙◌, Option, some, List, [], ◌∷◌, ◌++◌,
  append-nil, append_assoc, Bool-cases, inl, inr, ◌==◌,
}
use ergo_agent.Json.{end, field, str}
use ergo_agent.Message.{ToolCall, Message}
use ergo_agent.Controls.{inject_queued_messages}
use ergo_agent.Registry.{ToolDefinition}
use ergo_agent.Pipeline.{Outcome, valid}
use ergo_agent.Pipeline.Batch.{execute_tool_batch, batch_outcomes, transform_message_end}
use ergo_agent.Pipeline.Answers.{call_ids, message_ids, execute_tool_batch-ids}
use ergo_agent.Provider.{Completion}
use ergo_agent.Agent.{message_end, Setup, Outside, Run, Next, again, say, record_message}
use ergo_agent.Agent.Tools.{
  fail_truncated_tool_calls, record_outcomes, run_batch, run_calls, truncated_call_message,
}
use ergo_agent.Agent.Turn.{
  end_agent, add_messages, inject, compaction_is_on, is_empty, is_over_threshold, prepare_turn,
  add_answer,
}
use ergo_agent.Agent.Loop.{continue_queued}
use ergo_agent.Agent.Stable.{Yields, IsStable, Yields-if, Yields-end_agent}
use ergo_agent.Agent.Answered.{
  balanced, balanced-append, balanced-answers, all_balanced, balanced-plain, are_plain, ArePlain,
  ArePlain-drain_queue,
}

-- No hooks on messages and requests, calls whose ids validation keeps, a context that is not done
-- after a call, and no compaction.
pub record IsSimple {R : Type 0} (setup : Setup R) (o : Outside R) : Type 0 where
  pub no_compaction : setup.compaction_enabled ≡ some false
  pub no_request : o.compaction_requested ≡ false
  pub no_message_hooks : o.running.message_end ≡ []
  pub no_context_hooks : o.transform_context ≡ []
  pub runs : (i : ℕ) → o.stopped i ≡ false
  pub keeps :
      (tool : ToolDefinition R) (call c : ToolCall)
      → o.world.validate_call tool call ≡ valid c
      → c.id ≡ call.id

module _ {R : Type 0} where
  -- What holds between the turns.
  pub record IsAnswered (run : Run R) : Type 0 where
    pub in_memory : balanced [] run.messages ≡ true
    pub sent : all_balanced run.requests ≡ true
    pub waiting : ArePlain run.polling.queues

  -- What holds when the function returns, also with an error.
  abbrev pub IsSent : Run R → Type 0
  IsSent run = all_balanced run.requests ≡ true

  -- What holds when the last message has calls that are not answered.
  pub record IsPending (calls : List ToolCall) (run : Run R) : Type 0 where
    pub in_memory :
        (a : List Message) → message_ids a ≡ call_ids calls → balanced [] (run.messages ++ a) ≡ true
    pub sent : all_balanced run.requests ≡ true
    pub waiting : ArePlain run.polling.queues

  pub IsSent-IsStable : IsStable IsSent
  IsSent-IsStable = record {
    says = λ e run q h. h;
    selects = λ provider_name model thinking run h. h;
  }

  pub IsAnswered-IsStable : IsStable IsAnswered
  IsAnswered-IsStable = record {
    says = λ e run q h. record { in_memory = h.in_memory; sent = h.sent; waiting = h.waiting };
    selects = λ provider_name model thinking run h. record {
      in_memory = h.in_memory;
      sent = h.sent;
      waiting = h.waiting;
    };
  }

  abbrev pub Fine : Next R → Type 0
  Fine = Yields IsAnswered IsSent

  module _ (setup : Setup R) (o : Outside R) (simple : IsSimple setup o) where
    pub Fine-end_agent :
        (m : Message) (cause : Option String) (text : String) (err : Option String) (run : Run R)
        → IsSent run
        → Fine (end_agent setup o m cause text err run)
    Fine-end_agent m cause text err run h =
        Yields-end_agent IsAnswered IsSent IsSent-IsStable setup o m cause text err run h

    pub plain-add_messages :
        (queued : List Message) (run : Run R)
        → are_plain queued ≡ true
        → IsAnswered run
        → IsAnswered (add_messages setup o queued run)
    unfolding add_messages
    plain-add_messages queued run q h = record {
      in_memory = balanced-append [] run.messages queued h.in_memory ∙ balanced-plain queued q;
      sent = h.sent;
      waiting = h.waiting;
    }

    pub inject-IsAnswered :
        (kind : String) (run : Run R)
        → IsAnswered run
        → (are_plain (inject setup o kind run).0 ≡ true) × IsAnswered (inject setup o kind run).1
    unfolding inject inject_queued_messages
    inject-IsAnswered kind run h =
        let (q, w) = ArePlain-drain_queue kind run.polling.queues h.waiting in
        (q, record { in_memory = h.in_memory; sent = h.sent; waiting = w })

    pub Fine-prepare_turn : (run : Run R) → IsAnswered run → Fine (prepare_turn setup o run)
    unfolding prepare_turn
    Fine-prepare_turn run h =
        let (q, p) = inject-IsAnswered "steer" run h in
        let (queued, injected) = inject setup o "steer" run in
        let run' = add_messages setup o queued injected in
        let off : (o.compaction_requested
              || (compaction_is_on setup o && is_over_threshold setup o run'.messages))
            ≡ false =
          cc (simple.no_request, simple.no_compaction) in
        rw off (plain-add_messages queued injected q p)

    pub Fine-continue_queued :
        (kinds : List String) (run : Run R) (f : Run R → Next R)
        → IsAnswered run
        → ((r : Run R) → IsAnswered r → Fine (f r))
        → Fine (continue_queued setup o kinds run f)
    unfolding continue_queued
    Fine-continue_queued [] run f h k = k run h
    Fine-continue_queued (kind ∷ kinds) run f h k =
        let (q, p) = inject-IsAnswered kind run h in
        let (queued, run') = inject setup o kind run in
        Yields-if IsAnswered IsSent (is_empty queued) (continue_queued setup o kinds run' f)
          (again (add_messages setup o queued run')) (λ t. Fine-continue_queued kinds run' f p k)
          (λ t. plain-add_messages queued run' q p)

    -- The answer of the provider, as no hook changes it.
    pub add_answer-plain :
        (m : Message) (run : Run R) (f : Message → Run R → Next R)
        → add_answer setup o m run f
          ≡ f m
              (say (message_end m) (record_message setup m end (add_messages setup o (m ∷ []) run)))
    unfolding add_answer transform_message_end
    add_answer-plain m run f = cc simple.no_message_hooks

    unfoldable pub answered_by : Message → Run R → Run R
    answered_by m run =
        say (message_end m) (record_message setup m end (add_messages setup o (m ∷ []) run))

    pub answered-IsPending :
        (m : Message) (run : Run R) → IsAnswered run → IsPending m.tool_calls (answered_by m run)
    unfolding answered_by record_message add_messages balanced
    answered-IsPending m run h = record {
      in_memory = λ a e.
          ap (balanced []) (append_assoc run.messages (m ∷ []) a)
          ∙ balanced-append [] run.messages (m ∷ a) h.in_memory
          ∙ balanced-answers a (call_ids m.tool_calls) e;
      sent = h.sent;
      waiting = h.waiting;
    }

    pub IsPending-none :
        (calls : List ToolCall) (run : Run R)
        → call_ids calls ≡ []
        → IsPending calls run
        → IsAnswered run
    IsPending-none calls run e h = record {
      in_memory = ap (balanced []) (sym (append-nil run.messages)) ∙ h.in_memory [] (sym e);
      sent = h.sent;
      waiting = h.waiting;
    }

    pub fail_truncated-ids :
        (calls : List ToolCall) (run : Run R)
        → message_ids (fail_truncated_tool_calls setup o calls run).0 ≡ call_ids calls
    unfolding fail_truncated_tool_calls truncated_call_message
    fail_truncated-ids [] run = refl
    fail_truncated-ids (call ∷ calls) run = cc (
        fail_truncated-ids calls (
          record_message setup (truncated_call_message o.millis call)
            (field "toolName" (str call.name) end) run))

    -- The tools of a turn change neither the messages nor the requests nor the queues.
    abbrev pub Same : Run R → Run R → Type 0
    Same a b =
        (a.messages ≡ b.messages)
        × (a.requests ≡ b.requests)
        × (a.polling.queues ≡ b.polling.queues)

    pub fail_truncated-Same :
        (calls : List ToolCall) (run : Run R)
        → Same (fail_truncated_tool_calls setup o calls run).1 run
    unfolding fail_truncated_tool_calls record_message
    fail_truncated-Same [] run = (refl, refl, refl)
    fail_truncated-Same (call ∷ calls) run = fail_truncated-Same calls _

    pub record_outcomes-Same :
        (outcomes : List Outcome) (run : Run R) → Same (record_outcomes setup o outcomes run) run
    unfolding record_outcomes record_message
    record_outcomes-Same [] run = (refl, refl, refl)
    record_outcomes-Same (out ∷ outcomes) run = record_outcomes-Same outcomes _

    pub run_calls-Same :
        (completion : Completion) (run : Run R)
        → (message_ids (run_calls setup o completion run).0 ≡ call_ids completion.tool_calls)
          × Same (run_calls setup o completion run).2 run
    unfolding run_calls run_batch execute_tool_batch
    run_calls-Same completion run = elim (Bool-cases (completion.stop_reason == "length")) [
      | inl a ↦ rw a (
        fail_truncated-ids completion.tool_calls run,
        fail_truncated-Same completion.tool_calls run,
      )
      | inr a ↦
          let (outcomes, terminate, waiting) =
            batch_outcomes o.world o.running setup.tools o.aborted o.stopped completion.tool_calls
              run.waiting in
          rw a (
            execute_tool_batch-ids o.world o.running simple.keeps setup.tools o.aborted o.stopped
                simple.runs simple.no_message_hooks completion.tool_calls run.waiting,
            record_outcomes-Same outcomes (record run { waiting = waiting }),
          )
    ]
