-- ===== src/Agent/Mirror.antt =====
-- The session and the messages of runAgent of internal/engine/runtime.go at depth 0, in a run
-- without controls and compactions.
pub mod Turns
use ergo_agent.Prelude.{
  ℕ, zero, suc, ◌+◌, ◌<◌, String, Bool, true, false, not, ◌&&◌, ◌||◌, ◌≡◌, refl, sym, subst, ap,
  ◌∙◌, Option, none, some, List, [], ◌∷◌, ◌++◌, append-nil, append_assoc, take, drop, Bool-cases,
  inl, inr, ◌==◌, arith, eqb, ltb, if◌then◌else◌,
}
use ergo_agent.Prelude.Int.{ℤ, pos, negsuc}
use ergo_agent.Json.{Fields, end, field, get, str}
use ergo_agent.Message.{ToolCall, Message}
use ergo_agent.Session.{Session}
use ergo_agent.Controls.{
  append_message, Polling, Queues, Control, poll, drain_queue, drain_count, append_messages,
  inject_queued_messages,
}
use ergo_agent.Pipeline.{Outcome}
use ergo_agent.Pipeline.Batch.{
  Replacement, replaced, rejected, batch_outcomes, transform_message_end, record_tool_outcome,
  record_all,
}
use ergo_agent.Provider.{Completion, Reply, completed, failed, Failure}
use ergo_agent.Compaction.Run.{first_positive}
use ergo_agent.Agent.{
  AgentEvent, turn_start, message_start, turn_end, message_end, Setup, Outside, Run, Next, again,
  stop, session_with, say, record_message, and_next, encode,
}
use ergo_agent.Agent.Overflow.{is_context_overflow_error, is_context_overflow_message}
use ergo_agent.Agent.Tools.{
  details_value, fail_truncated_tool_calls, record_outcomes, run_batch, run_calls,
  truncated_call_message,
}
use ergo_agent.Agent.Turn.{
  end_agent, add_messages, inject, compaction_is_on, is_empty, is_over_threshold, prepare_turn,
  select_model, request_of, transform_request, assistant_message, answer_with, add_answer,
}
use ergo_agent.Agent.Loop.{
  recover, on_failure, after_turn, compact_after, continue_queued, on_answer, is_waiting, on_calls,
  save, dispatch, on_completion, on_reply, receive, ask, begin, prepare, select, take_turn, turns,
}
use ergo_agent.Agent.Stable.{
  Holds, IsStable, Yields-and_next, Yields-if, Yields-end_agent, Yields-select_model,
  Yields-transform_request, Yields-after_turn, Yields-save,
}
use ergo_agent.Agent.Replay.{
  reread, reread_all, reread_all-append, IsExtra, IsLive, replay, append_message-IsLive,
  replay-append_message,
}

-- No controls arrive in the turn, and none asks for a compaction.
pub record IsQuiet {R : Type 0} (o : Outside R) : Type 0 where
  pub no_arrivals : o.arrivals ≡ []
  pub no_late_arrivals : o.late_arrivals ≡ []
  pub no_request : o.compaction_requested ≡ false

-- A run at depth 0 that keeps its sessions, with the compaction switched off.
pub record IsKeeping {R : Type 0} (setup : Setup R) : Type 0 where
  pub at_top : setup.depth ≡ 0
  pub no_compaction : setup.compaction_enabled ≡ some false
  pub named : (n : ℕ) → ((setup.fresh n).0 == "") ≡ false
  pub distinct : (m n : ℕ) → m < n → ((setup.fresh m).0 == (setup.fresh n).0) ≡ false

take-nil : {A : Type 0} (n : ℕ) → take {A = A} n [] ≡ []
take-nil zero = refl
take-nil (suc n) = refl

drop-nil : {A : Type 0} (n : ℕ) → drop {A = A} n [] ≡ []
drop-nil zero = refl
drop-nil (suc n) = refl

pub drain_queue-empty :
    (kind : String) (q : Queues)
    → q.steering ≡ []
    → q.follow_ups ≡ []
    → ((drain_queue kind q).0 ≡ [])
      × ((drain_queue kind q).1.steering ≡ [])
      × ((drain_queue kind q).1.follow_ups ≡ [])
unfolding drain_queue
drain_queue-empty kind q s f =
    let n = drain_count q.steering_mode q.steering in
    let k = drain_count q.follow_up_mode q.follow_ups in
    elim (Bool-cases (kind == "steer")) [
      | inl a ↦ rw a (cc (s, take-nil {A = Message} n), cc (s, drop-nil {A = Message} n), f)
      | inr a ↦ rw a (cc (f, take-nil {A = Message} k), s, cc (f, drop-nil {A = Message} k))
    ]

module _ {R : Type 0} (setup : Setup R) (keeping : IsKeeping setup) (old : List Message) where
  -- The session holds the messages of the run, those in `ahead` too: what it gives back are the
  -- old messages, and the newer ones as they are read.
  pub record IsAhead (ahead messages : List Message) (polling : Polling) : Type 0 where
    pub live : IsLive setup.fresh polling.session
    pub new : List Message
    pub in_memory : messages ≡ old ++ new
    pub in_session :
        replay setup.parse_time setup.fresh keeping.named keeping.distinct polling.session
        ≡ old ++ reread_all setup.parse_time (new ++ ahead)
    pub no_steering : polling.queues.steering ≡ []
    pub no_follow_ups : polling.queues.follow_ups ≡ []

  abbrev pub IsMirrored : Run R → Type 0
  IsMirrored run = IsAhead [] run.messages run.polling

  pub IsMirrored-IsStable : IsStable IsMirrored
  IsMirrored-IsStable = record {
    says = λ e run q h. h;
    selects = λ provider_name model thinking run h. h;
  }

  -- One more message in the session.
  IsAhead-record_message :
      (ahead : List Message) (m : Message) (extra : Fields) (run : Run R)
      → IsExtra extra
      → IsAhead ahead run.messages run.polling
      → IsAhead
          (ahead ++ m ∷ [])
          (record_message setup m extra run).messages
          (record_message setup m extra run).polling
  unfolding record_message
  IsAhead-record_message ahead m extra run apart h = record {
    live = subst (IsLive setup.fresh) (sym here) (
        append_message-IsLive setup.parse_time setup.fresh keeping.named keeping.distinct m extra
          apart run.polling.session h.live);
    new = h.new;
    in_memory = h.in_memory;
    in_session =
        ap (replay setup.parse_time setup.fresh keeping.named keeping.distinct) here
        ∙ replay-append_message setup.parse_time setup.fresh keeping.named keeping.distinct m extra
            apart run.polling.session h.live
        ∙ ap (λ r. r ++ reread setup.parse_time m) h.in_session
        ∙ append_assoc old (reread_all setup.parse_time (h.new ++ ahead))
            (reread setup.parse_time m)
        ∙ ap (λ r. old ++ r) later;
    no_steering = h.no_steering;
    no_follow_ups = h.no_follow_ups;
  }
    where
      here :
          session_with setup m extra run.polling.session
          ≡ append_message encode setup.fresh m extra run.polling.session
      here = cc keeping.at_top

      later :
          reread_all setup.parse_time (h.new ++ ahead) ++ reread setup.parse_time m
          ≡ reread_all setup.parse_time (h.new ++ (ahead ++ m ∷ []))
      later =
          ap (λ r. reread_all setup.parse_time (h.new ++ ahead) ++ r)
            (sym (append-nil (reread setup.parse_time m)))
          ∙ sym (reread_all-append setup.parse_time (h.new ++ ahead) (m ∷ []))
          ∙ ap (reread_all setup.parse_time) (append_assoc h.new ahead (m ∷ []))

  -- The messages of the run catch up.
  pub IsAhead-add_messages :
      (o : Outside R) (ahead : List Message) (run : Run R)
      → IsAhead ahead run.messages run.polling
      → IsMirrored (add_messages setup o ahead run)
  unfolding add_messages
  IsAhead-add_messages o ahead run h = record {
    live = h.live;
    new = h.new ++ ahead;
    in_memory = ap (λ ms. ms ++ ahead) h.in_memory ∙ append_assoc old h.new ahead;
    in_session =
        h.in_session
        ∙ ap (λ ms. old ++ reread_all setup.parse_time ms) (sym (append-nil (h.new ++ ahead)));
    no_steering = h.no_steering;
    no_follow_ups = h.no_follow_ups;
  }

  none-IsExtra : IsExtra end
  unfolding get
  none-IsExtra = record { no_id = refl; no_parent = refl; no_type = refl; no_message = refl }

  name-IsExtra : (name : String) → IsExtra (field "toolName" (str name) end)
  unfolding get
  name-IsExtra name = record { no_id = refl; no_parent = refl; no_type = refl; no_message = refl }

  details-IsExtra :
      (name : String) (details : Option Fields)
      → IsExtra (field "toolName" (str name) (field "details" (details_value details) end))
  unfolding get
  details-IsExtra name details = record {
    no_id = refl;
    no_parent = refl;
    no_type = refl;
    no_message = refl;
  }

  module _ (o : Outside R) (quiet : IsQuiet o) where
    IsAhead-fail_truncated_tool_calls :
        (calls : List ToolCall) (ahead : List Message) (run : Run R)
        → IsAhead ahead run.messages run.polling
        → IsAhead
            (ahead ++ (fail_truncated_tool_calls setup o calls run).0)
            (fail_truncated_tool_calls setup o calls run).1.messages
            (fail_truncated_tool_calls setup o calls run).1.polling
    unfolding fail_truncated_tool_calls
    IsAhead-fail_truncated_tool_calls [] ahead run h =
        subst (λ a. IsAhead a run.messages run.polling) (sym (append-nil ahead)) h
    IsAhead-fail_truncated_tool_calls (call ∷ calls) ahead run h =
        let m = truncated_call_message o.millis call in
        let extra = field "toolName" (str call.name) end in
        let next = record_message setup m extra run in
        let (messages, run') = fail_truncated_tool_calls setup o calls next in
        subst (λ a. IsAhead a run'.messages run'.polling) (append_assoc ahead (m ∷ []) messages)
          (IsAhead-fail_truncated_tool_calls calls (ahead ++ m ∷ []) next
            (IsAhead-record_message ahead m extra run (name-IsExtra call.name) h))

    IsAhead-record_outcomes :
        (outcomes : List Outcome) (ahead : List Message) (run : Run R)
        → IsAhead ahead run.messages run.polling
        → IsAhead
            (ahead ++ record_all o.world o.running outcomes)
            (record_outcomes setup o outcomes run).messages
            (record_outcomes setup o outcomes run).polling
    unfolding record_outcomes record_all
    IsAhead-record_outcomes [] ahead run h =
        subst (λ a. IsAhead a run.messages run.polling) (sym (append-nil ahead)) h
    IsAhead-record_outcomes (out ∷ outcomes) ahead run h =
        let m = record_tool_outcome o.world o.running out in
        let extra =
          field "toolName" (str out.call.name)
            (field "details" (details_value out.result.details) end) in
        let next = record_message setup m extra run in
        let run' = record_outcomes setup o outcomes next in
        subst (λ a. IsAhead a run'.messages run'.polling)
          (append_assoc ahead (m ∷ []) (record_all o.world o.running outcomes))
          (IsAhead-record_outcomes outcomes (ahead ++ m ∷ []) next (
            IsAhead-record_message ahead m extra run
              (details-IsExtra out.call.name out.result.details) h))

    pub IsAhead-run_calls :
        (completion : Completion) (run : Run R)
        → IsMirrored run
        → IsAhead
            (run_calls setup o completion run).0
            (run_calls setup o completion run).2.messages
            (run_calls setup o completion run).2.polling
    unfolding run_calls run_batch
    IsAhead-run_calls completion run h = elim (Bool-cases (completion.stop_reason == "length")) [
      | inl a ↦ rw a (IsAhead-fail_truncated_tool_calls completion.tool_calls [] run h)
      | inr a ↦
          let (outcomes, terminate, waiting) =
            batch_outcomes o.world o.running setup.tools o.aborted o.stopped completion.tool_calls
              run.waiting in
          rw a (IsAhead-record_outcomes outcomes [] (record run { waiting = waiting }) h)
    ]

    IsMirrored-answer_with :
        (r : Replacement) (run : Run R) (f : Message → Run R → Next R)
        → IsMirrored run
        → ((m : Message) (r : Run R) → IsMirrored r → Holds IsMirrored (f m r))
        → Holds IsMirrored (answer_with setup o r run f)
    unfolding record_message add_messages
    IsMirrored-answer_with (rejected err) run f h k = h
    IsMirrored-answer_with (replaced m) run f h k = k m _ (
        IsAhead-add_messages o (m ∷ []) (record_message setup m end run)
          (IsAhead-record_message [] m end run none-IsExtra h))

    pub IsMirrored-add_answer :
        (m : Message) (run : Run R) (f : Message → Run R → Next R)
        → IsMirrored run
        → ((m : Message) (r : Run R) → IsMirrored r → Holds IsMirrored (f m r))
        → Holds IsMirrored (add_answer setup o m run f)
    unfolding add_answer
    IsMirrored-add_answer m run f h k =
        IsMirrored-answer_with
          (transform_message_end o.world o.running o.running.message_end m.role m) run f h k
