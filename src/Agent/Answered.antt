-- ===== src/Agent/Answered.antt =====
-- Which messages runAgent of internal/engine/runtime.go sends to a provider, in a run without hooks
-- on messages and without compactions.
pub mod Turns
use ergo_agent.Prelude.{
  ℕ, zero, suc, ◌+◌, ◌<◌, String, Bool, true, false, not, ◌&&◌, ◌||◌, ◌≡◌, refl, sym, subst, ap,
  ◌∙◌, Option, none, some, List, [], ◌∷◌, ◌++◌, append-nil, append_assoc, eq_refl, contains, take,
  drop, Bool-cases, inl, inr, ◌==◌, arith, eqb, ltb, if◌then◌else◌,
}
use ergo_agent.Prelude.Int.{ℤ, pos, negsuc}
use ergo_agent.Json.{Fields, end, field, get, str}
use ergo_agent.Message.{ToolCall, Message}
use ergo_agent.Session.{Session}
use ergo_agent.Controls.{
  accept, control_message, Polling, Queues, Control, poll, drain_queue, drain_count,
  append_messages, inject_queued_messages,
}
use ergo_agent.Registry.{ToolDefinition}
use ergo_agent.Pipeline.{Outcome, World, valid}
use ergo_agent.Pipeline.Batch.{
  execute_tool_batch, Replacement, replaced, rejected, batch_outcomes, transform_message_end,
  record_tool_outcome, record_all,
}
use ergo_agent.Pipeline.Answers.{call_ids, message_ids, execute_tool_batch-ids}
use ergo_agent.Provider.{Request, Completion, Reply, completed, failed, Failure}
use ergo_agent.Compaction.Run.{first_positive}
use ergo_agent.Agent.{
  AgentEvent, turn_start, message_start, turn_end, message_end, Setup, Outside, Run, Next, again,
  stop, session_with, say, record_message, and_next, encode,
}
use ergo_agent.Agent.Overflow.{is_context_overflow_error, is_context_overflow_message}
use ergo_agent.Agent.Tools.{
  details_value, fail_truncated_tool_calls, record_outcomes, run_batch, run_calls,
  truncated_call_message,
}
use ergo_agent.Agent.Turn.{
  end_agent, add_messages, inject, compaction_is_on, is_empty, is_over_threshold, prepare_turn,
  select_model, request_of, transform_request, assistant_message, answer_with, add_answer,
}
use ergo_agent.Agent.Loop.{
  recover, on_failure, after_turn, compact_after, continue_queued, on_answer, is_waiting, on_calls,
  save, dispatch, on_completion, on_reply, receive, ask, begin, prepare, select, take_turn, turns,
  exceed, run_turns, limit_message, limit_error,
}
use ergo_agent.Agent.Stable.{
  Holds, IsStable, Yields-and_next, Yields-if, Yields-end_agent, Yields-select_model,
  Yields-transform_request, Yields-after_turn, Yields-save,
}

-- Each call of a message is answered by the messages that stand right behind it, in the order of
-- the calls, but for those that are pending in front.
unfoldable pub balanced : List String → List Message → Bool
balanced pending [] = is_empty pending
balanced [] (m ∷ messages) = balanced (call_ids m.tool_calls) messages
balanced (id ∷ ids) (m ∷ messages) = m.tool_call_id == id && balanced ids messages

pub balanced-append :
    (pending : List String) (a b : List Message)
    → balanced pending a ≡ true
    → balanced pending (a ++ b) ≡ balanced [] b
unfolding balanced
balanced-append [] [] b h = refl
balanced-append (id ∷ ids) [] b h = cc h
balanced-append [] (m ∷ a) b h = balanced-append (call_ids m.tool_calls) a b h
balanced-append (id ∷ ids) (m ∷ a) b h = ground (arith, balanced-append ids a b)

-- Answers to all that is pending.
pub balanced-answers :
    (messages : List Message) (pending : List String)
    → message_ids messages ≡ pending
    → balanced pending messages ≡ true
unfolding balanced
balanced-answers [] [] h = refl
balanced-answers [] (id ∷ ids) h = cc h
balanced-answers (m ∷ messages) [] h = cc h
balanced-answers (m ∷ messages) (id ∷ ids) h =
    ground (arith, eq_refl id, balanced-answers messages ids)

abbrev pub all_balanced : {R : Type 0} → List (Request R) → Bool
all_balanced [] = true
all_balanced (request ∷ requests) = balanced [] request.messages && all_balanced requests

pub all_balanced-snoc :
    {R : Type 0} (requests : List (Request R)) (request : Request R)
    → all_balanced requests ≡ true
    → balanced [] request.messages ≡ true
    → all_balanced (requests ++ request ∷ []) ≡ true
all_balanced-snoc [] request h b = cc b
all_balanced-snoc (r ∷ requests) request h b = ground (arith, all_balanced-snoc requests request)

-- Messages without calls.
abbrev pub are_plain : List Message → Bool
are_plain [] = true
are_plain (m ∷ messages) = is_empty m.tool_calls && are_plain messages

are_plain-append :
    (a b : List Message) → are_plain a ≡ true → are_plain b ≡ true → are_plain (a ++ b) ≡ true
are_plain-append [] b h k = k
are_plain-append (m ∷ a) b h k = ground (arith, are_plain-append a b)

are_plain-take : (n : ℕ) (a : List Message) → are_plain a ≡ true → are_plain (take n a) ≡ true
are_plain-take zero a h = refl
are_plain-take (suc n) [] h = refl
are_plain-take (suc n) (m ∷ a) h = ground (arith, are_plain-take n a)

are_plain-drop : (n : ℕ) (a : List Message) → are_plain a ≡ true → are_plain (drop n a) ≡ true
are_plain-drop zero a h = h
are_plain-drop (suc n) [] h = refl
are_plain-drop (suc n) (m ∷ a) h = ground (arith, are_plain-drop n a)

pub call_ids-empty : (calls : List ToolCall) → is_empty calls ≡ true → call_ids calls ≡ []
call_ids-empty [] h = refl
call_ids-empty (call ∷ calls) h = cc h

pub balanced-plain : (a : List Message) → are_plain a ≡ true → balanced [] a ≡ true
unfolding balanced
balanced-plain [] h = refl
balanced-plain (m ∷ a) h = ground (arith, call_ids-empty m.tool_calls, balanced-plain a)

pub record ArePlain (q : Queues) : Type 0 where
  pub steering : are_plain q.steering ≡ true
  pub follow_ups : are_plain q.follow_ups ≡ true

pub ArePlain-drain_queue :
    (kind : String) (q : Queues)
    → ArePlain q
    → (are_plain (drain_queue kind q).0 ≡ true) × ArePlain (drain_queue kind q).1
unfolding drain_queue
ArePlain-drain_queue kind q p =
    let n = drain_count q.steering_mode q.steering in
    let k = drain_count q.follow_up_mode q.follow_ups in
    elim (Bool-cases (kind == "steer")) [
      | inl a ↦ rw a (
        are_plain-take n q.steering p.steering,
        record { steering = are_plain-drop n q.steering p.steering; follow_ups = p.follow_ups },
      )
      | inr a ↦ rw a (
        are_plain-take k q.follow_ups p.follow_ups,
        record { steering = p.steering; follow_ups = are_plain-drop k q.follow_ups p.follow_ups },
      )
    ]

ArePlain-accept :
    (c : Control) (s : Polling) → ArePlain s.queues → ArePlain (accept encode c s).queues
unfolding accept
ArePlain-accept c s p = elim (Bool-cases (contains s.seen c.id)) [
  | inl a ↦ rw a p
  | inr a ↦ elim (Bool-cases (c.action == "steer")) [
    | inl b ↦
        rw (a, b)
          (record {
            steering = are_plain-append s.queues.steering (control_message c ∷ []) p.steering refl;
            follow_ups = p.follow_ups;
          })
    | inr b ↦
        rw (a, b)
          (record {
            steering = p.steering;
            follow_ups =
                are_plain-append s.queues.follow_ups (control_message c ∷ []) p.follow_ups refl;
          })
  ]
]

pub ArePlain-poll :
    (controls : List Control) (s : Polling)
    → ArePlain s.queues
    → ArePlain (poll encode controls s).queues
unfolding poll
ArePlain-poll [] s p = p
ArePlain-poll (c ∷ controls) s p =
    ArePlain-poll controls (accept encode c s) (ArePlain-accept c s p)
