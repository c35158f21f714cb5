-- ===== src/Agent/Recovery.antt =====
-- How often runAgent of internal/engine/runtime.go recovers from an overflow of the context.
pub mod Flags
use ergo_agent.Prelude.{
  ℕ, zero, suc, ◌+◌, ◌≤◌, String, Bool, true, false, not, ◌&&◌, ◌||◌, ◌≡◌, refl, none, some, List,
  [], ◌∷◌, ◌++◌, Bool-cases, ◌==◌, inl, inr, arith, eqb, ltb, if◌then◌else◌,
}
use ergo_agent.Prelude.Int.{ℤ, pos, negsuc}
use ergo_agent.Message.{ToolCall, Message}
use ergo_agent.Pipeline.{Outcome}
use ergo_agent.Pipeline.Batch.{
  Replacement, replaced, rejected, batch_outcomes, transform_message_end,
}
use ergo_agent.Provider.{Completion, Reply, completed, failed, Failure}
use ergo_agent.Compaction.Run.{Compacted, compact_with_reason, first_positive}
use ergo_agent.Agent.{
  AgentEvent, turn_start, snapshot, message_start, turn_end, compaction_start, Setup, Outside, Run,
  Next, again, stop, say, message_end, record_message,
}
use ergo_agent.Agent.Overflow.{is_context_overflow_error, is_context_overflow_message}
use ergo_agent.Agent.Tools.{fail_truncated_tool_calls, record_outcomes, run_batch, run_calls}
use ergo_agent.Agent.Turn.{
  end_agent, add_messages, inject, compacting, after_compacting, reload, reload_if,
  compaction_is_on, is_empty, is_over_threshold, prepare_turn, select_model, request_of,
  assistant_message, answer_with, add_answer, compactor_of,
}
use ergo_agent.Agent.Loop.{
  recovered, recover, on_failure, after_turn, compact_after, continue_queued, on_answer, is_waiting,
  on_calls, save, dispatch, on_completion, on_reply, receive, ask, begin, prepare, select,
  take_turn, turns, exceed, run_turns, limit_message, limit_error,
}
use ergo_agent.Agent.Stable.{
  is_recovery, Holds, IsStable, Yields-and_next, Yields-if, Yields-end_agent, Yields-select_model,
  Yields-transform_request, Yields-after_turn, Yields-save,
}
use ergo_agent.Agent.Recovery.Flags.{
  recoveries, recoveries-snoc, Flagged, Flagged-IsStable, Flagged-if,
  Flagged-fail_truncated_tool_calls, Flagged-record_outcomes, Flagged-run_batch, Flagged-run_calls,
  Flagged-after_compacting, Flagged-compacting, reloaded, Flagged-prepare_turn, finished,
  Flagged-recover,
}

module _ {R : Type 0} where
  module _ (setup : Setup R) (o : Outside R) where
    Flagged-answer_with :
        (r : Replacement) (run : Run R) (f : Message → Run R → Next R)
        → Flagged run
        → ((m : Message) (r : Run R) → Flagged r → Holds Flagged (f m r))
        → Holds Flagged (answer_with setup o r run f)
    unfolding record_message add_messages
    Flagged-answer_with (rejected err) run f h k = h
    Flagged-answer_with (replaced m) run f h k =
        k m _ (Flagged-IsStable.says (message_end m) run refl h)

    Flagged-add_answer :
        (m : Message) (run : Run R) (f : Message → Run R → Next R)
        → Flagged run
        → ((m : Message) (r : Run R) → Flagged r → Holds Flagged (f m r))
        → Holds Flagged (add_answer setup o m run f)
    unfolding add_answer
    Flagged-add_answer m run f h k =
        Flagged-answer_with (transform_message_end o.world o.running o.running.message_end m.role m)
          run f h k

    Flagged-compact_after :
        (m : Message) (run : Run R) (f : Run R → Next R)
        → Flagged run
        → ((r : Run R) → Flagged r → Holds Flagged (f r))
        → Holds Flagged (compact_after setup o m run f)
    unfolding compact_after
    Flagged-compact_after m run f h k =
        Yields-if Flagged Flagged
          (eqb setup.depth 0
            && compaction_is_on setup o
            && is_context_overflow_message m (first_positive setup.context_window (pos 200000)))
          (compacting setup o "overflow" false run (λ done r. f r)) (f run)
          (λ t.
            Flagged-compacting setup o "overflow" false run (λ done r. f r)
              (Flagged-IsStable.says (compaction_start "overflow" false) run refl h)
              (λ done r. k r))
          (λ t. k run h)

    Flagged-continue_queued :
        (kinds : List String) (run : Run R) (f : Run R → Next R)
        → Flagged run
        → ((r : Run R) → Flagged r → Holds Flagged (f r))
        → Holds Flagged (continue_queued setup o kinds run f)
    unfolding continue_queued inject add_messages
    Flagged-continue_queued [] run f h k = k run h
    Flagged-continue_queued (kind ∷ kinds) run f h k =
        let (queued, run') = inject setup o kind run in
        Yields-if Flagged Flagged (is_empty queued) (continue_queued setup o kinds run' f)
          (again (add_messages setup o queued run')) (λ t. Flagged-continue_queued kinds run' f h k)
          (λ t. h)

    Flagged-on_answer :
        (completion : Completion) (m : Message) (run : Run R)
        → Flagged run
        → Holds Flagged (on_answer setup o completion m run)
    unfolding on_answer
    Flagged-on_answer completion m run h =
        let kinds = if eqb setup.depth 0 then "steer" ∷ "follow_up" ∷ [] else [] in
        Flagged-compact_after m (say (turn_end m []) run)
          (λ r. continue_queued setup o kinds r (end_agent setup o m none completion.text none))
          (Flagged-IsStable.says (turn_end m []) run refl h)
          (λ r p.
            Flagged-continue_queued kinds r (end_agent setup o m none completion.text none) p (
              Yields-end_agent Flagged Flagged Flagged-IsStable setup o m none completion.text
                none))

    Flagged-on_calls :
        (completion : Completion) (m : Message) (run : Run R)
        → Flagged run
        → Holds Flagged (on_calls setup o completion m run)
    unfolding on_calls add_messages
    Flagged-on_calls completion m run h =
        let (results, terminate, run') = run_calls setup o completion run in
        let run'' = say (turn_end m results) (add_messages setup o results run') in
        let p : Flagged run'' =
          Flagged-IsStable.says (turn_end m results) (add_messages setup o results run') refl
            (Flagged-run_calls setup o completion run h) in
        Yields-if Flagged Flagged (is_waiting setup o run'' || terminate)
          (end_agent setup o m none completion.text none run'') (again run'')
          (λ t.
            Yields-end_agent Flagged Flagged Flagged-IsStable setup o m none completion.text none
              run'' p)
          (λ t. p)

    Flagged-dispatch :
        (completion : Completion) (m : Message) (run : Run R)
        → Flagged run
        → Holds Flagged (dispatch setup o completion m run)
    unfolding dispatch
    Flagged-dispatch completion m run h =
        Yields-if Flagged Flagged (is_empty completion.tool_calls)
          (on_answer setup o completion m run) (save setup o run (on_calls setup o completion m))
          (λ t. Flagged-on_answer completion m run h)
          (λ t.
            Yields-save Flagged Flagged Flagged-IsStable setup o run (on_calls setup o completion m)
              h (Flagged-on_calls completion m run h)
              (Flagged-on_calls completion m (say snapshot run)
                (Flagged-IsStable.says snapshot run refl h)))

    Flagged-on_reply :
        (reply : Reply) (run : Run R) → Flagged run → Holds Flagged (on_reply setup o reply run)
    unfolding on_reply on_failure on_completion
    Flagged-on_reply (failed failure) run h =
        Flagged-add_answer _ run (λ m r. recover setup o failure m (say (turn_end m []) r)) h
          (λ m r p.
            Flagged-recover setup o failure m (say (turn_end m []) r)
              (Flagged-IsStable.says (turn_end m []) r refl p))
    Flagged-on_reply (completed completion) run h =
        Flagged-add_answer _ _
          (λ m r. after_turn setup o o.after_turn m r (dispatch setup o completion m)) h
          (λ m r p.
            Yields-after_turn Flagged Flagged Flagged-IsStable setup o o.after_turn m r
              (dispatch setup o completion m) p (Flagged-dispatch completion m r p))

    Flagged-ask : (run : Run R) → Flagged run → Holds Flagged (ask setup o run)
    unfolding ask
    Flagged-ask run h =
        Yields-transform_request Flagged Flagged Flagged-IsStable setup o o.transform_context run
          (request_of setup o run) _ h (λ request. Flagged-on_reply (o.complete request) _ h)

    Flagged-take_turn :
        (turn : ℕ) (run : Run R) → Flagged run → Holds Flagged (take_turn setup o turn run)
    unfolding take_turn
    Flagged-take_turn turn run h =
        let p : Flagged (begin setup o turn run) =
          Flagged-if (ltb 0 turn) (say (turn_start (turn + 1)) run) run
            (Flagged-IsStable.says (turn_start (turn + 1)) run refl h) h in
        Yields-and_next Flagged Flagged Flagged
          (prepare setup o (receive setup o o.arrivals (begin setup o turn run))) _
          (Yields-if Flagged Flagged (eqb setup.depth 0)
            (prepare_turn setup o (receive setup o o.arrivals (begin setup o turn run)))
            (again (receive setup o o.arrivals (begin setup o turn run)))
            (λ t.
              Flagged-prepare_turn setup o (receive setup o o.arrivals (begin setup o turn run)) p)
            (λ t. p))
          (λ r q.
            let s = say (message_start (assistant_message setup o r)) r in
            let q' : Flagged s =
              Flagged-IsStable.says (message_start (assistant_message setup o r)) r refl q in
            Yields-and_next Flagged Flagged Flagged (select setup o s) (ask setup o)
              (Yields-if Flagged Flagged (eqb setup.depth 0) (select_model setup o s) (again s)
                (λ t.
                  Yields-select_model Flagged Flagged Flagged-IsStable setup o Flagged-IsStable s q'
                    q')
                (λ t. q'))
              Flagged-ask)

  module _ (setup : Setup R) (outside : ℕ → Outside R) where
    Flagged-turns :
        (fuel turn : ℕ) (run : Run R)
        → Flagged run
        → Holds Flagged (turns setup outside fuel turn run)
    unfolding turns
    Flagged-turns zero turn run h = h
    Flagged-turns (suc fuel) turn run h =
        Yields-and_next Flagged Flagged Flagged (take_turn setup (outside turn) turn run)
          (turns setup outside fuel (turn + 1)) (Flagged-take_turn setup (outside turn) turn run h)
          (Flagged-turns fuel (turn + 1))

    Flagged-run_turns :
        (fuel : ℕ) (max_turns : ℤ) (run : Run R)
        → Flagged run
        → Holds Flagged (run_turns setup outside fuel max_turns run)
    unfolding run_turns
    Flagged-run_turns fuel (pos zero) run h = Flagged-turns fuel 0 run h
    Flagged-run_turns fuel (negsuc n) run h = Flagged-turns fuel 0 run h
    Flagged-run_turns fuel (pos (suc n)) run h =
        let o = outside (suc n) in
        let err = limit_error setup outside (suc n) in
        Yields-and_next Flagged Flagged Flagged (turns setup outside (suc n) 0 run)
          (exceed setup outside (suc n)) (Flagged-turns (suc n) 0 run h)
          (Yields-end_agent Flagged Flagged Flagged-IsStable setup o
            (limit_message setup outside o err) (some err) "" (some err))

    -- From a run that has started no recovery from an overflow, the loop starts at most one
    -- compaction after which the request is sent again, whatever the providers, tools, hooks and
    -- controls do and however many turns it takes.
    pub run_turns-recovers_once :
        (fuel : ℕ) (max_turns : ℤ) (run : Run R)
        → recoveries run.events ≡ 0
        → Holds (λ r. recoveries r.events ≤ 1) (run_turns setup outside fuel max_turns run)
    run_turns-recovers_once fuel max_turns run h =
        once (run_turns setup outside fuel max_turns run)
          (Flagged-run_turns fuel max_turns run (omega (arith, h)))
      where
        once : (n : Next R) → Holds Flagged n → Holds (λ r. recoveries r.events ≤ 1) n
        once (again run) h = ground arith
        once (stop run text err) h = ground arith
