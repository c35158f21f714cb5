-- ===== src/Agent/Mirror/Turns.antt =====
-- The session and the messages of runAgent of internal/engine/runtime.go over the turns, at depth 0,
-- in a run without controls and compactions.
use ergo_agent.Prelude.{
  ℕ, zero, suc, ◌+◌, String, true, false, not, ◌&&◌, ◌||◌, ◌≡◌, sym, subst, ap, ◌∙◌, none, some,
  List, [], ◌∷◌, ◌++◌, Bool-cases, inl, inr, eqb, ltb, if◌then◌else◌,
}
use ergo_agent.Prelude.Int.{ℤ, pos, negsuc}
use ergo_agent.Message.{Message}
use ergo_agent.Controls.{Control, poll, drain_queue, append_messages, inject_queued_messages}
use ergo_agent.Provider.{Completion, Reply, completed, failed, Failure}
use ergo_agent.Compaction.Run.{first_positive}
use ergo_agent.Agent.{
  snapshot, message_start, turn_end, Setup, Outside, Run, Next, again, say, encode,
}
use ergo_agent.Agent.Overflow.{is_context_overflow_error, is_context_overflow_message}
use ergo_agent.Agent.Tools.{run_calls}
use ergo_agent.Agent.Turn.{
  end_agent, add_messages, inject, compaction_is_on, is_empty, is_over_threshold, prepare_turn,
  select_model, request_of, assistant_message,
}
use ergo_agent.Agent.Loop.{
  recover, on_failure, after_turn, compact_after, continue_queued, on_answer, is_waiting, on_calls,
  save, dispatch, on_completion, on_reply, receive, ask, begin, prepare, select, take_turn, turns,
  exceed, run_turns, limit_message, limit_error,
}
use ergo_agent.Agent.Stable.{
  Holds, IsStable, Yields-and_next, Yields-if, Yields-end_agent, Yields-select_model,
  Yields-transform_request, Yields-after_turn, Yields-save,
}
use ergo_agent.Agent.Replay.{IsLive, replay}
use ergo_agent.Agent.Mirror.{
  IsQuiet, IsKeeping, drain_queue-empty, IsAhead, IsMirrored, IsMirrored-IsStable,
  IsAhead-add_messages, IsAhead-run_calls, IsMirrored-add_answer,
}

module _ {R : Type 0} (setup : Setup R) (keeping : IsKeeping setup) (old : List Message) where
  abbrev Mirrored : Run R → Type 0
  Mirrored = IsMirrored setup keeping old

  stable : IsStable Mirrored
  stable = IsMirrored-IsStable setup keeping old

  module _ (o : Outside R) (quiet : IsQuiet o) where
    -- An empty queue gives nothing, and the session stays as it is.
    inject-quiet :
        (kind : String) (run : Run R)
        → Mirrored run
        → ((inject setup o kind run).0 ≡ []) × Mirrored (inject setup o kind run).1
    unfolding inject inject_queued_messages drain_queue append_messages
    inject-quiet kind run h =
        let (nothing, s, f) =
          drain_queue-empty kind run.polling.queues h.no_steering h.no_follow_ups in
        let drained = drain_queue kind run.polling.queues in
        let same : (if eqb setup.depth 0
              then append_messages encode setup.fresh kind drained.0 run.polling.session
              else run.polling.session)
            ≡ run.polling.session =
          cc (keeping.at_top, nothing) in
        (
          nothing,
          record {
            live = subst (IsLive setup.fresh) (sym same) h.live;
            new = h.new;
            in_memory = h.in_memory;
            in_session =
                ap (replay setup.parse_time setup.fresh keeping.named keeping.distinct) same
                ∙ h.in_session;
            no_steering = s;
            no_follow_ups = f;
          },
        )

    IsMirrored-prepare_turn :
        (run : Run R) → Mirrored run → Holds Mirrored (prepare_turn setup o run)
    unfolding prepare_turn
    IsMirrored-prepare_turn run h =
        let (nothing, p) = inject-quiet "steer" run h in
        let (queued, injected) = inject setup o "steer" run in
        let run' = add_messages setup o queued injected in
        let off : (o.compaction_requested
              || (compaction_is_on setup o && is_over_threshold setup o run'.messages))
            ≡ false =
          cc (quiet.no_request, keeping.no_compaction) in
        rw off (
          IsAhead-add_messages setup keeping old o queued injected (
            subst (λ a. IsAhead setup keeping old a injected.messages injected.polling)
              (sym nothing) p))

    IsMirrored-recover :
        (failure : Failure) (m : Message) (run : Run R)
        → Mirrored run
        → Holds Mirrored (recover setup o failure m run)
    unfolding recover
    IsMirrored-recover failure m run h =
        let off : (eqb setup.depth 0
              && compaction_is_on setup o
              && not run.overflow_recovery_attempted
              && is_context_overflow_error setup.matches setup.lower failure)
            ≡ false =
          cc (keeping.at_top, keeping.no_compaction) in
        rw off
          (Yields-end_agent Mirrored Mirrored stable setup o m (some failure.text) "" none run h)

    IsMirrored-compact_after :
        (m : Message) (run : Run R) (f : Run R → Next R)
        → Holds Mirrored (f run)
        → Holds Mirrored (compact_after setup o m run f)
    unfolding compact_after
    IsMirrored-compact_after m run f h =
        let off : (eqb setup.depth 0
              && compaction_is_on setup o
              && is_context_overflow_message m (first_positive setup.context_window (pos 200000)))
            ≡ false =
          cc (keeping.at_top, keeping.no_compaction) in
        rw off h

    IsMirrored-continue_queued :
        (kinds : List String) (run : Run R) (f : Run R → Next R)
        → Mirrored run
        → ((r : Run R) → Mirrored r → Holds Mirrored (f r))
        → Holds Mirrored (continue_queued setup o kinds run f)
    unfolding continue_queued
    IsMirrored-continue_queued [] run f h k = k run h
    IsMirrored-continue_queued (kind ∷ kinds) run f h k =
        let (nothing, p) = inject-quiet kind run h in
        let (queued, run') = inject setup o kind run in
        let rest = IsMirrored-continue_queued kinds run' f p k in
        let off : is_empty queued ≡ true = ap is_empty nothing in rw off rest

    IsMirrored-on_answer :
        (completion : Completion) (m : Message) (run : Run R)
        → Mirrored run
        → Holds Mirrored (on_answer setup o completion m run)
    unfolding on_answer
    IsMirrored-on_answer completion m run h =
        let kinds = if eqb setup.depth 0 then "steer" ∷ "follow_up" ∷ [] else [] in
        let finish = end_agent setup o m none completion.text none in
        IsMirrored-compact_after m (say (turn_end m []) run)
          (λ r. continue_queued setup o kinds r finish)
          (IsMirrored-continue_queued kinds (say (turn_end m []) run) finish h
            (Yields-end_agent Mirrored Mirrored stable setup o m none completion.text none))

    IsMirrored-on_calls :
        (completion : Completion) (m : Message) (run : Run R)
        → Mirrored run
        → Holds Mirrored (on_calls setup o completion m run)
    unfolding on_calls
    IsMirrored-on_calls completion m run h =
        let (results, terminate, run') = run_calls setup o completion run in
        let run'' = say (turn_end m results) (add_messages setup o results run') in
        let p : Mirrored run'' =
          IsAhead-add_messages setup keeping old o results run'
            (IsAhead-run_calls setup keeping old o quiet completion run h) in
        Yields-if Mirrored Mirrored (is_waiting setup o run'' || terminate)
          (end_agent setup o m none completion.text none run'') (again run'')
          (λ t.
            Yields-end_agent Mirrored Mirrored stable setup o m none completion.text none run'' p)
          (λ t. p)

    IsMirrored-dispatch :
        (completion : Completion) (m : Message) (run : Run R)
        → Mirrored run
        → Holds Mirrored (dispatch setup o completion m run)
    unfolding dispatch
    IsMirrored-dispatch completion m run h =
        Yields-if Mirrored Mirrored (is_empty completion.tool_calls)
          (on_answer setup o completion m run) (save setup o run (on_calls setup o completion m))
          (λ t. IsMirrored-on_answer completion m run h)
          (λ t.
            Yields-save Mirrored Mirrored stable setup o run (on_calls setup o completion m) h
              (IsMirrored-on_calls completion m run h)
              (IsMirrored-on_calls completion m (say snapshot run) h))

    IsMirrored-on_reply :
        (reply : Reply) (run : Run R) → Mirrored run → Holds Mirrored (on_reply setup o reply run)
    unfolding on_reply on_failure on_completion
    IsMirrored-on_reply (failed failure) run h =
        IsMirrored-add_answer setup keeping old o quiet _ run
          (λ m r. recover setup o failure m (say (turn_end m []) r)) h
          (λ m r p. IsMirrored-recover failure m (say (turn_end m []) r) p)
    IsMirrored-on_reply (completed completion) run h =
        IsMirrored-add_answer setup keeping old o quiet _ _
          (λ m r. after_turn setup o o.after_turn m r (dispatch setup o completion m)) h
          (λ m r p.
            Yields-after_turn Mirrored Mirrored stable setup o o.after_turn m r
              (dispatch setup o completion m) p (IsMirrored-dispatch completion m r p))

    IsMirrored-receive :
        (controls : List Control) (run : Run R)
        → controls ≡ []
        → Mirrored run
        → Mirrored (receive setup o controls run)
    unfolding poll
    IsMirrored-receive controls run e h = subst (λ c. Mirrored (receive setup o c run)) (sym e) h

    IsMirrored-ask : (run : Run R) → Mirrored run → Holds Mirrored (ask setup o run)
    unfolding ask
    IsMirrored-ask run h =
        Yields-transform_request Mirrored Mirrored stable setup o o.transform_context run
          (request_of setup o run) _ h
          (λ request.
            let asked = record run { requests = run.requests ++ request ∷ [] } in
            IsMirrored-on_reply (o.complete request) (receive setup o o.late_arrivals asked)
              (IsMirrored-receive o.late_arrivals asked quiet.no_late_arrivals h))

    IsMirrored-begin : (turn : ℕ) (run : Run R) → Mirrored run → Mirrored (begin setup o turn run)
    IsMirrored-begin turn run h = elim (Bool-cases (ltb 0 turn)) [ inl a ↦ rw a h | inr a ↦ rw a h ]

    IsMirrored-take_turn :
        (turn : ℕ) (run : Run R) → Mirrored run → Holds Mirrored (take_turn setup o turn run)
    unfolding take_turn
    IsMirrored-take_turn turn run h =
        let ready = receive setup o o.arrivals (begin setup o turn run) in
        let p : Mirrored ready =
          IsMirrored-receive o.arrivals (begin setup o turn run) quiet.no_arrivals
            (IsMirrored-begin turn run h) in
        Yields-and_next Mirrored Mirrored Mirrored (prepare setup o ready) _
          (Yields-if Mirrored Mirrored (eqb setup.depth 0) (prepare_turn setup o ready)
            (again ready) (λ t. IsMirrored-prepare_turn ready p) (λ t. p))
          (λ r q.
            let s = say (message_start (assistant_message setup o r)) r in
            Yields-and_next Mirrored Mirrored Mirrored (select setup o s) (ask setup o)
              (Yields-if Mirrored Mirrored (eqb setup.depth 0) (select_model setup o s) (again s)
                (λ t. Yields-select_model Mirrored Mirrored stable setup o stable s q q) (λ t. q))
              IsMirrored-ask)

  module _ (outside : ℕ → Outside R) (quiet : (turn : ℕ) → IsQuiet (outside turn)) where
    turns-IsMirrored :
        (fuel turn : ℕ) (run : Run R)
        → Mirrored run
        → Holds Mirrored (turns setup outside fuel turn run)
    unfolding turns
    turns-IsMirrored zero turn run h = h
    turns-IsMirrored (suc fuel) turn run h =
        Yields-and_next Mirrored Mirrored Mirrored (take_turn setup (outside turn) turn run)
          (turns setup outside fuel (turn + 1))
          (IsMirrored-take_turn (outside turn) (quiet turn) turn run h)
          (turns-IsMirrored fuel (turn + 1))

    -- At depth 0 with the compaction switched off, no controls, and ids that are new and not empty,
    -- a session that gives back the messages of the run at the start does so after any number of
    -- turns and when the loop returns, with an error too: messagesFromEntries gives the messages
    -- that the run began with, and then the later ones as they are written and read, in their
    -- order.
    pub run_turns-IsMirrored :
        (fuel : ℕ) (max_turns : ℤ) (run : Run R)
        → Mirrored run
        → Holds Mirrored (run_turns setup outside fuel max_turns run)
    unfolding run_turns
    run_turns-IsMirrored fuel (pos zero) run h = turns-IsMirrored fuel 0 run h
    run_turns-IsMirrored fuel (negsuc n) run h = turns-IsMirrored fuel 0 run h
    run_turns-IsMirrored fuel (pos (suc n)) run h =
        let o = outside (suc n) in
        let err = limit_error setup outside (suc n) in
        Yields-and_next Mirrored Mirrored Mirrored (turns setup outside (suc n) 0 run)
          (exceed setup outside (suc n)) (turns-IsMirrored (suc n) 0 run h)
          (Yields-end_agent Mirrored Mirrored stable setup o (limit_message setup outside o err)
            (some err) "" (some err))
