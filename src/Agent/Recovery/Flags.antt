-- ===== src/Agent/Recovery/Flags.antt =====
-- The flag of runAgent of internal/engine/runtime.go that a recovery sets, over tool calls and
-- compactions.
use ergo_agent.Prelude.{
  ℕ, ◌+◌, ◌≤◌, String, Bool, true, false, not, ◌&&◌, ◌||◌, ◌≡◌, refl, none, some, List, [], ◌∷◌,
  ◌++◌, Bool-cases, ◌==◌, inl, inr, arith, eqb, if◌then◌else◌,
}
use ergo_agent.Message.{ToolCall, Message}
use ergo_agent.Pipeline.{Outcome}
use ergo_agent.Pipeline.Batch.{batch_outcomes}
use ergo_agent.Provider.{Completion, Failure}
use ergo_agent.Compaction.Run.{Compacted, compact_with_reason}
use ergo_agent.Agent.{
  AgentEvent, compaction_start, Setup, Outside, Run, Next, again, say, record_message,
}
use ergo_agent.Agent.Overflow.{is_context_overflow_error}
use ergo_agent.Agent.Tools.{fail_truncated_tool_calls, record_outcomes, run_batch, run_calls}
use ergo_agent.Agent.Turn.{
  end_agent, add_messages, inject, compacting, after_compacting, reload, reload_if,
  compaction_is_on, is_over_threshold, prepare_turn, compactor_of,
}
use ergo_agent.Agent.Loop.{recovered, recover}
use ergo_agent.Agent.Stable.{is_recovery, Holds, IsStable, Yields-if, Yields-end_agent}

unfoldable pub recoveries : List AgentEvent → ℕ
recoveries [] = 0
recoveries (e ∷ events) = (if is_recovery e then 1 else 0) + recoveries events

pub recoveries-snoc :
    (events : List AgentEvent) (e : AgentEvent)
    → recoveries (events ++ e ∷ []) ≡ recoveries events + (if is_recovery e then 1 else 0)
unfolding recoveries
recoveries-snoc [] e = omega arith
recoveries-snoc (d ∷ events) e = omega (arith, recoveries-snoc events e)

module _ {R : Type 0} where
  -- A recovery was started only if the flag tells so.
  abbrev pub Flagged : Run R → Type 0
  Flagged run = recoveries run.events ≤ (if run.overflow_recovery_attempted then 1 else 0)

  pub Flagged-IsStable : IsStable Flagged
  Flagged-IsStable = record {
    says = λ e run q h. ground (arith, recoveries-snoc run.events e);
    selects = λ provider_name model thinking run h. h;
  }

  pub Flagged-if :
      (test : Bool) (a b : Run R) → Flagged a → Flagged b → Flagged (if test then a else b)
  Flagged-if true a b h k = h
  Flagged-if false a b h k = k

  module _ (setup : Setup R) (o : Outside R) where
    pub Flagged-fail_truncated_tool_calls :
        (calls : List ToolCall) (run : Run R)
        → Flagged run
        → Flagged (fail_truncated_tool_calls setup o calls run).1
    unfolding fail_truncated_tool_calls record_message
    Flagged-fail_truncated_tool_calls [] run h = h
    Flagged-fail_truncated_tool_calls (call ∷ calls) run h =
        Flagged-fail_truncated_tool_calls calls _ h

    pub Flagged-record_outcomes :
        (outcomes : List Outcome) (run : Run R)
        → Flagged run
        → Flagged (record_outcomes setup o outcomes run)
    unfolding record_outcomes record_message
    Flagged-record_outcomes [] run h = h
    Flagged-record_outcomes (out ∷ outcomes) run h = Flagged-record_outcomes outcomes _ h

    pub Flagged-run_batch :
        (calls : List ToolCall) (run : Run R)
        → Flagged run
        → Flagged (run_batch setup o calls run).2
    unfolding run_batch
    Flagged-run_batch calls run h =
        let (outcomes, terminate, waiting) =
          batch_outcomes o.world o.running setup.tools o.aborted o.stopped calls run.waiting in
        Flagged-record_outcomes outcomes (record run { waiting = waiting }) h

    pub Flagged-run_calls :
        (completion : Completion) (run : Run R)
        → Flagged run
        → Flagged (run_calls setup o completion run).2
    unfolding run_calls
    Flagged-run_calls completion run h = elim (Bool-cases (completion.stop_reason == "length")) [
      | inl a ↦ rw a (Flagged-fail_truncated_tool_calls completion.tool_calls run h)
      | inr a ↦ rw a (Flagged-run_batch completion.tool_calls run h)
    ]

    pub Flagged-after_compacting :
        (c : Compacted) (run : Run R) (f : Bool → Run R → Next R)
        → Flagged run
        → ((done : Bool) (r : Run R) → Flagged r → Holds Flagged (f done r))
        → Holds Flagged (after_compacting setup o c run f)
    unfolding after_compacting
    Flagged-after_compacting (inl err, session) run f h k = h
    Flagged-after_compacting (inr done, session) run f h k = k done _ h

    pub Flagged-compacting :
        (reason : String) (will_retry : Bool) (run : Run R) (f : Bool → Run R → Next R)
        → Flagged (say (compaction_start reason will_retry) run)
        → ((done : Bool) (r : Run R) → Flagged r → Holds Flagged (f done r))
        → Holds Flagged (compacting setup o reason will_retry run f)
    unfolding compacting
    Flagged-compacting reason will_retry run f h k =
        let run' = say (compaction_start reason will_retry) run in
        Flagged-after_compacting
          (compact_with_reason setup.parse_time setup.raw setup.raw_length
            (compactor_of setup o run') "" run'.polling.session)
          run' f h k

    pub reloaded : (done : Bool) (r : Run R) → Flagged r → Flagged (reload_if setup o done r)
    unfolding reload
    reloaded true r h = h
    reloaded false r h = h

    pub Flagged-prepare_turn :
        (run : Run R) → Flagged run → Holds Flagged (prepare_turn setup o run)
    unfolding prepare_turn inject add_messages
    Flagged-prepare_turn run h =
        let run' =
          add_messages setup o (inject setup o "steer" run).0 (inject setup o "steer" run).1 in
        Yields-if Flagged Flagged
          (o.compaction_requested
            || (compaction_is_on setup o && is_over_threshold setup o run'.messages))
          (compacting setup o "threshold" false run' (λ done r. again (reload_if setup o done r)))
          (again run')
          (λ t.
            Flagged-compacting "threshold" false run' (λ done r. again (reload_if setup o done r))
              (Flagged-IsStable.says (compaction_start "threshold" false) run' refl h) reloaded)
          (λ t. h)

    pub finished :
        (failure : Failure) (m : Message) (done : Bool) (r : Run R)
        → Flagged r
        → Holds Flagged (recovered setup o failure m done r)
    unfolding reload
    finished failure m true r h = h
    finished failure m false r h =
        Yields-end_agent Flagged Flagged Flagged-IsStable setup o m (some failure.text) "" none r h

    pub Flagged-recover :
        (failure : Failure) (m : Message) (run : Run R)
        → Flagged run
        → Holds Flagged (recover setup o failure m run)
    unfolding recover
    Flagged-recover failure m run h =
        Yields-if Flagged Flagged
          (eqb setup.depth 0
            && compaction_is_on setup o
            && not run.overflow_recovery_attempted
            && is_context_overflow_error setup.matches setup.lower failure)
          (compacting setup o "overflow" true (record run { overflow_recovery_attempted = true })
            (recovered setup o failure m))
          (end_agent setup o m (some failure.text) "" none run)
          (λ t.
            Flagged-compacting "overflow" true (record run { overflow_recovery_attempted = true })
              (recovered setup o failure m)
              (ground (arith, recoveries-snoc run.events (compaction_start "overflow" true)))
              (finished failure m))
          (λ t.
            Yields-end_agent Flagged Flagged Flagged-IsStable setup o m (some failure.text) "" none
              run h)
