-- ===== src/Subagent/Parallel.antt =====
-- The parallel mode of runSubagent of internal/engine/tools.go.
use ergo_agent.Prelude.{
  ℕ, zero, suc, ◌+◌, ◌≤◌, String, false, ◌≡◌, refl, sym, ap, ◌∙◌, some, none, List, [], ◌∷◌, ◌++◌,
  ltb, length, get_elem?, arith,
}
use ergo_agent.Subagent.{
  Task, TaskResult, SubagentReply, Answered, subagent_details, run_task, run_wave, run_waves,
  run_parallel,
}

module _ (project_agents scope : String)
    (subagent : ℕ → String → String → String → String → Answered) where
  -- What `run` makes of the positions of some tasks.
  abbrev wave : ℕ → List Task → List TaskResult
  wave i tasks = run_wave project_agents scope subagent i tasks

  abbrev waves : ℕ → ℕ → List Task → List TaskResult
  waves fuel i tasks = run_waves project_agents scope subagent fuel i tasks

  wave-append : (i : ℕ) (a b : List Task) → wave i (a ++ b) ≡ wave i a ++ wave (i + length a) b
  unfolding run_wave
  wave-append i [] b = ap (λ n. wave n b) {x = i} {y = i + 0} (omega arith)
  wave-append i (t ∷ a) b =
      ap (λ r. run_task project_agents scope subagent i t ∷ r)
        (wave-append (i + 1) a b
          ∙ ap (λ n. wave (i + 1) a ++ wave n b) {x = i + 1 + length a} {y = i + suc (length a)}
              (omega arith))

  -- The waves do one after the other what one wave would do at once.
  waves-wave :
      (fuel offset : ℕ) (tasks : List Task)
      → length tasks ≤ fuel
      → waves fuel offset tasks ≡ wave offset tasks
  unfolding run_waves run_wave
  waves-wave zero offset [] h = refl
  waves-wave zero offset (t ∷ tasks) h = absurd (omega arith)
  waves-wave (suc fuel) offset [] h = refl
  waves-wave (suc fuel) offset (a ∷ []) h =
      ap (λ r. wave offset (a ∷ []) ++ r) (waves-wave fuel (offset + 4) [] (omega arith))
  waves-wave (suc fuel) offset (a ∷ b ∷ []) h =
      ap (λ r. wave offset (a ∷ b ∷ []) ++ r) (waves-wave fuel (offset + 4) [] (omega arith))
  waves-wave (suc fuel) offset (a ∷ b ∷ c ∷ []) h =
      ap (λ r. wave offset (a ∷ b ∷ c ∷ []) ++ r) (waves-wave fuel (offset + 4) [] (omega arith))
  waves-wave (suc fuel) offset (a ∷ b ∷ c ∷ d ∷ tasks) h =
      ap (λ r. wave offset (a ∷ b ∷ c ∷ d ∷ []) ++ r)
        (waves-wave fuel (offset + 4) tasks (omega arith))
      ∙ sym (wave-append offset (a ∷ b ∷ c ∷ d ∷ []) tasks)

  length-wave : (i : ℕ) (tasks : List Task) → length (wave i tasks) ≡ length tasks
  unfolding run_wave
  length-wave i [] = refl
  length-wave i (t ∷ tasks) = ap suc (length-wave (i + 1) tasks)

  wave-at :
      (i k : ℕ) (tasks : List Task) (t : Task)
      → get_elem? tasks k ≡ some t
      → get_elem? (wave i tasks) k ≡ some (run_task project_agents scope subagent (i + k) t)
  unfolding run_wave
  wave-at i k [] t h = cc h
  wave-at i zero (u ∷ tasks) t h = cc (h, zero_more i)
    where
      zero_more : (i : ℕ) → i + 0 ≡ i
      zero_more i = omega arith
  wave-at i (suc k) (u ∷ tasks) t h =
      wave-at (i + 1) k tasks t h
      ∙ ap (λ n. some (run_task project_agents scope subagent n t)) {x = i + 1 + k} {y = i + suc k}
          (omega arith)

  -- One result for each task, at its place.
  pub record IsParallel (tasks : List Task) (r : SubagentReply) : Type 0 where
    pub results : List TaskResult
    pub details : r.result.details ≡ some (subagent_details project_agents scope "parallel" results)
    pub size : length results ≡ length tasks
    pub each :
        (k : ℕ) (t : Task)
        → get_elem? tasks k ≡ some t
        → get_elem? results k ≡ some (run_task project_agents scope subagent k t)
    pub no_error : r.err ≡ none

  -- For at most eight tasks, the parallel mode, which runs them in waves of four, gives one result
  -- for each task, at its place, which is what the subagent answers at that place, and no error,
  -- also when subagents fail.
  pub run_parallel-IsParallel :
      (tasks : List Task)
      → length tasks ≤ 8
      → IsParallel tasks (run_parallel project_agents scope subagent tasks)
  unfolding run_parallel
  run_parallel-IsParallel tasks h =
      let few : ltb 8 (length tasks) ≡ false = ground arith in
      let all = waves-wave (length tasks) 0 tasks (omega arith) in
      record {
        results = wave 0 tasks;
        details = rw (few, all);
        size = length-wave 0 tasks;
        each = λ k t e.
            wave-at 0 k tasks t e
            ∙ ap (λ n. some (run_task project_agents scope subagent n t)) {x = 0 + k} {y = k}
                (omega arith);
        no_error = rw few;
      }
