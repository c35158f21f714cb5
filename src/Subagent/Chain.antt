-- ===== src/Subagent/Chain.antt =====
-- The chain mode of runSubagent of internal/engine/tools.go.
use ergo_agent.Prelude.{
  ℕ, zero, suc, ◌+◌, String, ◌≡◌, refl, sym, ap, ◌∙◌, Option, some, none, List, [], ◌∷◌, length,
  get_elem?, arith,
}
use ergo_agent.Subagent.{
  Task, TaskResult, Answered, error_text, with_previous, chain_result, run_chain, stopped_at,
  chain_after,
}

-- What the placeholder {previous} stands for at a step: the output of the step before it.
unfoldable pub output_before : String → List TaskResult → ℕ → String
output_before previous results zero = previous
output_before previous [] (suc k) = previous
output_before previous (r ∷ results) (suc k) = output_before r.output results k

module _ (project_agents scope : String)
    (subagent : ℕ → String → String → String → String → Answered) where
  abbrev pub chained : ℕ → String → List Task → List TaskResult × String × Option (String × String)
  chained i previous steps = run_chain project_agents scope subagent i previous steps

  -- The answer at a step.
  abbrev pub step_answer : ℕ → Task → String → Answered
  step_answer i t previous = subagent i t.agent (with_previous t.task previous) t.cwd scope

  abbrev pub made : ℕ → Task → Answered → TaskResult
  made i t answer = chain_result project_agents scope subagent i t answer

  abbrev pub stopped : ℕ → Task → String → String
  stopped i t err = stopped_at project_agents scope subagent i t err

  -- Why the chain ends: all steps are done, or the last one that ran has failed.
  abbrev pub Ended :
      ℕ → String → List Task → List TaskResult × String × Option (String × String) → Type 0
  Ended i previous steps (results, text, none) =
      (length results ≡ length steps) × (text ≡ output_before previous results (length results))
  Ended i previous steps (results, text, some (message, err)) =
      (k : ℕ) × (t : Task) × (length results ≡ suc k)
      × (get_elem? steps k ≡ some t)
      × ((step_answer (i + k) t (output_before previous results k)).1 ≡ some err)
      × (message ≡ stopped (i + k) t err)

  -- The results stand in the order of the steps; each is what the subagent answered when its task
  -- named the output of the step before it; and a step runs only after one without an error.
  pub record IsRelay (i : ℕ) (previous : String) (steps : List Task)
      (out : List TaskResult × String × Option (String × String)) : Type 0 where
    pub each :
        (k : ℕ) (r : TaskResult)
        → get_elem? out.0 k ≡ some r
        → (t : Task) × (get_elem? steps k ≡ some t)
          × (r ≡ made (i + k) t (step_answer (i + k) t (output_before previous out.0 k)))
    pub goes_on :
        (k : ℕ) (r : TaskResult)
        → get_elem? out.0 (suc k) ≡ some r
        → (q : TaskResult) × (get_elem? out.0 k ≡ some q) × (q.err ≡ "")
    pub ended : Ended i previous steps out

  no_element : {A : Type 0} → (r : A) → none ≡ some r → ⊥
  no_element r h = cc h

  IsRelay-nil : (i : ℕ) (previous : String) → IsRelay i previous [] ([], previous, none)
  unfolding output_before
  IsRelay-nil i previous = record {
    each = λ k r h. absurd (no_element r h);
    goes_on = λ k r h. absurd (no_element r h);
    ended = (refl, refl);
  }

  shift : (i k : ℕ) → i + 1 + k ≡ i + suc k
  shift i k = omega arith

  here : (i : ℕ) → i + 0 ≡ i
  here i = omega arith

  -- A step that fails is the last one.
  IsRelay-stop :
      (i : ℕ) (previous : String) (t : Task) (steps : List Task) (answer : Answered) (err : String)
      → step_answer i t previous ≡ answer
      → answer.1 ≡ some err
      → IsRelay i previous (t ∷ steps) (made i t answer ∷ [], previous, some (stopped i t err, err))
  unfolding output_before
  IsRelay-stop i previous t steps answer err e h = record {
    each = one;
    goes_on = λ k r g. absurd (no_element r g);
    ended = (
      0,
      t,
      refl,
      refl,
      ap (λ n. (step_answer n t previous).1) (here i) ∙ ap (λ a. a.1) e ∙ h,
      ap (λ n. stopped n t err) (sym (here i)),
    );
  }
    where
      one :
          (k : ℕ) (r : TaskResult)
          → get_elem? (made i t answer ∷ []) k ≡ some r
          → (u : Task) × (get_elem? (t ∷ steps) k ≡ some u)
            × (r
                ≡ made
                    (i + k)
                    u
                    (step_answer (i + k) u (output_before previous (made i t answer ∷ []) k)))
      one zero r g = (t, refl, unfold output_before in cc (g, e, here i))
      one (suc k) r g = absurd (no_element r g)

  IsRelay-step :
      (i : ℕ) (previous : String) (t : Task) (steps : List Task) (answer : Answered)
      (out : List TaskResult × String × Option (String × String))
      → step_answer i t previous ≡ answer
      → answer.1 ≡ none
      → IsRelay (i + 1) answer.0 steps out
      → IsRelay i previous (t ∷ steps) (made i t answer ∷ out.0, out.1, out.2)
  unfolding output_before
  IsRelay-step i previous t steps answer (results, text, stop) e h rest = record {
    each = each;
    goes_on = goes_on;
    ended = ended stop rest.ended;
  }
    where
      each :
          (k : ℕ) (r : TaskResult)
          → get_elem? (made i t answer ∷ results) k ≡ some r
          → (u : Task) × (get_elem? (t ∷ steps) k ≡ some u)
            × (r
                ≡ made
                    (i + k)
                    u
                    (step_answer (i + k) u (output_before previous (made i t answer ∷ results) k)))
      each zero r g = (t, refl, unfold output_before in cc (g, e, here i))
      each (suc k) r g =
          let (u, p, q) = rest.each k r g in (u, p, unfold output_before in cc (q, shift i k))

      goes_on :
          (k : ℕ) (r : TaskResult)
          → get_elem? (made i t answer ∷ results) (suc k) ≡ some r
          → (q : TaskResult) × (get_elem? (made i t answer ∷ results) k ≡ some q) × (q.err ≡ "")
      goes_on zero r g = (made i t answer, refl, ap error_text h)
      goes_on (suc k) r g = rest.goes_on k r g

      ended :
          (stop : Option (String × String))
          → Ended (i + 1) answer.0 steps (results, text, stop)
          → Ended i previous (t ∷ steps) (made i t answer ∷ results, text, stop)
      ended none (n, x) = (ap suc n, unfold output_before in x)
      ended (some (message, err)) (k, u, n, p, q, m) = (
        suc k,
        u,
        ap suc n,
        p,
        unfold output_before in
            ap (λ j. (step_answer j u (output_before answer.0 results k)).1) (sym (shift i k)) ∙ q,
        m ∙ ap (λ j. stopped j u err) (shift i k),
      )

  chain_after-IsRelay :
      (i : ℕ) (previous : String) (t : Task) (steps : List Task) (answer : Answered)
      (out : List TaskResult × String × Option (String × String))
      → step_answer i t previous ≡ answer
      → IsRelay (i + 1) answer.0 steps out
      → IsRelay i previous
          (t ∷ steps)
          (chain_after project_agents scope subagent i previous t answer out)
  chain_after-IsRelay i previous t steps (text, none) out e rest =
      IsRelay-step i previous t steps (text, none) out e refl rest
  chain_after-IsRelay i previous t steps (text, some err) out e rest =
      IsRelay-stop i previous t steps (text, some err) err e refl

  -- For any subagents and steps, the results of a chain stand in the order of the steps; each is
  -- what the subagent answered when {previous} in its task stood for the output of the step before
  -- it; a step runs only after one without an error; and the chain ends after the last step, with
  -- its output, or after the first one whose subagent fails, with that error and its message.
  pub run_chain-IsRelay :
      (i : ℕ) (previous : String) (steps : List Task)
      → IsRelay i previous steps (chained i previous steps)
  unfolding run_chain
  run_chain-IsRelay i previous [] = IsRelay-nil i previous
  run_chain-IsRelay i previous (t ∷ steps) =
      let answer = step_answer i t previous in
      chain_after-IsRelay i previous t steps answer (chained (i + 1) answer.0 steps) refl
        (run_chain-IsRelay (i + 1) answer.0 steps)
