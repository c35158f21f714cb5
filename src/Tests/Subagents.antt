-- ===== src/Tests/Subagents.antt =====
-- runSubagent of internal/engine/tools.go at concrete tasks.
use ergo_agent.Prelude.{ℕ, String, ◌≡◌, refl, none, some, List, [], ◌∷◌, arith, ◌==◌, if◌then◌else◌}
use ergo_agent.Subagent.{
  Task, Answered, run_parallel, run_chain, replace_from, truncate_subagent_output, take_bytes,
  byte_size,
}
use ergo_agent.Subagent.Parallel.{IsParallel, run_parallel-IsParallel}
use ergo_agent.Subagent.Chain.{IsRelay, chained, run_chain-IsRelay}

-- A subagent that gives its task back, and fails at an empty one.
abbrev echo : ℕ → String → String → String → String → Answered
echo i agent task cwd scope = (task, if task == "" then some "nothing to do" else none)

abbrev two_steps : List Task
two_steps =
    record { agent = "a"; task = "x"; cwd = "" }
    ∷ record { agent = "b"; task = "{previous}y"; cwd = "" }
    ∷ []

run_parallel-IsParallel_example :
    IsParallel "" "user" echo two_steps (run_parallel "" "user" echo two_steps)
run_parallel-IsParallel_example = run_parallel-IsParallel "" "user" echo two_steps (omega arith)

run_chain-IsRelay_example :
    IsRelay "" "user" echo 0 "" two_steps (chained "" "user" echo 0 "" two_steps)
run_chain-IsRelay_example = run_chain-IsRelay "" "user" echo 0 "" two_steps

chain_run : (run_chain "" "user" echo 0 "" two_steps).1 ≡ "xy"
unfolding run_chain replace_from
chain_run = refl

chain_stops :
    (run_chain "" "user" echo 0 "" (record { agent = "a"; task = ""; cwd = "" } ∷ two_steps)).2
    ≡ some ("Chain stopped at step 1 (a): nothing to do", "nothing to do")
unfolding run_chain replace_from
chain_stops = refl

-- A character of two bytes is not cut.
cut_output :
    truncate_subagent_output "aéb" 2
    ≡ "a\n\n[Output truncated: 3 bytes omitted. Full output preserved in tool details.]"
unfolding truncate_subagent_output take_bytes byte_size
cut_output = refl
