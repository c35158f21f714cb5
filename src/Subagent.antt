-- ===== src/Subagent.antt =====
-- runSubagent and truncateSubagentOutput of internal/engine/tools.go. What a subagent answers is a
-- function of the position of its task; the goroutines of a wave write disjoint slots and are run in
-- the order of the tasks. The names of arguments are matched exactly.
pub mod Parallel
pub mod Chain
use Prim.Native.String.{◌++◌ as append, len}
use Prim.Native.Char.{code}
use text.Mathlib.Text.{starts_with}
use ergo_agent.Prelude.{
  ℕ, zero, suc, ◌+◌, ◌-◌, String, Bool, true, false, not, ◌&&◌, ◌||◌, Option, none, some, List, [],
  ◌∷◌, ◌++◌, ◌==◌, eqb, ltb, leb, if◌then◌else◌, bind, length, take, drop,
}
use ergo_agent.Prelude.Int.{pos}
use ergo_agent.Prelude.Text.{decimal, join}
use ergo_agent.Json.{Value, str, arr, obj, Items, nil, cons, Fields, end, field}
use ergo_agent.Message.Codec.{text_over, struct_of, slice_of, omit_text, omit_int}
use ergo_agent.Pipeline.{ToolResult, text_result}
use ergo_agent.Session.Settings.{first}

pub record Task : Type 0 where
  pub agent : String
  pub task : String
  pub cwd : String

pub record SubagentInput : Type 0 where
  pub agent : String
  pub task : String
  pub cwd : String
  pub agent_scope : String
  pub tasks : List Task
  pub chain : List Task

-- One answer of a subagent: its text, and its error if there is one.
abbrev pub Answered : Type 0
Answered = String × Option String

pub record TaskResult : Type 0 where
  pub agent : String
  pub task : String
  pub output : String
  pub err : String
  pub step : ℕ

pub record SubagentReply : Type 0 where
  pub result : ToolResult
  pub err : Option String

abbrev pub zero_task : Task
zero_task = record { agent = ""; task = ""; cwd = "" }

unfoldable pub task_member : String → Value → Task → Option Task
task_member k v t =
    if k == "agent"
    then bind (text_over v t.agent) (λ s. some (record t { agent = s }))
    else if k == "task"
    then bind (text_over v t.task) (λ s. some (record t { task = s }))
    else if k == "cwd"
    then bind (text_over v t.cwd) (λ s. some (record t { cwd = s }))
    else some t

unfoldable pub subagent_member : String → Value → SubagentInput → Option SubagentInput
subagent_member k v p =
    if k == "agent"
    then bind (text_over v p.agent) (λ s. some (record p { agent = s }))
    else if k == "task"
    then bind (text_over v p.task) (λ s. some (record p { task = s }))
    else if k == "cwd"
    then bind (text_over v p.cwd) (λ s. some (record p { cwd = s }))
    else if k == "agentScope"
    then bind (text_over v p.agent_scope) (λ s. some (record p { agent_scope = s }))
    else if k == "tasks"
    then bind (slice_of (struct_of task_member zero_task) v) (λ ts. some (record p { tasks = ts }))
    else if k == "chain"
    then bind (slice_of (struct_of task_member zero_task) v) (λ ts. some (record p { chain = ts }))
    else some p

abbrev pub no_subagent_input : SubagentInput
no_subagent_input = record {
  agent = "";
  task = "";
  cwd = "";
  agent_scope = "";
  tasks = [];
  chain = [];
}

-- json.Marshal of the results, as the details hold them.
abbrev pub result_value : TaskResult → Value
result_value r = obj (
    field "agent" (str r.agent) (
      field "task" (str r.task)
        (omit_text "output" r.output (omit_text "error" r.err (omit_int "step" (pos r.step) end)))))

abbrev pub result_values : List TaskResult → Items
result_values [] = nil
result_values (r ∷ results) = cons (result_value r) (result_values results)

-- The result of a task that has none or one error.
abbrev pub error_text : Option String → String
error_text none = ""
error_text (some err) = err

-- strings.ReplaceAll of a text that is not empty: what is replaced is `skip` characters long still.
unfoldable pub replace_from : ℕ → String → String → String → String
replace_from skip String.[] old new = ""
replace_from (suc skip) (String.◌∷◌ c s) old new = replace_from skip s old new
replace_from zero (String.◌∷◌ c s) old new =
    let after = replace_from (len old - 1) s old new in
    let rest = replace_from 0 s old new in
    if starts_with (String.◌∷◌ c s) old then append new after else String.◌∷◌ c rest

abbrev pub with_previous : String → String → String
with_previous task previous = replace_from 0 task "{previous}" previous

-- The number of bytes of a character in UTF-8.
abbrev pub rune_size : ℕ → ℕ
rune_size c = if ltb c 128 then 1 else if ltb c 2048 then 2 else if ltb c 65536 then 3 else 4

unfoldable pub byte_size : String → ℕ
byte_size String.[] = 0
byte_size (String.◌∷◌ c s) = rune_size (code c) + byte_size s

-- The longest beginning of whole characters within a number of bytes.
unfoldable pub take_bytes : ℕ → String → String
take_bytes n String.[] = ""
take_bytes n (String.◌∷◌ c s) =
    let rest = take_bytes (n - rune_size (code c)) s in
    if leb (rune_size (code c)) n then String.◌∷◌ c rest else ""

unfoldable pub truncate_subagent_output : String → ℕ → String
truncate_subagent_output output maximum =
    let kept = take_bytes maximum output in
    if leb (byte_size output) maximum
    then output
    else append kept (
        append (append "\n\n[Output truncated: " (decimal (byte_size output - byte_size kept)))
          " bytes omitted. Full output preserved in tool details.]")

abbrev pub output_or_none : String → String
output_or_none text = if text == "" then "(no output)" else text

abbrev pub is_failed : TaskResult → Bool
is_failed r = not (r.err == "")

unfoldable pub section_of : TaskResult → String
section_of r =
    let status = if is_failed r then "failed" else "completed" in
    let output = output_or_none (if is_failed r then r.err else r.output) in
    append (append (append (append "### [" r.agent) "] ") status)
      (append "\n\n" (truncate_subagent_output output 51200))

abbrev pub sections_of : List TaskResult → List String
sections_of [] = []
sections_of (r ∷ results) = section_of r ∷ sections_of results

unfoldable pub successes : List TaskResult → ℕ
successes [] = 0
successes (r ∷ results) = let rest = successes results in if is_failed r then rest else rest + 1

abbrev pub Mode : Type 0
Mode = Bool × Bool × Bool

abbrev pub is_any : {A : Type 0} → List A → Bool
is_any [] = false
is_any (x ∷ xs) = true

abbrev pub one_if : Bool → ℕ
one_if b = if b then 1 else 0

abbrev pub is_single : SubagentInput → Bool
is_single p = not (p.agent == "") && not (p.task == "")

unfoldable pub mode_count : SubagentInput → ℕ
mode_count p = one_if (is_single p) + one_if (is_any p.tasks) + one_if (is_any p.chain)

abbrev pub scope_of : String → SubagentInput → String
scope_of inherited p = first (first p.agent_scope inherited) "user"

abbrev pub is_scope : String → Bool
is_scope scope = scope == "user" || scope == "project" || scope == "both"

abbrev pub refuse : String → SubagentReply
refuse err = record { result = text_result ""; err = some err }

-- `project_agents` is the directory that `nearest` finds.
module _ (project_agents : String) (scope : String) where
  unfoldable pub subagent_details : String → List TaskResult → Fields
  subagent_details mode results = field "mode" (str mode) (
      field "agentScope" (str scope) (
        field "projectAgentsDir"
          (str (if scope == "project" || scope == "both" then project_agents else ""))
          (field "results" (arr (result_values results)) end)))

  abbrev pub reply : String → String → List TaskResult → Option String → SubagentReply
  reply mode text results err = record {
    result = record (text_result text) { details = some (subagent_details mode results) };
    err = err;
  }

  -- `subagent` is the function of the tools at an agent, a task, a directory and the scope.
  module _ (subagent : ℕ → String → String → String → String → Answered) where
    unfoldable pub run_single : SubagentInput → SubagentReply
    run_single p =
        let (text, err) = subagent 0 p.agent p.task p.cwd scope in
        let results =
          record { agent = p.agent; task = p.task; output = text; err = error_text err; step = 0 }
          ∷ [] in
        elim err [
          | some e ↦ reply "single" (append "Agent failed: " e) results (some e)
          | none ↦ reply "single" (output_or_none text) results none
        ]

    abbrev pub run_task : ℕ → Task → TaskResult
    run_task i t =
        let (text, err) = subagent i t.agent t.task t.cwd scope in
        record { agent = t.agent; task = t.task; output = text; err = error_text err; step = 0 }

    unfoldable pub run_wave : ℕ → List Task → List TaskResult
    run_wave i [] = []
    run_wave i (t ∷ tasks) = run_task i t ∷ run_wave (i + 1) tasks

    -- The loop over the offsets: four tasks run at once, and the next four after them.
    unfoldable pub run_waves : ℕ → ℕ → List Task → List TaskResult
    run_waves zero offset tasks = []
    run_waves (suc fuel) offset [] = []
    run_waves (suc fuel) offset (t ∷ tasks) =
        run_wave offset (take 4 (t ∷ tasks)) ++ run_waves fuel (offset + 4) (drop 4 (t ∷ tasks))

    unfoldable pub run_parallel : List Task → SubagentReply
    run_parallel tasks =
        let results = run_waves (length tasks) 0 tasks in
        if ltb 8 (length tasks)
        then reply "parallel"
            (append (append "Too many parallel tasks (" (decimal (length tasks))) "). Max is 8.") []
            none
        else reply "parallel"
            (append (append "Parallel: " (decimal (successes results))) (
              append (append "/" (decimal (length results)))
                (append " succeeded\n\n" (join "\n\n---\n\n" (sections_of results)))))
            results none

    abbrev pub chain_result : ℕ → Task → Answered → TaskResult
    chain_result i t (text, err) = record {
      agent = t.agent;
      task = t.task;
      output = text;
      err = error_text err;
      step = i + 1;
    }

    abbrev pub stopped_at : ℕ → Task → String → String
    stopped_at i t err =
        append (append (append "Chain stopped at step " (decimal (i + 1))) (append " (" t.agent))
          (append "): " err)

    -- The body of the loop over the steps, before what the later steps make.
    abbrev pub chain_after :
        ℕ
        → String
        → Task
        → Answered
        → List TaskResult × String × Option (String × String)
        → List TaskResult × String × Option (String × String)
    chain_after i previous t (text, some err) out =
        (chain_result i t (text, some err) ∷ [], previous, some (stopped_at i t err, err))
    chain_after i previous t (text, none) (results, last, stop) =
        (chain_result i t (text, none) ∷ results, last, stop)

    -- The loop over the steps: its results, the last text, and what stopped it.
    unfoldable pub run_chain :
        ℕ → String → List Task → List TaskResult × String × Option (String × String)
    run_chain i previous [] = ([], previous, none)
    run_chain i previous (t ∷ steps) =
        let answer = subagent i t.agent (with_previous t.task previous) t.cwd scope in
        chain_after i previous t answer (run_chain (i + 1) answer.0 steps)

    abbrev pub chain_reply : List TaskResult × String × Option (String × String) → SubagentReply
    chain_reply (results, text, some (message, e)) = reply "chain" message results (some e)
    chain_reply (results, text, none) = reply "chain" (output_or_none text) results none

    unfoldable pub run_modes : SubagentInput → SubagentReply
    run_modes p =
        if not (eqb (mode_count p) 1)
        then refuse "provide exactly one subagent mode"
        else if not (is_scope scope)
        then refuse "agentScope must be user, project, or both"
        else if is_single p
        then run_single p
        else if is_any p.tasks
        then run_parallel p.tasks
        else chain_reply (run_chain 0 "" p.chain)

-- `subagent` is none when the tools have no subagents; `inherited` is their scope, and `decode_error`
-- the text of an error of encoding/json.
module _ (project_agents inherited decode_error : String)
    (subagent : Option (ℕ → String → String → String → String → Answered)) where
  abbrev pub run_input : Option SubagentInput → SubagentReply
  run_input none = refuse decode_error
  run_input (some p) = elim subagent [
    | none ↦ refuse "subagents unavailable"
    | some f ↦ run_modes project_agents (scope_of inherited p) f p
  ]

  unfoldable pub run_subagent : Value → SubagentReply
  run_subagent raw = run_input (struct_of subagent_member no_subagent_input raw)
