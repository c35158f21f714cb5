-- ===== src/Tests/Operations.antt =====
-- Operations of internal/engine/runtime.go on a concrete session.
use ergo_agent.Prelude.{
  ℕ, String, true, false, ◌≡◌, refl, Option, none, some, [], ◌∷◌, ◌==◌, if◌then◌else◌,
}
use ergo_agent.Prelude.Int.{ℤ}
use ergo_agent.Json.{get, Value, null, str, field, end}
use ergo_agent.Session.{by_id}
use ergo_agent.Provider.{Request, Reply, completed}
use ergo_agent.Compaction.Entries.{messages_of}
use ergo_agent.Operation.{
  Command, Execution, Operated, operation, abandoned, summarize_abandoned_branch,
}
use ergo_agent.Operation.Settled.{settings_of, settings_before, changed, settings-operation}
use ergo_agent.Operation.Navigated.{Left, summarize_abandoned_branch-Left}

abbrev choose_model : Command
choose_model = record {
  operation = "set_model";
  custom_type = "";
  custom_data = null;
  custom_content = "";
  display = none;
  target_entry_id = "e1";
  label = "";
  session_name = "";
  target_provider = "openai";
  target_model = "gpt";
  target_thinking_level = "";
  active_tool_names = [];
  steering_mode = "";
  follow_up_mode = "";
  plan_mode = false;
  plan_executing = false;
  summarize = true;
  custom_instructions = "";
  replace_instructions = false;
  session_id = "s";
  model = "m";
  thinking_level = "";
}

abbrev idle_execution : Execution
idle_execution = record {
  session = record {
    entries =
        field "id" (str "e1") end
        ∷ field "type" (str "custom_message") (
            field "id" (str "e3") (field "parentId" (str "e1") (field "content" (str "aside") end)))
        ∷ [];
    leaf_id = "e3";
  };
  overrides = record { provider = ""; model = ""; thinking = ""; tools = []; tools_set = false };
}

abbrev next_id : ℕ → String × String
next_id n = ("e2", "now")

abbrev no_time : String → Option ℤ
no_time text = none

abbrev no_raw : Option Value → String
no_raw v = ""

abbrev done_reply : Reply
done_reply = completed (record {
  text = "done";
  text_signature = "";
  thinking = "";
  thinking_signature = "";
  tool_calls = [];
  usage = none;
  stop_reason = "stop";
  error_message = "";
})

abbrev answer_done : Request Unit → Reply
answer_done request = done_reply

-- Every event is delivered but the one on a summary.
abbrev accepts : String → Option String
accepts kind = if kind == "session.branch_summarized" then some "sink closed" else none

abbrev nothing_else : Command → Execution → Operated
nothing_else c e = (e, none)

settings-operation_example :
    settings_of
      (operation next_id no_time no_raw none answer_done accepts [] [] [] [] nothing_else
        choose_model idle_execution).0.session
    ≡ changed choose_model (settings_before idle_execution.session)
unfolding by_id get
settings-operation_example =
    settings-operation next_id idle_execution refl refl no_time no_raw none answer_done accepts []
      [] [] [] nothing_else choose_model refl

summarize_abandoned_branch-Left_example :
    Left next_id no_time no_raw none answer_done accepts choose_model "e1" idle_execution
      (messages_of no_time
        (abandoned next_id no_time no_raw none answer_done accepts "e1" idle_execution.session))
      (summarize_abandoned_branch next_id no_time no_raw none answer_done accepts choose_model "e1"
        idle_execution)
unfolding by_id get
summarize_abandoned_branch-Left_example =
    summarize_abandoned_branch-Left next_id no_time no_raw none answer_done accepts choose_model
      "e1" idle_execution refl refl
