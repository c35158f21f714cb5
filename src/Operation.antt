-- ===== src/Operation.antt =====
-- The operations of internal/engine/runtime.go that change the session, with SetModel,
-- SetThinkingLevel, SetActiveTools and SetSessionName of internal/engine/extensions.go and
-- summarizeAbandonedBranch of internal/engine/compaction.go. What `inspect`, `extension_command`, the
-- package operations and `compact` do is a parameter, and the events of the sink are left out.
pub mod Settled
pub mod Navigated
use Prim.Native.String.{◌++◌ as append}
use ergo_agent.Prelude.{
  ℕ, zero, suc, ◌+◌, String, Bool, true, false, ◌||◌, Option, none, some, List, [], ◌∷◌, ◌==◌, ◌⊎◌,
  inl, inr, if◌then◌else◌, length, drop, contains, value_or,
}
use ergo_agent.Prelude.Int.{ℤ, pos}
use ergo_agent.Json.{Value, null, str, bool, arr, obj, Fields, end, field, get, string_or_empty}
use ergo_agent.Message.{Message, zero_message}
use ergo_agent.Message.Codec.{encode_texts}
use ergo_agent.Provider.{Request, Completion, Reply, completed, failed}
use ergo_agent.Session.{Entry, Session, branch, branch_entries, append_entry}
use ergo_agent.Session.Settings.{first}
use ergo_agent.Agent.{Overrides}
use ergo_agent.Compaction.Entries.{messages_of}
use ergo_agent.Compaction.Serialize.{
  summarization_system_prompt, branch_summary_prompt, serialize_conversation,
}
use ergo_agent.Compaction.Run.{Attempt, attempt, answered, map_value}

pub record Command : Type 0 where
  pub operation : String
  pub custom_type : String
  pub custom_data : Value
  pub custom_content : String
  pub display : Option Bool
  pub target_entry_id : String
  pub label : String
  pub session_name : String
  pub target_provider : String
  pub target_model : String
  pub target_thinking_level : String
  pub active_tool_names : List String
  pub steering_mode : String
  pub follow_up_mode : String
  pub plan_mode : Bool
  pub plan_executing : Bool
  pub summarize : Bool
  pub custom_instructions : String
  pub replace_instructions : Bool
  pub session_id : String
  pub model : String
  pub thinking_level : String

-- The session and the overrides of an execution.
pub record Execution : Type 0 where
  pub session : Session
  pub overrides : Overrides

-- What an operation leaves, and its error.
abbrev pub Operated : Type 0
Operated = Execution × Option String

-- The loop over the hooks of an event: their errors end it.
abbrev pub notify : List (Option (Option String)) → Option String
notify [] = none
notify (none ∷ hooks) = notify hooks
notify (some none ∷ hooks) = notify hooks
notify (some (some err) ∷ hooks) = some err

-- The loop over the `SessionBeforeTree` hooks: an error, or whether one cancels.
abbrev pub may_navigate : List (Option (String ⊎ Bool)) → String ⊎ Bool
may_navigate [] = inr true
may_navigate (none ∷ hooks) = may_navigate hooks
may_navigate (some (inl err) ∷ hooks) = inl err
may_navigate (some (inr cancel) ∷ hooks) = if cancel then inr false else may_navigate hooks

unfoldable pub ids_of : List Entry → List String
ids_of [] = []
ids_of (e ∷ entries) =
    let rest = ids_of entries in
    let id = string_or_empty (get "id" e) in if id == "" then rest else id ∷ rest

-- The number of entries up to the last one whose id is among some: 0 when there is none.
unfoldable pub start_after : List String → List Entry → ℕ
start_after ids [] = 0
start_after ids (e ∷ entries) =
    let rest = start_after ids entries in
    elim rest [
      | suc n ↦ suc (suc n)
      | zero ↦ if contains ids (string_or_empty (get "id" e)) then 1 else 0
    ]

abbrev pub last_id : List Entry → String
last_id [] = ""
last_id (e ∷ []) = string_or_empty (get "id" e)
last_id (e ∷ f ∷ entries) = last_id (f ∷ entries)

abbrev pub with_overrides : Execution → Overrides → Execution
with_overrides e overrides = record e { overrides = overrides }

-- `fresh` is what `newID` and the clock return, by the number of entries.
module _ (fresh : ℕ → String × String) where
  unfoldable pub append_fresh : String → Fields → Execution → Execution
  append_fresh kind payload e =
      let (id, timestamp) = fresh (length e.session.entries) in
      record e { session = append_entry e.session id timestamp kind payload }

  -- The hooks `ModelSelect` and `ThinkingLevelSelect`.
  unfoldable pub set_model : List (Option (Option String)) → String → String → Execution → Operated
  set_model hooks provider model e = (
    append_fresh "model_change" (field "provider" (str provider) (field "modelId" (str model) end))
        (with_overrides e (record e.overrides { provider = provider; model = model })),
    notify hooks,
  )

  unfoldable pub set_thinking_level : List (Option (Option String)) → String → Execution → Operated
  set_thinking_level hooks level e = (
    append_fresh "thinking_level_change" (field "thinkingLevel" (str level) end)
        (with_overrides e (record e.overrides { thinking = level })),
    notify hooks,
  )

  unfoldable pub set_active_tools : List String → Execution → Execution
  set_active_tools names e =
      append_fresh "active_tools_change" (field "activeToolNames" (arr (encode_texts names)) end)
        (with_overrides e (record e.overrides { tools = names; tools_set = true }))

  unfoldable pub set_session_name : String → Execution → Execution
  set_session_name name e = append_fresh "session_info" (field "name" (str name) end) e

  abbrev pub custom_entry : String → Fields → Execution → Execution
  custom_entry kind values e =
      append_fresh "custom" (field "customType" (str kind) (field "data" (obj values) end)) e

  abbrev pub queue_modes : Command → Fields
  queue_modes c =
      field "steeringMode" (str (first c.steering_mode "one-at-a-time"))
        (field "followUpMode" (str (first c.follow_up_mode "one-at-a-time")) end)

  abbrev pub plan_state : Command → Fields
  plan_state c = field "enabled" (bool c.plan_mode) (field "executing" (bool c.plan_executing) end)

  -- Moving the leaf to an entry.
  abbrev pub move_to : String → Execution → Execution
  move_to target e = record e { session = record e.session { leaf_id = target } }

  -- `parse_time` reads the time of an entry, `raw` is the text of a raw JSON value, and `complete` is
  -- `complete` of the execution; `provider_error` is the error of providerFromFactory, and
  -- `emit_error` the one that `emit` returns for an event of a kind.
  module _ {R : Type 0} (parse_time : String → Option ℤ) (raw : Option Value → String)
      (provider_error : Option String) (complete : Request R → Reply)
      (emit_error : String → Option String) where
    unfoldable pub branch_instructions : Command → String
    branch_instructions c =
        if c.custom_instructions == ""
        then branch_summary_prompt
        else if c.replace_instructions
        then c.custom_instructions
        else append branch_summary_prompt (append "\n\nAdditional focus: " c.custom_instructions)

    unfoldable pub branch_request : Command → List Message → Request R
    branch_request c messages = record {
      session_id = c.session_id;
      model = c.model;
      system = summarization_system_prompt;
      messages =
          record zero_message {
            role = "user";
            content = append "<conversation>\n" (
                append (serialize_conversation raw messages)
                  (append "\n</conversation>\n\n" (branch_instructions c)));
          }
          ∷ [];
      tools = [];
      thinking_level = c.thinking_level;
      max_tokens = pos 0;
    }

    unfoldable pub branch_summary_payload : String → Completion → Fields
    branch_summary_payload from completion =
        field "summary"
          (str (
            append
              "The user explored a different conversation branch before returning here.\nSummary of that exploration:\n\n"
              completion.text))
          (field "fromId" (str from) (field "usage" (map_value completion.usage) end))

    -- The entries of the branch behind the last one that the target's branch has too.
    unfoldable pub abandoned : String → Session → List Entry
    abandoned target s =
        let current = branch s in
        drop (start_after (ids_of (branch_entries s.entries target)) current) current

    abbrev pub with_branch_summary : String → Attempt Completion → Execution → Operated
    with_branch_summary target (inl err) e = (e, some err)
    with_branch_summary target (inr completion) e = (
      append_fresh "branch_summary" (branch_summary_payload (last_id (branch e.session)) completion)
          (move_to target e),
      emit_error "session.branch_summarized",
    )

    abbrev pub ask_summary : Command → List Message → Attempt Completion
    ask_summary c messages = elim provider_error [
      | some err ↦ inl err
      | none ↦ answered (complete (branch_request c messages))
    ]

    -- An execution without messages behind the common entry moves without a summary.
    abbrev pub summarize_messages : Command → String → List Message → Execution → Operated
    summarize_messages c target [] e = (move_to target e, none)
    summarize_messages c target (m ∷ messages) e =
        with_branch_summary target (ask_summary c (m ∷ messages)) e

    unfoldable pub summarize_abandoned_branch : Command → String → Execution → Operated
    summarize_abandoned_branch c target e =
        summarize_messages c target (messages_of parse_time (abandoned target e.session)) e

    -- The hooks `SessionTree` run after the move; a cancelled navigation is no error of its own.
    abbrev pub after_move : List (Option (Option String)) → Operated → Operated
    after_move hooks (e, some err) = (e, some err)
    after_move hooks (e, none) = (e, notify hooks)

    abbrev pub navigate :
        List (Option (Option String)) → Command → String ⊎ Bool → Execution → Operated
    navigate hooks c (inl err) e = (e, some err)
    navigate hooks c (inr false) e = (e, emit_error "run.completed")
    navigate hooks c (inr true) e = after_move hooks (
        if c.summarize
        then summarize_abandoned_branch c c.target_entry_id e
        else (move_to c.target_entry_id e, none))

    -- `model_hooks` and `thinking_hooks` are the errors of the hooks, `before_tree` and `after_tree`
    -- those of a navigation, and `other` what the operations do that are left out.
    module _ (model_hooks thinking_hooks after_tree : List (Option (Option String)))
        (before_tree : List (Option (String ⊎ Bool))) (other : Command → Execution → Operated) where
      unfoldable pub operation : Command → Execution → Operated
      operation c e =
          if c.operation == "append_custom_entry"
          then (
            append_fresh "custom"
                (field "customType" (str c.custom_type)
                  (field "data" c.custom_data (field "content" (str c.custom_content) end)))
                e,
            none,
          )
          else if c.operation == "append_custom_message"
          then (
            append_fresh "custom_message"
                (field "customType" (str c.custom_type) (
                  field "content" (str c.custom_content) (
                    field "display" (bool (value_or true c.display))
                      (field "details" c.custom_data end))))
                e,
            none,
          )
          else if c.operation == "set_label"
          then (
            append_fresh "label"
                (field "targetId" (str c.target_entry_id) (field "label" (str c.label) end)) e,
            none,
          )
          else if c.operation == "set_session_name"
          then (set_session_name c.session_name e, none)
          else if c.operation == "set_model"
          then set_model model_hooks c.target_provider c.target_model e
          else if c.operation == "set_thinking_level"
          then set_thinking_level thinking_hooks c.target_thinking_level e
          else if c.operation == "set_active_tools"
          then (set_active_tools c.active_tool_names e, none)
          else if c.operation == "set_queue_modes"
          then (custom_entry "queue-modes" (queue_modes c) e, none)
          else if c.operation == "set_plan_mode"
          then (custom_entry "plan-mode" (plan_state c) e, none)
          else if c.operation == "navigate_tree"
          then navigate after_tree c (may_navigate before_tree) e
          else other c e
