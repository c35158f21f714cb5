-- ===== src/Operation/Settled.antt =====
-- The operations of internal/engine/runtime.go that change settings, and restoreSettings.
use ergo_agent.Prelude.{
  ℕ, String, Bool, true, false, ◌||◌, ◌≡◌, refl, ap, ◌∙◌, none, List, [], ◌∷◌, ◌==◌, if◌then◌else◌,
  length, Bool-cases, inl, inr, arith, eq_iff,
}
use ergo_agent.Prelude.{Option, ◌⊎◌}
use ergo_agent.Prelude.Int.{ℤ}
use ergo_agent.Message.Codec.{encode_texts}
use ergo_agent.Provider.{Request, Reply}
use ergo_agent.Json.{Value, str, arr, obj, Fields, field, end, get, put, put_all}
use ergo_agent.Session.{Entry, Session, by_id, branch, base_entry, new_entry}
use ergo_agent.Session.Append.{branch_from_leaf, branch-append_entry}
use ergo_agent.Session.Settings.{
  Settings, no_settings, first, restore_entry, restore_custom, restore_from, restore_settings,
  texts_over-encode_texts,
}
use ergo_agent.Session.Settings.PlanMode.{restore_from-append}
use ergo_agent.Operation.{
  Command, Execution, Operated, append_fresh, set_model, set_thinking_level, set_active_tools,
  queue_modes, plan_state, operation,
}

-- The settings that a branch without entries, or with some, has.
abbrev pub settings_of : Session → Settings
settings_of s = restore_settings (branch s)

abbrev pub settings_before : Session → Settings
settings_before s = restore_settings (branch_from_leaf s)

-- What the setting operations are to do to the settings.
abbrev pub is_setting : String → Bool
is_setting name =
    name == "set_model"
    || name == "set_thinking_level"
    || name == "set_active_tools"
    || name == "set_queue_modes"
    || name == "set_plan_mode"

abbrev pub changed : Command → Settings → Settings
changed c s =
    if c.operation == "set_model"
    then record s { provider = c.target_provider; model = c.target_model }
    else if c.operation == "set_thinking_level"
    then record s { thinking = c.target_thinking_level }
    else if c.operation == "set_active_tools"
    then record s { active_tools = c.active_tool_names; active_tools_set = true }
    else if c.operation == "set_queue_modes"
    then record s {
      steering_mode = first c.steering_mode "one-at-a-time";
      follow_up_mode = first c.follow_up_mode "one-at-a-time";
    }
    else if c.operation == "set_plan_mode"
    then record s {
      plan_mode = c.plan_mode;
      plan_executing = c.plan_executing;
      plan_mode_set = true;
    }
    else s

module _ (fresh : ℕ → String × String) (e : Execution)
    (named : ((fresh (length e.session.entries)).0 == "") ≡ false)
    (unused : by_id e.session.entries (fresh (length e.session.entries)).0 ≡ none) where
  -- The entry that the operation appends.
  abbrev entry_of : String → Fields → Entry
  entry_of kind payload =
      new_entry e.session.leaf_id (fresh (length e.session.entries)).0
        (fresh (length e.session.entries)).1 kind payload

  settings-append_fresh :
      (kind : String) (payload : Fields)
      → get "id" payload ≡ none
      → get "parentId" payload ≡ none
      → settings_of (append_fresh fresh kind payload e).session
        ≡ restore_entry (entry_of kind payload) (settings_before e.session)
  unfolding append_fresh restore_settings restore_from
  settings-append_fresh kind payload i p =
      ap restore_settings (branch-append_entry e.session _ _ kind payload named unused i p)
      ∙ restore_from-append (branch_from_leaf e.session) (entry_of kind payload ∷ []) no_settings

  settings-set_model :
      (provider model : String) (s : Settings)
      → restore_entry
          (entry_of "model_change"
            (field "provider" (str provider) (field "modelId" (str model) end)))
          s
        ≡ record s { provider = provider; model = model }
  unfolding restore_entry new_entry base_entry put_all put get
  settings-set_model provider model s = elim (Bool-cases (e.session.leaf_id == "")) [
    | inl h ↦ rw h
    | inr h ↦ rw h
  ]

  settings-set_thinking_level :
      (level : String) (s : Settings)
      → restore_entry (entry_of "thinking_level_change" (field "thinkingLevel" (str level) end)) s
        ≡ record s { thinking = level }
  unfolding restore_entry new_entry base_entry put_all put get
  settings-set_thinking_level level s = elim (Bool-cases (e.session.leaf_id == "")) [
    | inl h ↦ rw h
    | inr h ↦ rw h
  ]

  settings-set_active_tools :
      (names : List String) (s : Settings)
      → restore_entry
          (entry_of "active_tools_change" (field "activeToolNames" (arr (encode_texts names)) end))
          s
        ≡ record s { active_tools = names; active_tools_set = true }
  unfolding restore_entry new_entry base_entry put_all put get
  settings-set_active_tools names s =
      let read = texts_over-encode_texts names s.active_tools in
      elim (Bool-cases (e.session.leaf_id == "")) [ inl h ↦ rw (h, read) | inr h ↦ rw (h, read) ]

  settings-queue_modes :
      (c : Command) (s : Settings)
      → restore_entry
          (entry_of "custom"
            (field "customType" (str "queue-modes") (field "data" (obj (queue_modes fresh c)) end)))
          s
        ≡ record s {
          steering_mode = first c.steering_mode "one-at-a-time";
          follow_up_mode = first c.follow_up_mode "one-at-a-time";
        }
  unfolding restore_entry restore_custom new_entry base_entry put_all put get
  settings-queue_modes c s = elim (Bool-cases (e.session.leaf_id == "")) [
    | inl h ↦ rw h
    | inr h ↦ rw h
  ]

  settings-plan_state :
      (c : Command) (s : Settings)
      → restore_entry
          (entry_of "custom"
            (field "customType" (str "plan-mode") (field "data" (obj (plan_state fresh c)) end)))
          s
        ≡ record s {
          plan_mode = c.plan_mode;
          plan_executing = c.plan_executing;
          plan_mode_set = true;
        }
  unfolding restore_entry restore_custom new_entry base_entry put_all put get
  settings-plan_state c s = elim (Bool-cases (e.session.leaf_id == "")) [
    | inl h ↦ rw h
    | inr h ↦ rw h
  ]

  module _ {R : Type 0} (parse_time : String → Option ℤ) (raw : Option Value → String)
      (provider_error : Option String) (complete : Request R → Reply)
      (emit_error : String → Option String)
      (model_hooks thinking_hooks after_tree : List (Option (Option String)))
      (before_tree : List (Option (String ⊎ Bool))) (other : Command → Execution → Operated) where
    abbrev after : Command → Session
    after c =
        (operation fresh parse_time raw provider_error complete emit_error model_hooks
          thinking_hooks after_tree before_tree other c e).0.session

    at_set_model :
        (c : Command)
        → c.operation ≡ "set_model"
        → settings_of (after c) ≡ changed c (settings_before e.session)
    unfolding operation set_model append_fresh get
    at_set_model c h = rw h (
        settings-append_fresh "model_change" _ refl refl
        ∙ settings-set_model c.target_provider c.target_model _)

    at_set_thinking_level :
        (c : Command)
        → c.operation ≡ "set_thinking_level"
        → settings_of (after c) ≡ changed c (settings_before e.session)
    unfolding operation set_thinking_level append_fresh get
    at_set_thinking_level c h = rw h (
        settings-append_fresh "thinking_level_change" _ refl refl
        ∙ settings-set_thinking_level c.target_thinking_level _)

    at_set_active_tools :
        (c : Command)
        → c.operation ≡ "set_active_tools"
        → settings_of (after c) ≡ changed c (settings_before e.session)
    unfolding operation set_active_tools append_fresh get
    at_set_active_tools c h = rw h (
        settings-append_fresh "active_tools_change" _ refl refl
        ∙ settings-set_active_tools c.active_tool_names _)

    at_set_queue_modes :
        (c : Command)
        → c.operation ≡ "set_queue_modes"
        → settings_of (after c) ≡ changed c (settings_before e.session)
    unfolding operation append_fresh get
    at_set_queue_modes c h =
        rw h (settings-append_fresh "custom" _ refl refl ∙ settings-queue_modes c _)

    at_set_plan_mode :
        (c : Command)
        → c.operation ≡ "set_plan_mode"
        → settings_of (after c) ≡ changed c (settings_before e.session)
    unfolding operation append_fresh get
    at_set_plan_mode c h =
        rw h (settings-append_fresh "custom" _ refl refl ∙ settings-plan_state c _)

    -- An operation that sets the model, the thinking level, the active tools, the queue modes or
    -- the plan mode, under a new id that is not empty, leaves a branch from which restoreSettings
    -- reads the settings that it read before, from the entries up to the leaf, with exactly the
    -- fields of that operation changed to what the command says.
    pub settings-operation :
        (c : Command)
        → is_setting c.operation ≡ true
        → settings_of (after c) ≡ changed c (settings_before e.session)
    settings-operation c h = elim (Bool-cases (c.operation == "set_model")) [
      | inl a ↦ at_set_model c ((eq_iff c.operation "set_model").0 a)
      | inr a ↦ elim (Bool-cases (c.operation == "set_thinking_level")) [
        | inl b ↦ at_set_thinking_level c ((eq_iff c.operation "set_thinking_level").0 b)
        | inr b ↦ elim (Bool-cases (c.operation == "set_active_tools")) [
          | inl d ↦ at_set_active_tools c ((eq_iff c.operation "set_active_tools").0 d)
          | inr d ↦ elim (Bool-cases (c.operation == "set_queue_modes")) [
            | inl f ↦ at_set_queue_modes c ((eq_iff c.operation "set_queue_modes").0 f)
            | inr f ↦
                let last : (c.operation == "set_plan_mode") ≡ true = ground arith in
                at_set_plan_mode c ((eq_iff c.operation "set_plan_mode").0 last)
          ]
        ]
      ]
    ]
