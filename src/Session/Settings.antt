-- ===== src/Session/Settings.antt =====
-- internal/engine/runtime.go: the settings that a branch holds, `restoreSettings`, and
-- `effectivePlanMode`.
pub mod PlanMode
use ergo_agent.Prelude.{
  String, Bool, true, false, ◌≡◌, refl, Option, none, some, value_or, List, [], ◌∷◌, ◌++◌, ◌==◌,
  eq_iff, arith, if◌then◌else◌, Bool-cases, inl, inr, ap, ◌∙◌,
}
use ergo_agent.Json.{
  Items, nil, cons, arr, Value, bool, str, obj, null, Fields, end, field, get, string_or_empty,
  is_text,
}
use ergo_agent.Message.{Message}
use ergo_agent.Message.Codec.{decode_message, text_over, encode_texts}
use ergo_agent.Session.{Entry}

pub record Settings : Type 0 where
  pub provider : String
  pub model : String
  pub thinking : String
  pub active_tools : List String
  pub active_tools_set : Bool
  pub steering_mode : String
  pub follow_up_mode : String
  pub plan_mode : Bool
  pub plan_mode_set : Bool
  pub plan_executing : Bool

abbrev pub no_settings : Settings
no_settings = record {
  provider = "";
  model = "";
  thinking = "";
  active_tools = [];
  active_tools_set = false;
  steering_mode = "";
  follow_up_mode = "";
  plan_mode = false;
  plan_mode_set = false;
  plan_executing = false;
}

-- first(a, b)
abbrev pub first : String → String → String
first a b = if a == "" then b else a

abbrev pub flag : Option Value → Bool
flag (some (bool b)) = b
flag _ = false

-- json.Unmarshal goes on after an element that is no text, and leaves what it decodes into: the
-- element of the old slice, behind its length the empty text.
unfoldable pub texts_over : Items → List String → List String
texts_over nil old = []
texts_over (cons v vs) [] = value_or "" (text_over v "") ∷ texts_over vs []
texts_over (cons v vs) (t ∷ old) = value_or t (text_over v t) ∷ texts_over vs old

abbrev pub tools_over : Value → List String → List String
tools_over null old = []
tools_over (arr vs) old = texts_over vs old
tools_over _ old = old

-- What is written is what is read, over any list.
pub texts_over-encode_texts :
    (names old : List String) → texts_over (encode_texts names) old ≡ names
unfolding texts_over
texts_over-encode_texts [] old = refl
texts_over-encode_texts (name ∷ names) [] =
    ap (λ (list : List String). name ∷ list) (texts_over-encode_texts names [])
texts_over-encode_texts (name ∷ names) (t ∷ old) =
    ap (λ (list : List String). name ∷ list) (texts_over-encode_texts names old)

abbrev pub with_tools : Option Value → Settings → Settings
with_tools v s = record s {
  active_tools = tools_over (value_or null v) s.active_tools;
  active_tools_set = true;
}

abbrev pub with_modes : Option Value → Settings → Settings
with_modes (some (obj d)) s = record s {
  steering_mode = string_or_empty (get "steeringMode" d);
  follow_up_mode = string_or_empty (get "followUpMode" d);
}
with_modes _ s = s

abbrev pub with_plan : Option Value → Settings → Settings
with_plan (some (obj d)) s = record s {
  plan_mode = flag (get "enabled" d);
  plan_executing = flag (get "executing" d);
  plan_mode_set = true;
}
with_plan _ s = s

unfoldable pub restore_custom : Entry → Settings → Settings
restore_custom e s =
    if is_text (get "customType" e) "active-tools"
    then with_tools (get "data" e) s
    else if is_text (get "customType" e) "queue-modes"
    then with_modes (get "data" e) s
    else if is_text (get "customType" e) "plan-mode"
    then with_plan (get "data" e) s
    else s

-- An answer tells which model gave it.
abbrev pub from_answer : Option Message → Settings → Settings
from_answer none s = s
from_answer (some m) s =
    if m.role == "assistant"
    then record s { provider = first m.provider s.provider; model = first m.model s.model }
    else s

-- The body of the loop: an entry has one type.
unfoldable pub restore_entry : Entry → Settings → Settings
restore_entry e s =
    if is_text (get "type" e) "model_change"
    then record s {
      provider = string_or_empty (get "provider" e);
      model = string_or_empty (get "modelId" e);
    }
    else if is_text (get "type" e) "thinking_level_change"
    then record s { thinking = string_or_empty (get "thinkingLevel" e) }
    else if is_text (get "type" e) "active_tools_change"
    then with_tools (get "activeToolNames" e) s
    else if is_text (get "type" e) "custom"
    then restore_custom e s
    else if is_text (get "type" e) "message"
    then from_answer (decode_message (value_or null (get "message" e))) s
    else s

unfoldable pub restore_from : List Entry → Settings → Settings
restore_from [] s = s
restore_from (e ∷ entries) s = restore_from entries (restore_entry e s)

unfoldable pub restore_settings : List Entry → Settings
unfolding restore_from
restore_settings entries = restore_from entries no_settings

-- The fields `PlanMode` and `PlanModeSpecified` of the command, and the branch.
unfoldable pub effective_plan_mode : Bool → Bool → List Entry → Bool
effective_plan_mode specified plan_mode branch =
    if specified
    then plan_mode
    else if (restore_settings branch).plan_mode_set
    then (restore_settings branch).plan_mode
    else plan_mode
