-- ===== src/Compaction/Run.antt =====
-- internal/engine/compaction.go: compactWithReason, with its calls of the provider and of the hooks.
use Prim.Native.String.{◌++◌ as append}
use ergo_agent.Prelude.{
  ℕ, ◌*◌, ◌/◌, String, Bool, true, false, ◌&&◌, Option, none, some, List, [], ◌∷◌, ◌==◌, ◌⊎◌, inl,
  inr, length, if◌then◌else◌,
}
use ergo_agent.Prelude.Int.{ℤ, pos, negsuc, ◌+ℤ◌, ltb_ℤ, int64}
use ergo_agent.Prelude.Text.{join}
use ergo_agent.Json.{
  plain, Value, null, obj, arr, str, num, Items, nil, cons, Fields, end, field, get, put,
}
use ergo_agent.Message.{Message, zero_message}
use ergo_agent.Provider.{Request, Completion, Reply, completed, failed}
use ergo_agent.Session.{Session, branch, append_entry}
use ergo_agent.Compaction.{Preparation, prepare_compaction}
use ergo_agent.Compaction.Context.{encode_messages}
use ergo_agent.Compaction.Tokens.{number}
use ergo_agent.Compaction.Serialize.{
  summarization_system_prompt, summarization_prompt, update_summarization_prompt,
  turn_prefix_summarization_prompt, serialize_conversation, is_filled,
}

abbrev pub first_positive : ℤ → ℤ → ℤ
first_positive a b = if ltb_ℤ (pos 0) a then a else if ltb_ℤ (pos 0) b then b else pos 0

abbrev pub or_default : ℤ → ℕ → ℤ
or_default value default = if ltb_ℤ (pos 0) value then value else pos default

abbrev pub min_ℤ : ℤ → ℤ → ℤ
min_ℤ a b = if ltb_ℤ b a then b else a

-- The quotient of a product, for numbers that are not negative.
abbrev pub fraction : ℤ → ℕ → ℕ → ℤ
fraction (pos n) times over = pos (n * times / over)
fraction (negsuc n) times over = pos 0

abbrev pub int : ℤ → Value
int n = num (record { mantissa = n; scale = 0; form = plain })

abbrev pub texts : List String → Items
texts [] = nil
texts (t ∷ list) = cons (str t) (texts list)

abbrev pub combine_value : Option Value → Value → Value
combine_value none v = v
combine_value (some w) v = int (int64 (number (some w) +ℤ number (some v)))

unfoldable pub combine_into : Fields → Fields → Fields
combine_into result end = result
combine_into result (field k (obj nested) fs) =
    let existing : Fields = elim (get k result) [
      | some (obj old) ↦ combine_into old nested
      | _ ↦ nested
    ] in
    combine_into (put k (obj existing) result) fs
combine_into result (field k v fs) = combine_into (put k (combine_value (get k result) v) result) fs

-- A nil map is `none`; the nested maps are added up too.
unfoldable pub combine_usage_maps : Option Fields → Option Fields → Option Fields
combine_usage_maps none second = second
combine_usage_maps (some a) none = some a
combine_usage_maps (some a) (some b) = some (combine_into a b)

-- What a `BeforeCompact` hook leaves and returns: an error, or the preparation as the hook leaves
-- it behind the pointer of the event, the instructions as the event has them then, those of its
-- decision and whether it cancels.
pub data Advice : Type 0 where
  refused : String → Advice
  advised : Preparation → String → String → Bool → Advice

pub record Compactor (R : Type 0) : Type 0 where
  pub keep_recent : ℤ
  pub reserve : ℤ
  pub max_output_tokens : ℤ
  pub session_id : String
  pub model : String
  pub thinking : String
  pub before : List (Option (Preparation → String → Advice))
  pub after : List (Option (Fields → Option String))
  pub complete : ℕ → Request R → Reply
  pub fresh : ℕ → String × String

-- A step of the compaction: its value or the text of its error.
abbrev pub Attempt : Type 0 → Type 0
Attempt A = String ⊎ A

abbrev pub attempt : {A B : Type 0} → Attempt A → (A → Attempt B) → Attempt B
attempt (inl err) f = inl err
attempt (inr a) f = f a

-- The loop over the hooks: `none` when one cancels, else the preparation and the instructions that
-- they leave.
unfoldable pub consult :
    List (Option (Preparation → String → Advice))
    → Preparation
    → String
    → Attempt (Option (Preparation × String))
consult [] p custom = inr (some (p, custom))
consult (none ∷ hooks) p custom = consult hooks p custom
consult (some hook ∷ hooks) p custom = elim (hook p custom) [
  | refused err ↦ inl err
  | advised p' event decision cancel ↦ elim cancel [
    | true ↦ inr none
    | false ↦ consult hooks p' (if decision == "" then event else decision)
  ]
]

abbrev pub answered : Reply → Attempt Completion
answered (completed completion) = inr completion
answered (failed failure) = inl failure.text

abbrev pub file_list : String → List String → String
file_list tag [] = ""
file_list tag (path ∷ paths) =
    append (append "\n\n<" (append tag ">\n"))
      (append (join "\n" (path ∷ paths)) (append "\n</" (append tag ">")))

abbrev pub with_files : Preparation → String → String
with_files p summary =
    append summary
      (append (file_list "read-files" p.read_files) (file_list "modified-files" p.modified_files))

abbrev pub map_value : Option Fields → Value
map_value none = null
map_value (some fs) = obj fs

abbrev pub items_value : Option Items → Value
items_value none = null
items_value (some vs) = arr vs

unfoldable pub compaction_payload : Preparation → String → Option Fields → Fields
compaction_payload p summary usage = field "summary" (str summary) (
    field "firstKeptEntryId" (str p.first_kept_id) (
      field "retainedTail" (items_value (encode_messages p.retained_tail)) (
        field "tokensBefore" (int p.tokens_before) (
          field "usage" (map_value usage) (
            field "details"
              (obj (
                field "readFiles" (arr (texts p.read_files))
                  (field "modifiedFiles" (arr (texts p.modified_files)) end)))
              end)))))

-- The loop over the hooks after a compaction.
unfoldable pub report : List (Option (Fields → Option String)) → Fields → Attempt Bool
report [] entry = inr true
report (none ∷ hooks) entry = report hooks entry
report (some hook ∷ hooks) entry = elim (hook entry) [
  | some err ↦ inl err
  | none ↦ report hooks entry
]

abbrev pub magnitude : ℤ → ℕ
magnitude (pos n) = n
magnitude (negsuc n) = 0

-- Whether the summary was appended, or the text of an error, and the session.
abbrev pub Compacted : Type 0
Compacted = Attempt Bool × Session

module _ {R : Type 0} (parse_time : String → Option ℤ) (raw : Option Value → String)
    (raw_length : Option Value → ℕ) (c : Compactor R) where
  abbrev pub summary_request : List Message → String → String → ℤ → Request R
  summary_request messages previous instructions max_tokens = record {
    session_id = c.session_id;
    model = c.model;
    system = summarization_system_prompt;
    messages =
        record zero_message {
          role = "user";
          content = append (append "<conversation>\n" (serialize_conversation raw messages)) (
              append "\n</conversation>\n\n" (
                append
                  (if previous == ""
                    then ""
                    else append "<previous-summary>\n"
                        (append previous "\n</previous-summary>\n\n"))
                  instructions));
        }
        ∷ [];
    tools = [];
    thinking_level = c.thinking;
    max_tokens = min_ℤ max_tokens (first_positive c.max_output_tokens max_tokens);
  }

  abbrev pub summarize : ℕ → List Message → String → String → ℤ → Attempt Completion
  summarize i messages previous instructions max_tokens =
      answered (c.complete i (summary_request messages previous instructions max_tokens))

  abbrev pub base_prompt : Preparation → String → String
  base_prompt p custom =
      let base =
        if p.previous_summary == "" then summarization_prompt else update_summarization_prompt in
      if custom == "" then base else append base (append "\n\nAdditional focus: " custom)

  -- The summary of what stands before the turn that is split.
  unfoldable pub history_of : Preparation → String → ℤ → Attempt (String × Option Fields)
  history_of p base reserve =
      if is_filled p.messages
      then attempt (summarize 0 p.messages p.previous_summary base (fraction reserve 8 10))
          (λ completion. inr (completion.text, completion.usage))
      else inr ("No prior history.", none)

  unfoldable pub split_summary : Preparation → String → ℤ → Attempt (String × Option Fields)
  split_summary p base reserve = attempt (history_of p base reserve) λ history.
      attempt (summarize 1 p.turn_prefix "" turn_prefix_summarization_prompt (fraction reserve 1 2))
        λ prefix. inr (
          append history.0 (append "\n\n---\n\n**Turn Context (split turn):**\n\n" prefix.text),
          combine_usage_maps history.1 prefix.usage,
        )

  unfoldable pub summary_of : Preparation → String → ℤ → Attempt (String × Option Fields)
  summary_of p base reserve =
      if p.split_turn && is_filled p.turn_prefix
      then split_summary p base reserve
      else attempt (summarize 0 p.messages p.previous_summary base (fraction reserve 8 10))
          λ completion. inr (completion.text, completion.usage)

  unfoldable pub append_compaction : Fields → Session → Session
  append_compaction entry session =
      let (id, timestamp) = c.fresh (length session.entries) in
      append_entry session id timestamp "compaction" entry

  unfoldable pub after_summary :
      Preparation → Attempt (String × Option Fields) → Session → Compacted
  after_summary p (inl err) session = (inl err, session)
  after_summary p (inr (summary, usage)) session =
      let entry = compaction_payload p (with_files p summary) usage in
      (report c.after entry, append_compaction entry session)

  unfoldable pub after_consult : Attempt (Option (Preparation × String)) → Session → Compacted
  after_consult (inl err) session = (inl err, session)
  after_consult (inr none) session = (inr false, session)
  after_consult (inr (some (p, custom))) session =
      after_summary p (summary_of p (base_prompt p custom) (or_default c.reserve 16384)) session

  unfoldable pub after_preparation : Option Preparation → String → Session → Compacted
  after_preparation none custom session = (inr false, session)
  after_preparation (some p) custom session = after_consult (consult c.before p custom) session

  unfoldable pub compact_with_reason : String → Session → Compacted
  compact_with_reason custom session =
      after_preparation
        (prepare_compaction parse_time raw_length (branch session)
          (magnitude (or_default c.keep_recent 20000)))
        custom session
