-- ===== src/Compaction/Effect.antt =====
-- What compactWithReason of internal/engine/compaction.go leaves in the session, and what
-- messagesFromEntries reads from it then.
use ergo_agent.Prelude.{
  ℕ, String, true, false, ◌≡◌, refl, subst, ap, ◌∙◌, Option, none, some, List, [], ◌∷◌, ◌++◌, ◌⊎◌,
  inl, inr, ◌==◌, append-nil, length, Option-cases, arith,
}
use ergo_agent.Prelude.Int.{ℤ}
use ergo_agent.Json.{Value, str, Fields, get, put, put_all, is_text}
use ergo_agent.Json.Laws.{get-put, get-put_all}
use ergo_agent.Message.{Message}
use ergo_agent.Session.{Entry, by_id, Session, branch, base_entry, new_entry}
use ergo_agent.Session.Append.{branch_from_leaf, branch-append_entry}
use ergo_agent.Compaction.{Preparation, prepare_compaction}
use ergo_agent.Compaction.Entries.{
  has_type, last_index, compaction_head, messages_from_entries, context_of,
}
use ergo_agent.Compaction.Context.{
  encode_messages, are_storable, elements-encode_messages, messages_from_entries-compacted,
}
use ergo_agent.Compaction.Run.{
  Compactor, Compacted, Attempt, consult, summary_of, base_prompt, with_files, compaction_payload,
  report, append_compaction, after_summary, after_consult, after_preparation, compact_with_reason,
  or_default, magnitude, items_value,
}

module _ {R : Type 0} (parse_time : String → Option ℤ) (raw : Option Value → String)
    (raw_length : Option Value → ℕ) (c : Compactor R) where
  -- The summary was appended, for what the preparation keeps.
  abbrev pub Appended : Preparation → Session → Session → Type 0
  Appended p session after =
      (summary : String) × (usage : Option Fields) × (after
        ≡ append_compaction parse_time raw raw_length c (compaction_payload p summary usage)
            session)

  -- An error stands before the summary was appended, or comes from a hook after that.
  abbrev pub Effect : Preparation → Session → Compacted → Type 0
  Effect p session (inr true, after) = Appended p session after
  Effect p session (inr false, after) = after ≡ session
  Effect p session (inl err, after) = (after ≡ session) ⊎ Appended p session after

  report-Effect :
      (hooks : List (Option (Fields → Option String))) (entry : Fields) (p : Preparation)
      (session after : Session)
      → Appended p session after
      → Effect p session (report hooks entry, after)
  unfolding report
  report-Effect [] entry p session after h = h
  report-Effect (none ∷ hooks) entry p session after h = report-Effect hooks entry p session after h
  report-Effect (some hook ∷ hooks) entry p session after h = elim (Option-cases (hook entry)) [
    | inl n ↦ rw n (report-Effect hooks entry p session after h)
    | inr (err, e) ↦ rw e (inr h)
  ]

  after_summary-Effect :
      (p : Preparation) (s : Attempt (String × Option Fields)) (session : Session)
      → Effect p session (after_summary parse_time raw raw_length c p s session)
  unfolding after_summary
  after_summary-Effect p (inl err) session = inl refl
  after_summary-Effect p (inr (summary, usage)) session =
      let entry = compaction_payload p (with_files p summary) usage in
      report-Effect c.after entry p session
        (append_compaction parse_time raw raw_length c entry session)
        (with_files p summary, usage, refl)

  after_consult-Effect :
      (p : Preparation) (custom : String) (session : Session)
      → Effect p session
          (after_consult parse_time raw raw_length c (inr (some (p, custom))) session)
  unfolding after_consult
  after_consult-Effect p custom session =
      after_summary-Effect p
        (summary_of parse_time raw raw_length c p (base_prompt parse_time raw raw_length c p custom)
          (or_default c.reserve 16384))
        session

  abbrev pub kept : ℕ
  kept = magnitude (or_default c.keep_recent 20000)

  compact_with_reason-Effect :
      (custom : String) (p left : Preparation) (focus : String) (session : Session)
      → prepare_compaction parse_time raw_length (branch session) kept ≡ some p
      → consult c.before p custom ≡ inr (some (left, focus))
      → Effect left session (compact_with_reason parse_time raw raw_length c custom session)
  unfolding compact_with_reason after_preparation
  compact_with_reason-Effect custom p left focus session h consulted =
      rw h (rw consulted (after_consult-Effect left focus session))

-- The entry of a compaction.
module _ (leaf id timestamp : String) (p : Preparation) (summary : String)
    (usage : Option Fields) where
  payload : Fields
  payload = compaction_payload p summary usage

  compaction-entry : Entry
  compaction-entry = new_entry leaf id timestamp "compaction" payload

  type-compaction : has_type compaction-entry "compaction" ≡ true
  unfolding compaction-entry new_entry base_entry compaction_payload payload get put
  type-compaction =
      let base = base_entry leaf id timestamp "compaction" in
      let kind : get "type" base ≡ some (str "compaction") = ground arith in
      ap (λ o. is_text o "compaction") (get-put_all "type" payload base refl ∙ kind)

  retained-compaction :
      get "retainedTail" compaction-entry ≡ some (items_value (encode_messages p.retained_tail))
  unfolding compaction-entry new_entry compaction_payload payload put_all get
  retained-compaction =
      get-put "details" "retainedTail" _ _
      ∙ get-put "usage" "retainedTail" _ _
      ∙ get-put "tokensBefore" "retainedTail" _ _
      ∙ get-put "retainedTail" "retainedTail" _ _

module _ {R : Type 0} (parse_time : String → Option ℤ) (raw : Option Value → String)
    (raw_length : Option Value → ℕ) (c : Compactor R) where
  branch-append_compaction :
      (p : Preparation) (session after : Session)
      (fresh_id : ((c.fresh (length session.entries)).0 == "") ≡ false)
      → by_id session.entries (c.fresh (length session.entries)).0 ≡ none
      → Appended parse_time raw raw_length c p session after
      → (e : Entry) × (has_type e "compaction" ≡ true)
        × (get "retainedTail" e ≡ some (items_value (encode_messages p.retained_tail)))
        × (branch after ≡ branch_from_leaf session ++ e ∷ [])
  unfolding append_compaction compaction-entry payload compaction_payload get
  branch-append_compaction p session after named unused (summary, usage, a) =
      let (id, timestamp) = c.fresh (length session.entries) in
      (
        compaction-entry session.leaf_id id timestamp p summary usage,
        type-compaction session.leaf_id id timestamp p summary usage,
        retained-compaction session.leaf_id id timestamp p summary usage,
        ap branch a
            ∙ branch-append_entry session id timestamp "compaction"
                (compaction_payload p summary usage) named unused refl refl,
      )

  -- When compactWithReason prepares a compaction and reports it, the BeforeCompact hooks leave a
  -- preparation whose retained tail is a list of storable messages that is not empty, and the id of
  -- the new entry is new and not empty, the branch is one entry behind the branch that the session
  -- had from its leaf, and messagesFromEntries gives the summary of that entry followed by exactly
  -- the retained tail that the hooks leave.
  pub compact_with_reason-messages :
      (custom focus : String) (session : Session) (p left : Preparation) (m : Message)
      (tail : List Message)
      → ((c.fresh (length session.entries)).0 == "") ≡ false
      → by_id session.entries (c.fresh (length session.entries)).0 ≡ none
      → prepare_compaction parse_time raw_length (branch session) (kept parse_time raw raw_length c)
        ≡ some p
      → consult c.before p custom ≡ inr (some (left, focus))
      → left.retained_tail ≡ m ∷ tail
      → are_storable (m ∷ tail) ≡ true
      → (compact_with_reason parse_time raw raw_length c custom session).0 ≡ inr true
      → (e : Entry) × (branch (compact_with_reason parse_time raw raw_length c custom session).1
          ≡ branch_from_leaf session ++ e ∷ [])
        × (messages_from_entries parse_time
              (branch (compact_with_reason parse_time raw raw_length c custom session).1)
            ≡ compaction_head parse_time e ++ m ∷ tail)
  compact_with_reason-messages custom focus session p left m tail named unused prepared consulted t
        storable done =
      let effect =
        compact_with_reason-Effect parse_time raw raw_length c custom p left focus session prepared
          consulted in
      let (result, after) = compact_with_reason parse_time raw raw_length c custom session in
      let appended : Appended parse_time raw raw_length c left session after =
        subst (λ r. Effect parse_time raw raw_length c left session (r, after)) done effect in
      let (e, type, retained, b) =
        branch-append_compaction left session after named unused appended in
      let (vs, written, read) = elements-encode_messages (m ∷ tail) storable in
      (
        e,
        b,
        ap (messages_from_entries parse_time) b
            ∙ messages_from_entries-compacted parse_time (branch_from_leaf session) [] e m tail vs
                type (unfold last_index in refl) (retained ∙ cc (t, written)) written storable
            ∙ (unfold context_of in
                ap (λ r. compaction_head parse_time e ++ r) (append-nil (m ∷ tail))),
      )
