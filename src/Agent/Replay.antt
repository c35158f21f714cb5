-- ===== src/Agent/Replay.antt =====
-- What a session gives back when messages were appended to it: `appendMessage` and
-- messagesFromEntries of internal/engine/runtime.go, for a branch without compactions.
use ergo_agent.Prelude.{
  ℕ, ◌≤◌, ◌<◌, String, Bool, false, ◌≡◌, refl, sym, ap, ◌∙◌, Option, none, some, List, [], ◌∷◌,
  ◌++◌, append-nil, append_assoc, arith, ◌==◌, eq_iff, length, length-snoc,
}
use ergo_agent.Prelude.Int.{ℤ}
use ergo_agent.Json.{Value, str, Fields, end, field, get, put, put_all}
use ergo_agent.Json.Laws.{get-put, get-put_all}
use ergo_agent.Message.{Message}
use ergo_agent.Session.{Entry, by_id, Session, branch, base_entry, new_entry, append_entry}
use ergo_agent.Session.Append.{branch_from_leaf, by_id-snoc, id-new_entry, branch-append_entry}
use ergo_agent.Controls.{append_message}
use ergo_agent.Compaction.Entries.{
  has_type, last_index, option_list, stored_message, entry_message, context_message, context_of,
  messages_from_entries,
}
use ergo_agent.Agent.{encode}

-- A message as it is read back from the session: not at all when it has no role.
abbrev pub reread : (String → Option ℤ) → Message → List Message
reread parse_time m = option_list (stored_message parse_time (encode m))

abbrev pub reread_all : (String → Option ℤ) → List Message → List Message
reread_all parse_time [] = []
reread_all parse_time (m ∷ messages) = reread parse_time m ++ reread_all parse_time messages

pub reread_all-append :
    (parse_time : String → Option ℤ) (a b : List Message)
    → reread_all parse_time (a ++ b) ≡ reread_all parse_time a ++ reread_all parse_time b
reread_all-append parse_time [] b = refl
reread_all-append parse_time (m ∷ a) b =
    ap (λ rest. reread parse_time m ++ rest) (reread_all-append parse_time a b)
    ∙ sym (append_assoc (reread parse_time m) (reread_all parse_time a) (reread_all parse_time b))

last_index-snoc :
    {A : Type 0} (test : A → Bool) (list : List A) (a : A)
    → last_index test list ≡ none
    → test a ≡ false
    → last_index test (list ++ a ∷ []) ≡ none
unfolding last_index
last_index-snoc test [] a h t = ground arith
last_index-snoc test (b ∷ list) a h t = ground (arith, last_index-snoc test list a)

context_of-snoc :
    (parse_time : String → Option ℤ) (entries : List Entry) (e : Entry)
    → context_of parse_time (entries ++ e ∷ [])
      ≡ context_of parse_time entries ++ context_message parse_time e
unfolding context_of
context_of-snoc parse_time [] e = append-nil (context_message parse_time e)
context_of-snoc parse_time (d ∷ entries) e =
    ap (λ rest. context_message parse_time d ++ rest) (context_of-snoc parse_time entries e)
    ∙ sym (
        append_assoc (context_message parse_time d) (context_of parse_time entries)
          (context_message parse_time e))

-- The members of an entry that appendMessage makes are not among the extra ones.
pub record IsExtra (extra : Fields) : Type 0 where
  pub no_id : get "id" extra ≡ none
  pub no_parent : get "parentId" extra ≡ none
  pub no_type : get "type" extra ≡ none
  pub no_message : get "message" extra ≡ none

module _ (extra : Fields) (apart : IsExtra extra) (v : Value) where
  payload : Fields
  payload = put_all extra (field "message" v end)

  get-payload : (k : String) → get k extra ≡ none → get k payload ≡ get k (field "message" v end)
  unfolding payload
  get-payload k h = get-put_all k extra (field "message" v end) h

  module _ (leaf id timestamp : String) where
    type-entry : get "type" (new_entry leaf id timestamp "message" payload) ≡ some (str "message")
    unfolding new_entry base_entry get put
    type-entry =
        get-put_all "type" payload (base_entry leaf id timestamp "message")
          (get-payload "type" apart.no_type)
        ∙ ground arith

put_all-field :
    (k : String) (v : Value) (extra fs : Fields)
    → get k extra ≡ none
    → put_all extra (field k v fs) ≡ field k v (put_all extra fs)
unfolding put_all put get
put_all-field k v end fs h = refl
put_all-field k v (field j w extra) fs h =
    ap (put_all extra) {x = put j w (field k v fs)} {y = field k v (put j w fs)}
      (ground (arith, eq_iff k j, eq_iff j k))
    ∙ put_all-field k v extra (put j w fs) (ground arith)

message-entry :
    (extra : Fields) (v : Value) (leaf id timestamp : String)
    → get "message" extra ≡ none
    → get "message" (new_entry leaf id timestamp "message" (put_all extra (field "message" v end)))
      ≡ some v
unfolding new_entry
message-entry extra v leaf id timestamp h =
    let base = base_entry leaf id timestamp "message" in
    let rest = put_all extra end in
    let absent : get "message" rest ≡ none =
      get-put_all "message" extra end h ∙ (unfold get in refl) in
    let first : put_all (field "message" v rest) base ≡ put_all rest (put "message" v base) =
      unfold put_all in refl in
    ap (λ p. get "message" (put_all p base)) (put_all-field "message" v extra end h)
    ∙ ap (get "message") first
    ∙ get-put_all "message" rest (put "message" v base) absent
    ∙ get-put "message" "message" v base

-- A session whose branch has no compaction, in which the ids that are still to come are new.
pub record IsLive (fresh : ℕ → String × String) (s : Session) : Type 0 where
  pub unused : (n : ℕ) → length s.entries ≤ n → by_id s.entries (fresh n).0 ≡ none
  pub rooted : branch_from_leaf s ≡ branch s
  pub uncompacted : last_index (λ e. has_type e "compaction") (branch s) ≡ none

module _ (parse_time : String → Option ℤ) (fresh : ℕ → String × String)
    (named : (n : ℕ) → ((fresh n).0 == "") ≡ false)
    (distinct : (m n : ℕ) → m < n → ((fresh m).0 == (fresh n).0) ≡ false) where
  unfoldable pub replay : Session → List Message
  replay s = messages_from_entries parse_time (branch s)

  module _ (m : Message) (extra : Fields) (apart : IsExtra extra) (s : Session)
      (live : IsLive fresh s) where
    entry : Entry
    entry =
        new_entry s.leaf_id (fresh (length s.entries)).0 (fresh (length s.entries)).1 "message"
          (put_all extra (field "message" (encode m) end))

    branch-append_message : branch (append_message encode fresh m extra s) ≡ branch s ++ entry ∷ []
    unfolding append_message entry put_all payload get
    branch-append_message =
        branch-append_entry s (fresh (length s.entries)).0 (fresh (length s.entries)).1 "message"
          (put_all extra (field "message" (encode m) end)) (named (length s.entries))
          (live.unused (length s.entries) (omega arith))
          (get-payload extra apart (encode m) "id" apart.no_id)
          (get-payload extra apart (encode m) "parentId" apart.no_parent)
        ∙ ap (λ b. b ++ entry ∷ []) live.rooted

    entry-type : get "type" entry ≡ some (str "message")
    unfolding entry payload
    entry-type =
        type-entry extra apart (encode m) s.leaf_id (fresh (length s.entries)).0
          (fresh (length s.entries)).1

    append_message-unused :
        (n : ℕ)
        → length (append_message encode fresh m extra s).entries ≤ n
        → by_id (append_message encode fresh m extra s).entries (fresh n).0 ≡ none
    unfolding append_message append_entry entry put_all payload get
    append_message-unused n h =
        let k = length s.entries in
        let longer : k < n = omega (arith, length-snoc s.entries entry) in
        let id : get "id" entry ≡ some (str (fresh k).0) =
          id-new_entry s.leaf_id (fresh k).0 (fresh k).1 "message"
            (put_all extra (field "message" (encode m) end))
            (get-payload extra apart (encode m) "id" apart.no_id)
            (get-payload extra apart (encode m) "parentId" apart.no_parent) in
        by_id-snoc s.entries entry (fresh n).0
        ∙ cc (id, distinct k n longer, live.unused n (omega arith))

    append_message-rooted :
        branch_from_leaf (append_message encode fresh m extra s)
        ≡ branch (append_message encode fresh m extra s)
    unfolding append_message append_entry
    append_message-rooted = cc (named (length s.entries))

    pub append_message-IsLive : IsLive fresh (append_message encode fresh m extra s)
    append_message-IsLive = record {
      unused = append_message-unused;
      rooted = append_message-rooted;
      uncompacted =
          ap (last_index (λ e. has_type e "compaction")) branch-append_message
          ∙ last_index-snoc (λ e. has_type e "compaction") (branch s) entry live.uncompacted
              (cc entry-type);
    }

    context-entry : context_message parse_time entry ≡ reread parse_time m
    unfolding context_message entry_message
    context-entry =
        let message : get "message" entry ≡ some (encode m) =
          unfold entry in
          message-entry extra (encode m) s.leaf_id (fresh (length s.entries)).0
            (fresh (length s.entries)).1 apart.no_message in
        cc (entry-type, message)

    -- A message that is appended is read back after those that the session gave before.
    pub replay-append_message :
        replay (append_message encode fresh m extra s) ≡ replay s ++ reread parse_time m
    unfolding replay messages_from_entries
    replay-append_message =
        let after = append_message-IsLive.uncompacted in
        cc (
          live.uncompacted,
          after,
          branch-append_message,
          context_of-snoc parse_time (branch s) entry,
          context-entry,
        )
