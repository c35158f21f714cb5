-- ===== src/Session.antt =====
-- The session of internal/engine/runtime.go: a tree of entries, of which a run sees one branch.
pub mod Walk
pub mod Branch
pub mod Append
pub mod Settings
use ergo_agent.Prelude.{
  ℕ, zero, suc, ◌+◌, String, Bool, true, false, Option, none, some, value_or, or_else, List, [],
  ◌∷◌, ◌++◌, ◌==◌, if◌then◌else◌, contains, length,
}
use ergo_agent.Json.{
  Value, null, str, Fields, end, field, get, put, put_all, string?, string_or_empty, is_text,
}

-- A session entry is a map from texts to values of any type.
abbrev pub Entry : Type 0
Entry = Fields

-- The map `byID`, read at one key: a later entry overwrites an earlier one.
unfoldable pub by_id : List Entry → String → Option Entry
by_id [] id = none
by_id (e ∷ entries) id =
    or_else (by_id entries id) (if is_text (get "id" e) id then some e else none)

abbrev pub parent_of : Entry → String
parent_of e = string_or_empty (get "parentId" e)

-- The loop of `branchEntries`. `out` is the slice `reversed`, read from its end; `none` means that
-- the fuel ran out.
pub walk : ℕ → List Entry → String → List String → List Entry → Option (List Entry)
walk zero entries leaf seen out = none
walk (suc fuel) entries leaf seen out =
    if leaf == ""
    then some out
    else if contains seen leaf
    then some out
    else elim (by_id entries leaf) [
      | none ↦ some out
      | some e ↦ walk fuel entries (parent_of e) (leaf ∷ seen) (e ∷ out)
    ]

unfoldable pub branch_entries : List Entry → String → List Entry
unfolding walk
branch_entries entries leaf =
    if leaf == "" then entries else value_or [] (walk (length entries + 1) entries leaf [] [])

-- The fields `entries` and `leafID` of `execution`.
pub record Session : Type 0 where
  pub entries : List Entry
  pub leaf_id : String

unfoldable pub branch : Session → List Entry
branch s = branch_entries s.entries s.leaf_id

-- The entry that `appendEntry` makes, before the payload: the fresh id and the time are given.
unfoldable pub base_entry : String → String → String → String → Entry
base_entry leaf id timestamp kind =
    let entry =
      field "type" (str kind)
        (field "id" (str id) (field "parentId" null (field "timestamp" (str timestamp) end))) in
    if leaf == "" then entry else put "parentId" (str leaf) entry

unfoldable pub new_entry : String → String → String → String → Fields → Entry
new_entry leaf id timestamp kind payload = put_all payload (base_entry leaf id timestamp kind)

unfoldable pub append_entry : Session → String → String → String → Fields → Session
append_entry s id timestamp kind payload = record {
  entries = s.entries ++ new_entry s.leaf_id id timestamp kind payload ∷ [];
  leaf_id = id;
}
