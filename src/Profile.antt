-- ===== src/Profile.antt =====
-- resource/profile.go and `agentRole` of resource/resources.go: the roles of agents, and who may
-- delegate to whom.
pub mod Hierarchy
pub mod Unique
use ergo_agent.Prelude.{
  ℕ, String, contains, Bool, true, false, ◌&&◌, ◌||◌, Option, none, some, List, [], ◌∷◌, ◌++◌, ◌==◌,
  if◌then◌else◌,
}

-- `AgentRole` is a string type: `other` stands for every text that is none of the constants, the
-- zero value included.
pub data AgentRole : Type 0 where
  main sub meta : AgentRole
  other : String → AgentRole

-- The fields of `Agent` that delegation reads.
pub record Agent : Type 0 where
  pub name : String
  pub role : AgentRole
  pub tools : List String
  pub delegates : List String

unfoldable pub can_delegate_agent : AgentRole → AgentRole → Bool
can_delegate_agent main sub = true
can_delegate_agent main meta = true
can_delegate_agent sub meta = true
can_delegate_agent _ _ = false

-- The loop over `caller.Delegates`.
unfoldable pub allows : List String → String → Bool
allows [] target = false
allows (allowed ∷ rest) target = allowed == "*" || allowed == target || allows rest target

unfoldable pub can_delegate_to : Agent → Agent → Bool
can_delegate_to caller target =
    if can_delegate_agent caller.role target.role
    then allows caller.delegates target.name
    else false

-- `role` is the declared text, trimmed and in lower case. `none` is the error.
unfoldable pub agent_role : String → List String → Option AgentRole
unfolding contains
agent_role role tools =
    if role == ""
    then (if contains tools "subagent" then some sub else some meta)
    else if role == "main"
    then some main
    else if role == "sub"
    then some sub
    else if role == "meta"
    then some meta
    else none

-- The loop of `uniqueStrings` over the set `seen` and the result `out`.
pub unique_loop : List String → List String → List String → List String
unique_loop seen out [] = out
unique_loop seen out (v ∷ values) =
    let old = contains seen v in
    unique_loop (if old then seen else v ∷ seen) (if old then out else out ++ v ∷ []) values

unfoldable pub unique_strings : List String → List String
unfolding unique_loop
unique_strings values = unique_loop [] [] values
