-- ===== src/Registry.antt =====
-- The tool registry of internal/engine/runtime.go: which tools a request offers and a call reaches.
pub mod Extensions
pub mod PlanMode
use ergo_agent.Prelude.{
  String, Bool, true, false, not, Option, none, some, value_or, is_some, List, [], ◌∷◌, ◌++◌, map,
  filter, ◌==◌, if◌then◌else◌, contains, lookup, insert,
}

-- `ToolDefinition` of tool/tool.go: the fields that the registry reads, and the others in `rest`.
pub record ToolDefinition (R : Type 0) : Type 0 where
  pub name : String
  pub execution_mode : String
  pub rest : R

module _ {R : Type 0} where
  unfoldable pub find_tool : List (ToolDefinition R) → String → Option (ToolDefinition R)
  find_tool [] name = none
  find_tool (t ∷ tools) name = if t.name == name then some t else find_tool tools name

  unfoldable pub definition_names : List (ToolDefinition R) → List String
  definition_names [] = []
  definition_names (t ∷ tools) = t.name ∷ definition_names tools

  unfoldable pub filter_tools : List (ToolDefinition R) → List String → List (ToolDefinition R)
  filter_tools tools [] = []
  filter_tools tools (n ∷ names) = filter (λ t. contains (n ∷ names) t.name) tools

  -- The first tool of that name is replaced where it stands; a new name goes to the end.
  unfoldable pub upsert_tool : List (ToolDefinition R) → ToolDefinition R → List (ToolDefinition R)
  upsert_tool [] replacement = replacement ∷ []
  upsert_tool (t ∷ tools) replacement =
      if t.name == replacement.name then replacement ∷ tools else t ∷ upsert_tool tools replacement

  -- The loop of `extensionTools` over `order` and the map `byName`.
  unfoldable pub register :
      List String
      → List (String × ToolDefinition R)
      → List (ToolDefinition R)
      → List String × List (String × ToolDefinition R)
  register order by_name [] = (order, by_name)
  register order by_name (t ∷ tools) =
      register (if is_some (lookup t.name by_name) then order else order ++ t.name ∷ [])
        (insert t.name t by_name) tools

  -- A missing key of `byName` would give the zero definition.
  unfoldable pub collect :
      ToolDefinition R → List (String × ToolDefinition R) → List String → List (ToolDefinition R)
  collect zero by_name [] = []
  collect zero by_name (n ∷ order) = value_or zero (lookup n by_name) ∷ collect zero by_name order

  unfoldable pub extension_tools :
      ToolDefinition R → List (ToolDefinition R) → List (ToolDefinition R)
  extension_tools zero tools =
      let (order, by_name) = register [] [] tools in collect zero by_name order

unfoldable pub expand_tools : List String → List String → List String
expand_tools [] mcp = []
expand_tools (n ∷ names) mcp =
    let rest = expand_tools names mcp in if n == "mcp:*" then mcp ++ rest else n ∷ rest

abbrev pub plan_disabled : List String
plan_disabled = "edit" ∷ "write" ∷ "generate_image" ∷ []

abbrev pub plan_required : List String
plan_required = "read" ∷ "bash" ∷ "grep" ∷ "find" ∷ "ls" ∷ "questionnaire" ∷ []

-- The second loop of `planTools`.
unfoldable pub add_missing : List String → List String → List String
add_missing out [] = out
add_missing out (n ∷ names) = add_missing (if contains out n then out else out ++ n ∷ []) names

unfoldable pub plan_tools : List String → List String
plan_tools names = add_missing (filter (λ n. not (contains plan_disabled n)) names) plan_required
