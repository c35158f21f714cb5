-- ===== src/Tests/Registration.antt =====
-- Agent profiles and the tool registry on concrete inputs.
use ergo_agent.Prelude.{
  ℕ, ◌≤◌, String, true, false, not, ◌&&◌, ◌||◌, ◌≡◌, refl, some, List, [], ◌∷◌, contains, lookup,
  insert,
}
use ergo_agent.Profile.{
  main, sub, meta, Agent, can_delegate_agent, allows, can_delegate_to, agent_role,
}
use ergo_agent.Profile.Hierarchy.{Delegation, entry, delegate, Delegation-bound}
use ergo_agent.Registry.{
  ToolDefinition, extension_tools, register, collect, plan_disabled, plan_required, plan_tools,
  add_missing,
}
use ergo_agent.Registry.PlanMode.{plan_tools_exact}

abbrev chief : Agent
chief = record { name = "chief-agent"; role = main; tools = []; delegates = "*" ∷ [] }

abbrev coding : Agent
coding = record { name = "coding-agent"; role = sub; tools = []; delegates = "scout" ∷ [] }

abbrev scout : Agent
scout = record { name = "scout"; role = meta; tools = []; delegates = "*" ∷ [] }

chain : Delegation chief (coding ∷ scout ∷ [])
unfolding can_delegate_to can_delegate_agent allows
chain = delegate refl (delegate refl (entry scout))

Delegation-bound_example : (2 ≤ 2) × (main ≡ meta → coding ∷ scout ∷ [] ≡ [])
Delegation-bound_example = Delegation-bound chain

undeclared_role : agent_role "" ("read" ∷ "subagent" ∷ []) ≡ some sub
unfolding agent_role contains
undeclared_role = refl

plan_mode_names :
    plan_tools ("read" ∷ "write" ∷ "todo" ∷ [])
    ≡ "read" ∷ "todo" ∷ "bash" ∷ "grep" ∷ "find" ∷ "ls" ∷ "questionnaire" ∷ []
unfolding plan_tools add_missing contains
plan_mode_names = refl

plan_tools_exact_example :
    (contains (plan_tools ("edit" ∷ [])) "edit" ≡ (
      contains plan_required "edit"
      || (contains ("edit" ∷ []) "edit" && not (contains plan_disabled "edit"))))
    × (contains plan_disabled "edit" ≡ true → contains (plan_tools ("edit" ∷ [])) "edit" ≡ false)
plan_tools_exact_example = plan_tools_exact ("edit" ∷ []) "edit"

abbrev tool : String → ℕ → ToolDefinition ℕ
tool name rest = record { name = name; execution_mode = ""; rest = rest }

abbrev registered : List (ToolDefinition ℕ)
registered = tool "a" 1 ∷ tool "b" 2 ∷ tool "a" 3 ∷ []

last_registration : extension_tools (tool "" 0) registered ≡ tool "a" 3 ∷ tool "b" 2 ∷ []
unfolding extension_tools register collect lookup insert
last_registration = refl
