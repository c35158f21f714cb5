-- ===== src/Compaction/Serialize.antt =====
-- internal/engine/compaction.go: the texts that ask for a summary, and the conversation as a text.
use Prim.Native.String.{count, ◌++◌ as append}
use ergo_agent.Prelude.{
  ℕ, ◌-◌, String, Bool, true, false, not, ◌&&◌, Option, List, [], ◌∷◌, ◌++◌, map, ◌==◌, ltb,
  if◌then◌else◌,
}
use ergo_agent.Prelude.Text.{decimal, join, take_runes}
use ergo_agent.Json.{Value}
use ergo_agent.Message.{ToolCall, Message}

abbrev pub summarization_system_prompt : String
summarization_system_prompt =
    "You are a context summarization assistant. Your task is to read a conversation between a user and an AI assistant, then produce a structured summary following the exact format specified.\n\nDo NOT continue the conversation. Do NOT respond to any questions in the conversation. ONLY output the structured summary."

abbrev pub summarization_prompt : String
summarization_prompt =
    "The messages above are a conversation to summarize. Create a structured context checkpoint summary that another LLM will use to continue the work.\n\nUse this EXACT format:\n\n## Goal\n[What is the user trying to accomplish? Can be multiple items if the session covers different tasks.]\n\n## Constraints & Preferences\n- [Any constraints, preferences, or requirements mentioned by user]\n- [Or \"(none)\" if none were mentioned]\n\n## Progress\n### Done\n- [x] [Completed tasks/changes]\n\n### In Progress\n- [ ] [Current work]\n\n### Blocked\n- [Issues preventing progress, if any]\n\n## Key Decisions\n- **[Decision]**: [Brief rationale]\n\n## Next Steps\n1. [Ordered list of what should happen next]\n\n## Critical Context\n- [Any data, examples, or references needed to continue]\n- [Or \"(none)\" if not applicable]\n\nKeep each section concise. Preserve exact file paths, function names, and error messages."

abbrev pub update_summarization_prompt : String
update_summarization_prompt =
    "The messages above are NEW conversation messages to incorporate into the existing summary provided in <previous-summary> tags.\n\nUpdate the existing structured summary with new information. RULES:\n- PRESERVE all existing information from the previous summary\n- ADD new progress, decisions, and context from the new messages\n- UPDATE the Progress section: move items from \"In Progress\" to \"Done\" when completed\n- UPDATE \"Next Steps\" based on what was accomplished\n- PRESERVE exact file paths, function names, and error messages\n- If something is no longer relevant, you may remove it\n\nUse this EXACT format:\n\n## Goal\n[Preserve existing goals, add new ones if the task expanded]\n\n## Constraints & Preferences\n- [Preserve existing, add new ones discovered]\n\n## Progress\n### Done\n- [x] [Include previously done items AND newly completed items]\n\n### In Progress\n- [ ] [Current work - update based on progress]\n\n### Blocked\n- [Current blockers - remove if resolved]\n\n## Key Decisions\n- **[Decision]**: [Brief rationale] (preserve all previous, add new)\n\n## Next Steps\n1. [Update based on current state]\n\n## Critical Context\n- [Preserve important context, add new if needed]\n\nKeep each section concise. Preserve exact file paths, function names, and error messages."

abbrev pub branch_summary_prompt : String
branch_summary_prompt =
    "Create a structured summary of this conversation branch for context when returning later.\n\nUse this EXACT format:\n\n## Goal\n[What was the user trying to accomplish in this branch?]\n\n## Constraints & Preferences\n- [Any constraints, preferences, or requirements mentioned]\n- [Or \"(none)\" if none were mentioned]\n\n## Progress\n### Done\n- [x] [Completed tasks/changes]\n\n### In Progress\n- [ ] [Work that was started but not finished]\n\n### Blocked\n- [Issues preventing progress, if any]\n\n## Key Decisions\n- **[Decision]**: [Brief rationale]\n\n## Next Steps\n1. [What should happen next to continue this work]\n\nKeep each section concise. Preserve exact file paths, function names, and error messages."

abbrev pub turn_prefix_summarization_prompt : String
turn_prefix_summarization_prompt =
    "This is the PREFIX of a turn that was too large to keep. The SUFFIX (recent work) is retained.\n\nSummarize the prefix to provide context for the retained suffix:\n\n## Original Request\n[What did the user ask for in this turn?]\n\n## Early Progress\n- [Key decisions and work done in the prefix]\n\n## Context for Suffix\n- [Information needed to understand the retained recent work]\n\nBe concise. Focus on what's needed to understand the kept suffix."

abbrev pub compaction_tool_result_chars : ℕ
compaction_tool_result_chars = 2000

abbrev pub is_filled : {A : Type 0} → List A → Bool
is_filled [] = false
is_filled (a ∷ list) = true

-- `raw` is the JSON text of the arguments of a call.
module _ (raw : Option Value → String) where
  abbrev pub call_text : ToolCall → String
  call_text call = append call.name (append "(" (append (raw call.arguments) ")"))

  abbrev pub part : Bool → String → String → List String
  part test label text = if test then append label text ∷ [] else []

  -- The text of a message, which is cut for the result of a tool.
  unfoldable pub shown_content : Message → String
  shown_content m =
      if m.role == "tool" && ltb compaction_tool_result_chars (count m.content)
      then append (take_runes compaction_tool_result_chars m.content) (
          append "\n\n[... " (
            append (decimal (count m.content - compaction_tool_result_chars))
              " more characters truncated]"))
      else m.content

  unfoldable pub message_parts : Message → List String
  message_parts m =
      let content = shown_content m in
      if m.role == "user"
      then append "[User]: " content ∷ []
      else if m.role == "assistant"
      then part (not (m.thinking == "")) "[Assistant thinking]: " m.thinking
        ++ part (not (content == "")) "[Assistant]: " content
        ++ part (is_filled m.tool_calls) "[Assistant tool calls]: "
            (join "; " (map call_text m.tool_calls))
      else if m.role == "tool"
      then append "[Tool result]: " content ∷ []
      else []

  abbrev pub all_parts : List Message → List String
  all_parts [] = []
  all_parts (m ∷ messages) = message_parts m ++ all_parts messages

  unfoldable pub serialize_conversation : List Message → String
  serialize_conversation messages = join "\n\n" (all_parts messages)
