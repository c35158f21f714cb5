-- ===== src/Compaction/Tokens.antt =====
-- internal/engine/compaction.go: the estimates of tokens and the usage maps.
use Prim.Native.String.{count}
use ergo_agent.Prelude.{
  ℕ, zero, suc, ◌+◌, ◌*◌, ◌/◌, ◌^◌, String, Bool, not, ◌&&◌, Option, none, some, List, [], ◌∷◌,
  ◌==◌, if◌then◌else◌, length,
}
use ergo_agent.Prelude.Int.{ℤ, pos, negsuc, ◌+ℤ◌, ltb_ℤ, int64}
use ergo_agent.Json.{Number, Value, num, Fields, get}
use ergo_agent.Message.{ToolCall, Message}

abbrev pub negated : ℕ → ℤ
negated zero = pos 0
negated (suc n) = negsuc n

-- int(v) of a number: the digits after the point are dropped.
abbrev pub truncated : Number → ℤ
truncated n = elim n.mantissa [
  | pos m ↦ pos (m / 10 ^ n.scale)
  | negsuc m ↦ negated ((m + 1) / 10 ^ n.scale)
]

unfoldable pub number : Option Value → ℤ
number (some (num n)) = int64 (truncated n)
number _ = pos 0

abbrev pub read : String → Option Fields → Option Value
read k none = none
read k (some usage) = get k usage

abbrev pub first_positive_of : List String → Option Fields → Option ℤ
first_positive_of [] usage = none
first_positive_of (k ∷ keys) usage =
    let rest = first_positive_of keys usage in
    let value = number (read k usage) in if ltb_ℤ (pos 0) value then some value else rest

-- int is 64 bits wide.
unfoldable pub usage_tokens : Option Fields → ℤ
usage_tokens usage = elim (first_positive_of ("totalTokens" ∷ "total_tokens" ∷ []) usage) [
  | some value ↦ value
  | none ↦ int64 (
      number (read "input" usage)
      +ℤ number (read "output" usage)
      +ℤ number (read "cacheRead" usage)
      +ℤ number (read "cacheWrite" usage))
]

-- `raw_length` is the number of bytes of the raw JSON text of the arguments.
module _ (raw_length : Option Value → ℕ) where
  abbrev pub call_chars : List ToolCall → ℕ
  call_chars [] = 0
  call_chars (call ∷ calls) = count call.name + raw_length call.arguments + call_chars calls

  unfoldable pub estimate_message_tokens : Message → ℕ
  estimate_message_tokens m =
      (count m.content + count m.thinking + length m.images * 4800 + call_chars m.tool_calls + 3)
      / 4

  unfoldable pub estimate_all : List Message → ℕ
  estimate_all [] = 0
  estimate_all (m ∷ messages) = estimate_message_tokens m + estimate_all messages

  abbrev pub has_usage : Message → Bool
  has_usage m =
      m.role == "assistant"
      && not (m.stop_reason == "aborted")
      && not (m.stop_reason == "error")
      && ltb_ℤ (pos 0) (usage_tokens m.usage)

  -- The loop from the last message: the usage of the last answer and the messages after it.
  unfoldable pub after_usage : List Message → Option (ℤ × List Message)
  after_usage [] = none
  after_usage (m ∷ messages) = elim (after_usage messages) [
    | some found ↦ some found
    | none ↦ if has_usage m then some (usage_tokens m.usage, messages) else none
  ]

  unfoldable pub estimate_context_tokens : List Message → ℤ
  estimate_context_tokens messages = elim (after_usage messages) [
    | none ↦ pos (estimate_all messages)
    | some (last, rest) ↦ last +ℤ pos (estimate_all rest)
  ]
