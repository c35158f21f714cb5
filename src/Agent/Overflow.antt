-- ===== src/Agent/Overflow.antt =====
-- internal/engine/runtime.go: isContextOverflowError and isContextOverflowMessage.
use ergo_agent.Prelude.{
  String, Bool, false, not, ◌&&◌, ◌||◌, Option, none, some, List, [], ◌∷◌, ◌==◌, eqb, if◌then◌else◌,
}
use ergo_agent.Prelude.Int.{ℤ, pos, ◌+ℤ◌, ◌*ℤ◌, ltb_ℤ, int64}
use ergo_agent.Prelude.Text.{contains_text, is_blank}
use ergo_agent.Message.{Message}
use ergo_agent.Provider.{HttpError, Failure}
use ergo_agent.Compaction.Tokens.{number, read}

abbrev pub context_overflow_patterns : List String
context_overflow_patterns =
    "(?i)prompt is too long" ∷ "(?i)request_too_large" ∷ "(?i)input is too long for requested model"
    ∷ "(?i)exceeds (?:the )?context window"
    ∷ "(?i)exceeds (?:the )?(?:model'?s )?maximum context length"
    ∷ "(?i)input token count.*exceeds the maximum" ∷ "(?i)maximum prompt length is \\d+"
    ∷ "(?i)reduce the length of the messages" ∷ "(?i)maximum context length is \\d+ tokens"
    ∷ "(?i)exceeds the available context size" ∷ "(?i)greater than the context length"
    ∷ "(?i)context window exceeds limit" ∷ "(?i)exceeded model token limit"
    ∷ "(?i)model_context_window_exceeded" ∷ "(?i)context[_ ]length[_ ]exceeded"
    ∷ "(?i)too many tokens" ∷ "(?i)token limit exceeded" ∷ "(?i)range of input length should be"
    ∷ []

abbrev pub excluded_texts : List String
excluded_texts =
    "rate limit" ∷ "too many requests" ∷ "throttling error" ∷ "service unavailable" ∷ []

abbrev pub any_text : (String → Bool) → List String → Bool
any_text test [] = false
any_text test (t ∷ texts) = test t || any_text test texts

-- The error of a provider whose answer had no body.
abbrev pub is_bodiless : Option HttpError → Bool
is_bodiless none = false
is_bodiless (some e) = (eqb e.status_code 400 || eqb e.status_code 413) && is_blank e.body

-- `matches` is a regular expression at a text, `lower` is strings.ToLower.
unfoldable pub is_context_overflow_error :
    (String → String → Bool) → (String → String) → Failure → Bool
is_context_overflow_error matches lower failure =
    not (any_text (λ t. contains_text (lower failure.text) t) excluded_texts)
    && (any_text (λ pattern. matches pattern failure.text) context_overflow_patterns
        || is_bodiless failure.http)

-- An input of at least 0.99 of the window, as whole numbers.
unfoldable pub is_context_overflow_message : Message → ℤ → Bool
is_context_overflow_message m window =
    let input = int64 (number (read "input" m.usage) +ℤ number (read "cacheRead" m.usage)) in
    ltb_ℤ (pos 0) window
    && (if m.stop_reason == "stop"
        then ltb_ℤ window input
        else (m.stop_reason == "length"
            && not (ltb_ℤ (number (read "output" m.usage)) (pos 0))
            && not (ltb_ℤ (pos 0) (number (read "output" m.usage)))
            && not (ltb_ℤ (input *ℤ pos 100) (window *ℤ pos 99))))
