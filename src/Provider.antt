-- ===== src/Provider.antt =====
-- provider/provider.go: what a provider is asked and what it answers. The headers of a request and
-- the status of a response are left out.
use ergo_agent.Prelude.{ℕ, String, Bool, Option, List}
use ergo_agent.Prelude.Int.{ℤ}
use ergo_agent.Json.{Fields}
use ergo_agent.Message.{ToolCall, Message}
use ergo_agent.Registry.{ToolDefinition}

pub record Request (R : Type 0) : Type 0 where
  pub session_id : String
  pub model : String
  pub system : String
  pub messages : List Message
  pub tools : List (ToolDefinition R)
  pub thinking_level : String
  pub max_tokens : ℤ

pub record Completion : Type 0 where
  pub text : String
  pub text_signature : String
  pub thinking : String
  pub thinking_signature : String
  pub tool_calls : List ToolCall
  pub usage : Option Fields
  pub stop_reason : String
  pub error_message : String

pub record HttpError : Type 0 where
  pub status_code : ℕ
  pub body : String

-- An error: its text, whether errors.Is finds context.Canceled or context.DeadlineExceeded in it,
-- and the *ProviderHTTPError that errors.As finds in it.
pub record Failure : Type 0 where
  pub text : String
  pub is_context : Bool
  pub http : Option HttpError

pub data Reply : Type 0 where
  completed : Completion → Reply
  failed : Failure → Reply
