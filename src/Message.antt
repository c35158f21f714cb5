-- ===== src/Message.antt =====
-- message/message.go: messages, tool calls and images.
pub mod Codec
use ergo_agent.Prelude.{ℕ, String, Bool, false, Option, none, List, []}
use ergo_agent.Prelude.Int.{ℤ, pos}
use ergo_agent.Json.{Value, Fields}

pub record Image : Type 0 where
  pub image_data : String
  pub mime_type : String

-- `arguments` is the value that the raw JSON text denotes, `none` when the text is not JSON. A nil
-- map is `none`.
pub record ToolCall : Type 0 where
  pub id : String
  pub name : String
  pub arguments : Option Value
  pub metadata : Option Fields

pub record Message : Type 0 where
  pub role : String
  pub api : String
  pub provider : String
  pub model : String
  pub timestamp : ℤ
  pub content : String
  pub text_signature : String
  pub thinking : String
  pub thinking_signature : String
  pub tool_call_id : String
  pub tool_name : String
  pub tool_calls : List ToolCall
  pub images : List Image
  pub usage : Option Fields
  pub stop_reason : String
  pub error_message : String
  pub is_error : Bool
  pub added_tool_names : List String

-- The zero values of the structs.
abbrev pub zero_image : Image
zero_image = record { image_data = ""; mime_type = "" }

abbrev pub zero_call : ToolCall
zero_call = record { id = ""; name = ""; arguments = none; metadata = none }

abbrev pub zero_message : Message
zero_message = record {
  role = "";
  api = "";
  provider = "";
  model = "";
  timestamp = pos 0;
  content = "";
  text_signature = "";
  thinking = "";
  thinking_signature = "";
  tool_call_id = "";
  tool_name = "";
  tool_calls = [];
  images = [];
  usage = none;
  stop_reason = "";
  error_message = "";
  is_error = false;
  added_tool_names = [];
}
