-- ===== src/Message/Codec.antt =====
-- What encoding/json makes of the structs of message/message.go by their tags: `json.Marshal` and
-- `json.Unmarshal` over the values of Json. Keys are matched exactly.
pub mod RoundTrip
use ergo_agent.Prelude.{
  bind, ℕ, zero, ◌+◌, ◌*◌, ◌^◌, ◌%◌, ◌/◌, String, Bool, true, false, ◌&&◌, not, Option, none, some,
  List, [], ◌∷◌, ◌==◌, eqb, ltb, leb, if◌then◌else◌,
}
use ergo_agent.Prelude.Int.{ℤ, pos, negsuc}
use ergo_agent.Json.{
  plain, whole_form, Number, Value, null, bool, num, str, arr, obj, Items, nil, cons, Fields, end,
  field,
}
use ergo_agent.Message.{Image, ToolCall, Message, zero_image, zero_call, zero_message}

-- A whole number in the range of int64.
abbrev pub in_int64 : ℤ → Bool
in_int64 (pos n) = ltb n (2 ^ 63)
in_int64 (negsuc n) = ltb n (2 ^ 63)

abbrev pub guard : {A : Type 0} → Bool → A → Option A
guard true a = some a
guard false a = none

-- A value decoded over the old one of a field: null leaves it, or resets a map or a slice.
abbrev pub text_over : Value → String → Option String
text_over null old = some old
text_over (str s) old = some s
text_over _ old = none

abbrev pub bool_over : Value → Bool → Option Bool
bool_over null old = some old
bool_over (bool b) old = some b
bool_over _ old = none

abbrev pub int64_over : Value → ℤ → Option ℤ
int64_over null old = some old
int64_over (num n) old = guard (whole_form n.form n.scale && in_int64 n.mantissa) n.mantissa
int64_over _ old = none

abbrev pub map_of : Value → Option (Option Fields)
map_of null = some none
map_of (obj fs) = some (some fs)
map_of _ = none

module _ {A : Type 0} (element : Value → Option A) where
  abbrev pub elements : Items → Option (List A)
  elements nil = some []
  elements (cons v vs) = bind (element v) λ a. bind (elements vs) λ rest. some (a ∷ rest)

  abbrev pub slice_of : Value → Option (List A)
  slice_of null = some []
  slice_of (arr vs) = elements vs
  slice_of _ = none

-- The loop over the members of an object; a member of an unknown key is passed over.
module _ {A : Type 0} (member : String → Value → A → Option A) where
  unfoldable pub members : Fields → A → Option A
  members end a = some a
  members (field k v fs) a = bind (member k v a) (members fs)

  abbrev pub struct_of : A → Value → Option A
  struct_of blank null = some blank
  struct_of blank (obj fs) = members fs blank
  struct_of blank _ = none

unfoldable pub image_member : String → Value → Image → Option Image
image_member k v i =
    if k == "data"
    then bind (text_over v i.image_data) (λ s. some (record i { image_data = s }))
    else if k == "mimeType"
    then bind (text_over v i.mime_type) (λ s. some (record i { mime_type = s }))
    else some i

unfoldable pub call_member : String → Value → ToolCall → Option ToolCall
call_member k v c =
    if k == "id"
    then bind (text_over v c.id) (λ s. some (record c { id = s }))
    else if k == "name"
    then bind (text_over v c.name) (λ s. some (record c { name = s }))
    else if k == "arguments"
    then some (record c { arguments = some v })
    else if k == "metadata"
    then bind (map_of v) (λ m. some (record c { metadata = m }))
    else some c

abbrev pub texts_of : Value → Option (List String)
texts_of = slice_of (λ v. text_over v "")

unfoldable pub message_member : String → Value → Message → Option Message
message_member k v m =
    if k == "role"
    then bind (text_over v m.role) (λ s. some (record m { role = s }))
    else if k == "api"
    then bind (text_over v m.api) (λ s. some (record m { api = s }))
    else if k == "provider"
    then bind (text_over v m.provider) (λ s. some (record m { provider = s }))
    else if k == "model"
    then bind (text_over v m.model) (λ s. some (record m { model = s }))
    else if k == "timestamp"
    then bind (int64_over v m.timestamp) (λ n. some (record m { timestamp = n }))
    else if k == "content"
    then bind (text_over v m.content) (λ s. some (record m { content = s }))
    else if k == "text_signature"
    then bind (text_over v m.text_signature) (λ s. some (record m { text_signature = s }))
    else if k == "thinking"
    then bind (text_over v m.thinking) (λ s. some (record m { thinking = s }))
    else if k == "thinking_signature"
    then bind (text_over v m.thinking_signature) (λ s. some (record m { thinking_signature = s }))
    else if k == "tool_call_id"
    then bind (text_over v m.tool_call_id) (λ s. some (record m { tool_call_id = s }))
    else if k == "tool_name"
    then bind (text_over v m.tool_name) (λ s. some (record m { tool_name = s }))
    else if k == "tool_calls"
    then bind (slice_of (struct_of call_member zero_call) v)
        (λ c. some (record m { tool_calls = c }))
    else if k == "images"
    then bind (slice_of (struct_of image_member zero_image) v) (λ i. some (record m { images = i }))
    else if k == "usage"
    then bind (map_of v) (λ u. some (record m { usage = u }))
    else if k == "stop_reason"
    then bind (text_over v m.stop_reason) (λ s. some (record m { stop_reason = s }))
    else if k == "error_message"
    then bind (text_over v m.error_message) (λ s. some (record m { error_message = s }))
    else if k == "is_error"
    then bind (bool_over v m.is_error) (λ b. some (record m { is_error = b }))
    else if k == "added_tool_names"
    then bind (texts_of v) (λ t. some (record m { added_tool_names = t }))
    else some m

unfoldable pub decode_message : Value → Option Message
unfolding members message_member call_member image_member
decode_message v = struct_of message_member zero_message v

-- `json.Marshal` with omitempty.
abbrev pub omit_text : String → String → Fields → Fields
omit_text k s rest = if s == "" then rest else field k (str s) rest

abbrev pub integer : ℤ → Value
integer n = num (record { mantissa = n; scale = 0; form = plain })

abbrev pub omit_int : String → ℤ → Fields → Fields
omit_int k (pos zero) rest = rest
omit_int k n rest = field k (integer n) rest

abbrev pub omit_bool : String → Bool → Fields → Fields
omit_bool k b rest = if b then field k (bool b) rest else rest

abbrev pub omit_map : String → Option Fields → Fields → Fields
omit_map k (some (field j v fs)) rest = field k (obj (field j v fs)) rest
omit_map k _ rest = rest

abbrev pub omit_items : String → Items → Fields → Fields
omit_items k nil rest = rest
omit_items k (cons v vs) rest = field k (arr (cons v vs)) rest

abbrev pub encode_image : Image → Value
encode_image i = obj (field "data" (str i.image_data) (field "mimeType" (str i.mime_type) end))

-- A call whose arguments are not JSON makes `json.Marshal` fail.
abbrev pub encode_call : ToolCall → Option Value
encode_call c = bind c.arguments λ a. some (
    obj (
      field "id" (str c.id)
        (field "name" (str c.name) (field "arguments" a (omit_map "metadata" c.metadata end)))))

abbrev pub encode_calls : List ToolCall → Option Items
encode_calls [] = some nil
encode_calls (c ∷ calls) =
    bind (encode_call c) λ v. bind (encode_calls calls) λ vs. some (cons v vs)

abbrev pub encode_images : List Image → Items
encode_images [] = nil
encode_images (i ∷ images) = cons (encode_image i) (encode_images images)

abbrev pub encode_texts : List String → Items
encode_texts [] = nil
encode_texts (s ∷ texts) = cons (str s) (encode_texts texts)

abbrev pub message_tail : Message → Fields
message_tail m = omit_items "images" (encode_images m.images) (
    omit_map "usage" m.usage (
      omit_text "stop_reason" m.stop_reason (
        omit_text "error_message" m.error_message (
          omit_bool "is_error" m.is_error
            (omit_items "added_tool_names" (encode_texts m.added_tool_names) end)))))

abbrev pub message_fields : Message → Items → Fields
message_fields m calls = field "role" (str m.role) (
    omit_text "api" m.api (
      omit_text "provider" m.provider (
        omit_text "model" m.model (
          omit_int "timestamp" m.timestamp (
            omit_text "content" m.content (
              omit_text "text_signature" m.text_signature (
                omit_text "thinking" m.thinking (
                  omit_text "thinking_signature" m.thinking_signature (
                    omit_text "tool_call_id" m.tool_call_id (
                      omit_text "tool_name" m.tool_name
                        (omit_items "tool_calls" calls (message_tail m))))))))))))

unfoldable pub encode_message : Message → Option Value
encode_message m = bind (encode_calls m.tool_calls) λ calls. some (obj (message_fields m calls))
