-- ===== src/Message/Codec/RoundTrip.antt =====
-- Decoding what was encoded: message/message.go with encoding/json.
use ergo_agent.Prelude.{
  String, Bool, true, false, ◌&&◌, ◌≡◌, refl, sym, ◌∙◌, Option, none, some, List, [], ◌∷◌, eq_iff,
  arith, is_some, some_of, ap,
}
use ergo_agent.Prelude.Int.{ℤ, pos}
use ergo_agent.Json.{Value, bool, str, arr, obj, Items, nil, cons, Fields, end, field}
use ergo_agent.Message.{ToolCall, Message, zero_call, zero_message, Image, zero_image}
use ergo_agent.Message.Codec.{
  in_int64, members, struct_of, elements, text_over, message_member, call_member, image_member,
  decode_message, omit_text, omit_int, omit_bool, omit_map, omit_items, integer, encode_images,
  encode_call, encode_calls, encode_texts, message_fields, message_tail, encode_message,
}

-- A map that is nil or holds something.
abbrev pub is_proper : Option Fields → Bool
is_proper (some end) = false
is_proper _ = true

module _ {A : Type 0} (member : String → Value → A → Option A) where
  members-omit_text :
      (k s : String) (rest : Fields) (a : A) (set : String → A)
      → member k (str s) a ≡ some (set s)
      → set "" ≡ a
      → members member (omit_text k s rest) a ≡ members member rest (set s)
  unfolding members
  members-omit_text k s rest a set h e = ground (arith, eq_iff s "")

  members-omit_int :
      (k : String) (n : ℤ) (rest : Fields) (a : A) (set : ℤ → A)
      → member k (integer n) a ≡ some (set n)
      → set (pos 0) ≡ a
      → members member (omit_int k n rest) a ≡ members member rest (set n)
  unfolding members
  members-omit_int k n rest a set h e = ground arith

  members-omit_bool :
      (k : String) (b : Bool) (rest : Fields) (a : A) (set : Bool → A)
      → member k (bool b) a ≡ some (set b)
      → set false ≡ a
      → members member (omit_bool k b rest) a ≡ members member rest (set b)
  unfolding members
  members-omit_bool k b rest a set h e = ground arith

  -- An empty map is left out, and a missing one decodes to nil.
  members-omit_map :
      (k : String) (o : Option Fields) (rest : Fields) (a : A) (set : Option Fields → A)
      → is_proper o ≡ true
      → ((fs : Fields) → member k (obj fs) a ≡ some (set (some fs)))
      → set none ≡ a
      → members member (omit_map k o rest) a ≡ members member rest (set o)
  unfolding members
  members-omit_map k none rest a set p h e = cc
  members-omit_map k (some end) rest a set p h e = cc
  members-omit_map k (some (field j v fs)) rest a set p h e = cc (h (field j v fs))

  -- The members of a slice, of which `list` is the decoded one.
  members-omit_items :
      {B : Type 0}
      → (k : String) (vs : Items) (list : List B) (rest : Fields) (a : A) (set : List B → A)
      → member k (arr vs) a ≡ some (set list)
      → (vs ≡ nil → set list ≡ a)
      → members member (omit_items k vs rest) a ≡ members member rest (set list)
  unfolding members
  members-omit_items k nil list rest a set h e = cc (e refl)
  members-omit_items k (cons v vs) list rest a set h e = cc

pub elements-encode_texts :
    (texts : List String) → elements (λ v. text_over v "") (encode_texts texts) ≡ some texts
elements-encode_texts [] = refl
elements-encode_texts (s ∷ texts) = cc (elements-encode_texts texts)

elements-encode_images :
    (images : List Image)
    → elements (struct_of image_member zero_image) (encode_images images) ≡ some images
unfolding members image_member
elements-encode_images [] = refl
elements-encode_images (i ∷ images) = cc (elements-encode_images images)

abbrev pub is_call : ToolCall → Bool
is_call c = is_some c.arguments && is_proper c.metadata

abbrev pub are_calls : List ToolCall → Bool
are_calls [] = true
are_calls (c ∷ calls) = is_call c && are_calls calls

struct_of-encode_call :
    (c : ToolCall)
    → is_call c ≡ true
    → (v : Value) × (encode_call c ≡ some v) × (struct_of call_member zero_call v ≡ some c)
unfolding members call_member
struct_of-encode_call c h =
    let (a, e) = some_of c.arguments (ground arith) in
    (
      obj (
          field "id" (str c.id)
            (field "name" (str c.name) (field "arguments" a (omit_map "metadata" c.metadata end)))),
      cc e,
      members-omit_map call_member "metadata" c.metadata end
            (record c { arguments = some a; metadata = none })
            (λ o. record c { arguments = some a; metadata = o }) (ground arith) (λ fs. refl) refl
          ∙ ap (λ o. some (record c { arguments = o })) (sym e),
    )

elements-encode_calls :
    (calls : List ToolCall)
    → are_calls calls ≡ true
    → (vs : Items) × (encode_calls calls ≡ some vs)
      × (elements (struct_of call_member zero_call) vs ≡ some calls)
      × (vs ≡ nil → calls ≡ [])
elements-encode_calls [] h = (nil, refl, refl, λ e. refl)
elements-encode_calls (c ∷ calls) h =
    let (v, e, d) = struct_of-encode_call c (ground arith) in
    let (vs, es, ds, n) = elements-encode_calls calls (ground arith) in (cons v vs, cc, cc, λ z. cc)

encode_images-nil : (images : List Image) → encode_images images ≡ nil → images ≡ []
encode_images-nil [] e = refl
encode_images-nil (i ∷ images) e = cc

encode_texts-nil : (texts : List String) → encode_texts texts ≡ nil → texts ≡ []
encode_texts-nil [] e = refl
encode_texts-nil (s ∷ texts) e = cc

-- The message that `members` has made of the fields before `tool_calls`.
abbrev pub head_of : Message → Message
head_of m = record zero_message {
  role = m.role;
  api = m.api;
  provider = m.provider;
  model = m.model;
  timestamp = m.timestamp;
  content = m.content;
  text_signature = m.text_signature;
  thinking = m.thinking;
  thinking_signature = m.thinking_signature;
  tool_call_id = m.tool_call_id;
  tool_name = m.tool_name;
}

abbrev pub with_calls : Message → Message
with_calls m = record (head_of m) { tool_calls = m.tool_calls; images = m.images }

members-message_tail :
    (m : Message)
    → is_proper m.usage ≡ true
    → members message_member (message_tail m) (record (head_of m) { tool_calls = m.tool_calls })
      ≡ some m
unfolding message_member members
members-message_tail m u =
    members-omit_items message_member "images" (encode_images m.images) m.images _ _
      (λ i. record (with_calls m) { images = i }) (cc (elements-encode_images m.images))
      (λ e. ap (λ i. record (with_calls m) { images = i }) (encode_images-nil m.images e))
    ∙ members-omit_map message_member "usage" m.usage _ _ (λ u. record (with_calls m) { usage = u })
        u (λ fs. refl) refl
    ∙ members-omit_text message_member "stop_reason" m.stop_reason _ _
        (λ s. record (with_calls m) { usage = m.usage; stop_reason = s }) refl refl
    ∙ members-omit_text message_member "error_message" m.error_message _ _
        (λ s. record (with_calls m) {
          usage = m.usage;
          stop_reason = m.stop_reason;
          error_message = s;
        })
        refl refl
    ∙ members-omit_bool message_member "is_error" m.is_error _ _
        (λ b. record m { is_error = b; added_tool_names = [] }) refl refl
    ∙ members-omit_items message_member "added_tool_names" (encode_texts m.added_tool_names)
        m.added_tool_names end _ (λ t. record m { added_tool_names = t })
        (cc (elements-encode_texts m.added_tool_names))
        (λ e. ap (λ t. record m { added_tool_names = t }) (encode_texts-nil m.added_tool_names e))

members-message_fields :
    (m : Message) (vs : Items)
    → in_int64 m.timestamp ≡ true
    → is_proper m.usage ≡ true
    → elements (struct_of call_member zero_call) vs ≡ some m.tool_calls
    → (vs ≡ nil → m.tool_calls ≡ [])
    → members message_member (message_fields m vs) zero_message ≡ some m
unfolding message_member members
members-message_fields m vs t u d n =
    let r : Message = record zero_message { role = m.role } in
    let a : Message = record r { api = m.api } in
    let p : Message = record a { provider = m.provider } in
    let o : Message = record p { model = m.model } in
    let w : Message = record o { timestamp = m.timestamp } in
    let c : Message = record w { content = m.content } in
    let x : Message = record c { text_signature = m.text_signature } in
    let k : Message = record x { thinking = m.thinking } in
    let g : Message = record k { thinking_signature = m.thinking_signature } in
    let i : Message = record g { tool_call_id = m.tool_call_id } in
    members-omit_text message_member "api" m.api _ r (λ s. record r { api = s }) refl refl
    ∙ members-omit_text message_member "provider" m.provider _ a (λ s. record a { provider = s })
        refl refl
    ∙ members-omit_text message_member "model" m.model _ p (λ s. record p { model = s }) refl refl
    ∙ members-omit_int message_member "timestamp" m.timestamp _ o (λ n. record o { timestamp = n })
        (ground arith) refl
    ∙ members-omit_text message_member "content" m.content _ w (λ s. record w { content = s }) refl
        refl
    ∙ members-omit_text message_member "text_signature" m.text_signature _ c
        (λ s. record c { text_signature = s }) refl refl
    ∙ members-omit_text message_member "thinking" m.thinking _ x (λ s. record x { thinking = s })
        refl refl
    ∙ members-omit_text message_member "thinking_signature" m.thinking_signature _ k
        (λ s. record k { thinking_signature = s }) refl refl
    ∙ members-omit_text message_member "tool_call_id" m.tool_call_id _ g
        (λ s. record g { tool_call_id = s }) refl refl
    ∙ members-omit_text message_member "tool_name" m.tool_name _ i (λ s. record i { tool_name = s })
        refl refl
    ∙ members-omit_items message_member "tool_calls" vs m.tool_calls _ (head_of m)
        (λ t. record (head_of m) { tool_calls = t }) (cc d)
        (λ e. ap (λ t. record (head_of m) { tool_calls = t }) (n e))
    ∙ members-message_tail m u

-- A message with a timestamp in the range of int64, usage and metadata that are nil or not empty,
-- and tool calls whose arguments are JSON is written by encoding/json and read back unchanged.
pub decode_message-encode_message :
    (m : Message)
    → in_int64 m.timestamp ≡ true
    → is_proper m.usage ≡ true
    → are_calls m.tool_calls ≡ true
    → (v : Value) × (encode_message m ≡ some v) × (decode_message v ≡ some m)
unfolding encode_message decode_message
decode_message-encode_message m t u c =
    let (vs, e, d, n) = elements-encode_calls m.tool_calls c in
    (obj (message_fields m vs), cc e, members-message_fields m vs t u d n)
