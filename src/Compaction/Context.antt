-- ===== src/Compaction/Context.antt =====
-- What the provider sees after a compaction: messagesFromEntries of internal/engine/runtime.go.
use ergo_agent.Prelude.{
  bind, ℕ, zero, suc, ◌+◌, String, Bool, true, ◌&&◌, ◌≡◌, refl, ap, ◌∙◌, Option, none, some, List,
  [], ◌∷◌, ◌++◌, arith, length, drop, get_elem?,
}
use ergo_agent.Prelude.Int.{ℤ}
use ergo_agent.Json.{arr, Items, nil, cons, get}
use ergo_agent.Message.{Message}
use ergo_agent.Message.Codec.{in_int64, elements, decode_message, encode_message}
use ergo_agent.Message.Codec.RoundTrip.{is_proper, are_calls, decode_message-encode_message}
use ergo_agent.Session.{Entry}
use ergo_agent.Compaction.Entries.{
  has_type, last_index, from_compaction, compaction_head, retained_tail_of, context_of,
  messages_from_entries,
}

-- json.Marshal of a slice of messages.
unfoldable pub encode_messages : List Message → Option Items
encode_messages [] = some nil
encode_messages (m ∷ messages) =
    bind (encode_message m) λ v. bind (encode_messages messages) λ vs. some (cons v vs)

-- A message that encoding/json writes and reads without a loss.
abbrev pub is_storable : Message → Bool
is_storable m = in_int64 m.timestamp && is_proper m.usage && are_calls m.tool_calls

abbrev pub are_storable : List Message → Bool
are_storable [] = true
are_storable (m ∷ messages) = is_storable m && are_storable messages

pub elements-encode_messages :
    (messages : List Message)
    → are_storable messages ≡ true
    → (vs : Items) × (encode_messages messages ≡ some vs)
      × (elements (λ v. decode_message v) vs ≡ some messages)
unfolding encode_messages
elements-encode_messages [] h = (nil, refl, refl)
elements-encode_messages (m ∷ messages) h =
    let (v, e, d) = decode_message-encode_message m (ground arith) (ground arith) (ground arith) in
    let (vs, es, ds) = elements-encode_messages messages (ground arith) in (cons v vs, cc, cc)

module _ {A : Type 0} (test : A → Bool) where
  last_index-none :
      (list : List A) (a : A)
      → last_index test list ≡ none
      → test a ≡ true
      → last_index test (a ∷ list) ≡ some 0
  unfolding last_index
  last_index-none list a n t = ground arith

  last_index-append :
      (front list : List A) (i : ℕ)
      → last_index test list ≡ some i
      → last_index test (front ++ list) ≡ some (i + length front)
  unfolding last_index
  last_index-append [] list i h = ground arith
  last_index-append (a ∷ front) list i h = ground (arith, last_index-append front list i h)

  get_elem?-append :
      (front : List A) (a : A) (list : List A)
      → get_elem? (front ++ a ∷ list) (length front) ≡ some a
  get_elem?-append [] a list = refl
  get_elem?-append (b ∷ front) a list = get_elem?-append front a list

  drop-append :
      (front : List A) (a : A) (list : List A) (n : ℕ)
      → n ≡ length front + 1
      → drop n (front ++ a ∷ list) ≡ list
  drop-append front a list zero h = absurd (omega arith)
  drop-append [] a list (suc n) h = ap (λ k. drop k list) {x = n} {y = 0} (omega arith)
  drop-append (b ∷ front) a list (suc n) h = drop-append front a list n (omega arith)

plus_zero : (n : ℕ) → 0 + n ≡ n
plus_zero n = omega arith

retained_tail_of-arr :
    (parse_time : String → Option ℤ) (c : Entry) (vs : Items) (tail : List Message)
    → get "retainedTail" c ≡ some (arr vs)
    → elements (λ v. decode_message v) vs ≡ some tail
    → retained_tail_of parse_time c ≡ tail
unfolding retained_tail_of
retained_tail_of-arr parse_time c vs tail g e = cc

from_compaction-tail :
    (parse_time : String → Option ℤ) (front later : List Entry) (c : Entry) (m : Message)
    (tail : List Message) (i : ℕ)
    → i ≡ length front
    → retained_tail_of parse_time c ≡ m ∷ tail
    → from_compaction parse_time (front ++ c ∷ later) i c
      ≡ compaction_head parse_time c ++ ((m ∷ tail) ++ context_of parse_time later)
unfolding from_compaction
from_compaction-tail parse_time front later c m tail i h r =
    cc (r, drop-append (λ e. has_type e "x") front c later (i + 1) (omega arith))

-- After a compaction entry whose retained tail is the encoding of a list of storable messages that
-- is not empty, with no compaction after it, messagesFromEntries gives the summary, that list and
-- the messages of the later entries, whatever stands before the entry.
pub messages_from_entries-compacted :
    (parse_time : String → Option ℤ) (front later : List Entry) (c : Entry) (m : Message)
    (tail : List Message) (vs : Items)
    → has_type c "compaction" ≡ true
    → last_index (λ e. has_type e "compaction") later ≡ none
    → get "retainedTail" c ≡ some (arr vs)
    → encode_messages (m ∷ tail) ≡ some vs
    → are_storable (m ∷ tail) ≡ true
    → messages_from_entries parse_time (front ++ c ∷ later)
      ≡ compaction_head parse_time c ++ ((m ∷ tail) ++ context_of parse_time later)
unfolding messages_from_entries retained_tail_of
messages_from_entries-compacted parse_time front later c m tail vs t n g e s =
    let (ws, d, x) = elements-encode_messages (m ∷ tail) s in
    let i =
      last_index-append (λ e. has_type e "compaction") front (c ∷ later) 0
        (last_index-none (λ e. has_type e "compaction") later c n t) in
    cc (i, get_elem?-append (λ e. has_type e "compaction") front c later, plus_zero (length front))
    ∙ from_compaction-tail parse_time front later c m tail (length front) refl
        (retained_tail_of-arr parse_time c vs (m ∷ tail) g (cc (e, d, x)))
