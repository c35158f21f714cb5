-- ===== src/Controls.antt =====
-- The queues of messages that arrive during a run (internal/engine/runtime.go): `pollControls`
-- fills them, `drainQueue` empties them.
pub mod Drain
pub mod Delivery
pub mod Injection
use ergo_agent.Prelude.{
  ℕ, ◌+◌, String, Bool, true, false, List, [], ◌∷◌, ◌++◌, take, drop, length, ◌==◌, contains, eqb,
  if◌then◌else◌,
}
use ergo_agent.Prelude.Int.{pos}
use ergo_agent.Json.{Value, str, Fields, end, field, put_all}
use ergo_agent.Message.{Message, zero_message}
use ergo_agent.Session.{Session, append_entry}

-- The fields of `execution` and of its command that the queues use.
pub record Queues : Type 0 where
  pub steering : List Message
  pub follow_ups : List Message
  pub steering_mode : String
  pub follow_up_mode : String

-- first(mode, "one-at-a-time")
abbrev pub mode_or_default : String → String
mode_or_default mode = if mode == "" then "one-at-a-time" else mode

abbrev pub drain_count : String → List Message → ℕ
drain_count mode queue = if mode_or_default mode == "all" then length queue else 1

unfoldable pub drain_queue : String → Queues → List Message × Queues
drain_queue kind q =
    if kind == "steer"
    then (let n = drain_count q.steering_mode q.steering in
        (take n q.steering, record q { steering = drop n q.steering }))
    else (let n = drain_count q.follow_up_mode q.follow_ups in
        (take n q.follow_ups, record q { follow_ups = drop n q.follow_ups }))

-- `Control` of session/session.go, with what `newID`, the clock of the session and `nowMillis`
-- return when it is accepted.
pub record Control : Type 0 where
  pub id : String
  pub action : String
  pub content : String
  pub entry_id : String
  pub timestamp : String
  pub millis : ℕ

pub record Polling : Type 0 where
  pub seen : List String
  pub queues : Queues
  pub session : Session
  pub accepted : List String

abbrev pub control_message : Control → Message
control_message c = record zero_message {
  role = "user";
  content = c.content;
  timestamp = pos c.millis;
}

abbrev pub enqueue : String → Message → Queues → Queues
enqueue action message q =
    if action == "steer"
    then record q { steering = q.steering ++ message ∷ [] }
    else record q { follow_ups = q.follow_ups ++ message ∷ [] }

-- `encode` reads a message as the dynamic value that a session entry holds.
module _ (encode : Message → Value) where
  -- The body of the loop over the controls of one poll; `accepted` are the events that it emits.
  unfoldable pub accept : Control → Polling → Polling
  accept c s = if contains s.seen c.id then s else record {
    seen = c.id ∷ s.seen;
    session =
        append_entry s.session c.entry_id c.timestamp "message"
          (field "message" (encode (control_message c)) (field "delivery" (str c.action) end));
    queues = enqueue c.action (control_message c) s.queues;
    accepted = s.accepted ++ c.id ∷ [];
  }

  unfoldable pub poll : List Control → Polling → Polling
  poll [] s = s
  poll (c ∷ controls) s = poll controls (accept c s)

  -- `appendMessage`: the extra fields stand beside the message. `fresh` is what `newID` and the
  -- clock return, here by the number of entries.
  module _ (fresh : ℕ → String × String) where
    unfoldable pub append_message : Message → Fields → Session → Session
    append_message message extra session =
        let (id, timestamp) = fresh (length session.entries) in
        append_entry session id timestamp "message"
          (put_all extra (field "message" (encode message) end))

    unfoldable pub append_messages : String → List Message → Session → Session
    append_messages kind [] session = session
    append_messages kind (m ∷ messages) session =
        append_messages kind messages (append_message m (field "queue" (str kind) end) session)

    -- The messages that the turn gets, the queues and the session.
    unfoldable pub inject_queued_messages :
        String → ℕ → Queues → Session → List Message × Queues × Session
    inject_queued_messages kind depth queues session =
        let (messages, queues') = drain_queue kind queues in
        (messages, queues', if eqb depth 0 then append_messages kind messages session else session)
