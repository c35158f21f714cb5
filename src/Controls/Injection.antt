-- ===== src/Controls/Injection.antt =====
-- The session entries of a control that was accepted and then injected into a turn
-- (internal/engine/runtime.go: `pollControls` and `injectQueuedMessages`).
use ergo_agent.Prelude.{
  ℕ, String, false, ◌≡◌, refl, ap, ◌∙◌, some, [], ◌∷◌, ◌++◌, append_assoc, arith, ◌==◌, contains,
  length, if◌then◌else◌,
}
use ergo_agent.Json.{Value, str, end, field, get, put, put_all}
use ergo_agent.Json.Laws.{get-put}
use ergo_agent.Message.{Message}
use ergo_agent.Session.{Entry, Session, base_entry, new_entry, append_entry}
use ergo_agent.Controls.{
  Queues, Control, Polling, control_message, accept, drain_queue, drain_count, append_message,
  append_messages, inject_queued_messages,
}

drain_count-one : (mode : String) (m : Message) → drain_count mode (m ∷ []) ≡ 1
drain_count-one mode m = ground arith

-- A queue of one message is drained whatever the mode.
drain_queue-one :
    (m : Message) (q : Queues)
    → q.steering ≡ m ∷ []
    → drain_queue "steer" q ≡ (m ∷ [], record q { steering = [] })
unfolding drain_queue
drain_queue-one m q h = cc (h, drain_count-one q.steering_mode m)

message-new_entry :
    (leaf id timestamp kind : String) (k : String) (v w : Value)
    → (k == "message") ≡ false
    → get "message" (new_entry leaf id timestamp kind (field "message" v (field k w end))) ≡ some v
unfolding new_entry put_all
message-new_entry leaf id timestamp kind k v w h =
    let base = base_entry leaf id timestamp kind in
    get-put k "message" w (put "message" v base)
    ∙ ap (λ b. if b then some w else get "message" (put "message" v base)) h
    ∙ get-put "message" "message" v base

module _ (encode : Message → Value) (fresh : ℕ → String × String) where
  accept-steer :
      (c : Control) (s : Polling)
      → contains s.seen c.id ≡ false
      → c.action ≡ "steer"
      → s.queues.steering ≡ []
      → ((accept encode c s).queues.steering ≡ control_message c ∷ [])
        × ((accept encode c s).session
            ≡ append_entry s.session c.entry_id c.timestamp "message" (
                field "message" (encode (control_message c)) (field "delivery" (str c.action) end)))
  unfolding accept
  accept-steer c s n t e = (cc (n, t, e), cc n)

  append_messages-one :
      (m : Message) (session : Session)
      → (b : Entry) × ((append_messages encode fresh "steer" (m ∷ []) session).entries
          ≡ session.entries ++ b ∷ [])
        × (get "message" b ≡ some (encode m))
  unfolding append_messages append_message append_entry put_all put
  append_messages-one m session =
      let (id, timestamp) = fresh (length session.entries) in
      (
        _,
        refl,
        message-new_entry session.leaf_id id timestamp "message" "queue" (encode m) (str "steer")
            refl,
      )

  -- A steering control that was not seen, accepted while no steering message waits and then
  -- injected at depth 0, gives the turn one message and the session two entries that hold that same
  -- message.
  pub inject_queued_messages-accept :
      (c : Control) (s : Polling)
      → contains s.seen c.id ≡ false
      → c.action ≡ "steer"
      → s.queues.steering ≡ []
      → (a : Entry) × (b : Entry) × ((inject_queued_messages encode fresh "steer" 0
            (accept encode c s).queues
            (accept encode c s).session).0
          ≡ control_message c ∷ [])
        × ((inject_queued_messages encode fresh "steer" 0
              (accept encode c s).queues
              (accept encode c s).session).2.entries
            ≡ s.session.entries ++ a ∷ b ∷ [])
        × (get "message" a ≡ some (encode (control_message c)))
        × (get "message" b ≡ some (encode (control_message c)))
  unfolding inject_queued_messages append_entry
  inject_queued_messages-accept c s n t e =
      let (q, u) = accept-steer c s n t e in
      let after = accept encode c s in
      let d = drain_queue-one (control_message c) after.queues q in
      let (b, h, m) = append_messages-one (control_message c) after.session in
      let a =
        new_entry s.session.leaf_id c.entry_id c.timestamp "message"
          (field "message" (encode (control_message c)) (field "delivery" (str c.action) end)) in
      (
        a,
        b,
        cc d,
        cc (d, h, u, append_assoc s.session.entries (a ∷ []) (b ∷ [])),
        message-new_entry s.session.leaf_id c.entry_id c.timestamp "message" "delivery"
            (encode (control_message c)) (str c.action) refl,
        m,
      )
