-- ===== src/Controls/Delivery.antt =====
-- Polls of `pollControls` of internal/engine/runtime.go, which may return a control again.
use ergo_agent.Prelude.{
  String, true, false, ◌||◌, ◌≡◌, refl, sym, ◌∙◌, List, [], ◌∷◌, ◌++◌, append-nil, append_assoc,
  none, arith, ◌==◌, eq_iff, contains, Distinct, Bool-cases, inl, inr, if◌then◌else◌,
}
use ergo_agent.Prelude.Int.{pos}
use ergo_agent.Json.{Value, str, end, field}
use ergo_agent.Message.{Message}
use ergo_agent.Session.{Entry, new_entry, append_entry}
use ergo_agent.Controls.{Control, Polling, accept, poll}

pub control_ids : List Control → List String
control_ids [] = []
control_ids (c ∷ controls) = c.id ∷ control_ids controls

-- The controls whose ids were not seen, each at its first occurrence, in order.
pub data IsNews : List String → List Control → List Control → Type 0 where
  no_more : {seen : List String} → IsNews seen [] []
  repeated :
      {seen : List String} {c : Control} {controls news : List Control}
      → contains seen c.id ≡ true
      → IsNews seen controls news
      → IsNews seen (c ∷ controls) news
  first_time :
      {seen : List String} {c : Control} {controls news : List Control}
      → contains seen c.id ≡ false
      → IsNews (c.id ∷ seen) controls news
      → IsNews seen (c ∷ controls) (c ∷ news)

IsNews-unseen :
    {seen : List String} {controls news : List Control} (x : String)
    → IsNews seen controls news
    → contains (control_ids news) x ≡ true
    → contains seen x ≡ false
unfolding contains control_ids
IsNews-unseen x no_more h = cc h
IsNews-unseen x (repeated a d) h = IsNews-unseen x d h
IsNews-unseen {seen} x (first_time {c = c} a d) h = elim (Bool-cases (c.id == x)) [
  | inl e ↦ rw (← (eq_iff c.id x).0 e) a
  | inr e ↦ ground (arith, IsNews-unseen x d)
]

IsNews-Distinct :
    {seen : List String} {controls news : List Control}
    → IsNews seen controls news
    → Distinct (control_ids news)
unfolding contains control_ids
IsNews-Distinct no_more = tt
IsNews-Distinct (repeated a d) = IsNews-Distinct d
IsNews-Distinct (first_time {c = c} {news = news} a d) =
    (ground (arith, IsNews-unseen c.id d, eq_iff c.id c.id), IsNews-Distinct d)

-- What a control asks to be sent, written out: a message of the user with its text and its time.
abbrev pub asked_message : Control → Message
asked_message c = record {
  role = "user";
  api = "";
  provider = "";
  model = "";
  timestamp = pos c.millis;
  content = c.content;
  text_signature = "";
  thinking = "";
  thinking_signature = "";
  tool_call_id = "";
  tool_name = "";
  tool_calls = [];
  images = [];
  usage = none;
  stop_reason = "";
  error_message = "";
  is_error = false;
  added_tool_names = [];
}

-- The messages of the controls that steer, and of the others.
abbrev pub steering_of : List Control → List Message
steering_of [] = []
steering_of (c ∷ news) =
    let rest = steering_of news in if c.action == "steer" then asked_message c ∷ rest else rest

abbrev pub follow_ups_of : List Control → List Message
follow_ups_of [] = []
follow_ups_of (c ∷ news) =
    let rest = follow_ups_of news in if c.action == "steer" then rest else asked_message c ∷ rest

-- The leaf behind one entry for each control.
abbrev pub leaf_behind : String → List Control → String
leaf_behind leaf [] = leaf
leaf_behind leaf (c ∷ news) = leaf_behind c.entry_id news

module _ (encode : Message → Value) where
  seen-accept :
      (c : Control) (s : Polling) (x : String)
      → contains (accept encode c s).seen x ≡ (c.id == x || contains s.seen x)
  unfolding accept contains
  seen-accept c s x = elim (Bool-cases (contains s.seen c.id)) [
    | inl a ↦ elim (Bool-cases (c.id == x)) [
      | inl b ↦ rw (a, ← (eq_iff c.id x).0 b) (ground (arith, eq_iff c.id c.id))
      | inr b ↦ rw a (ground arith)
    ]
    | inr a ↦ rw a
  ]

  seen-poll :
      (controls : List Control) (s : Polling) (x : String)
      → contains (poll encode controls s).seen x
        ≡ (contains (control_ids controls) x || contains s.seen x)
  unfolding poll control_ids contains
  seen-poll [] s x = refl
  seen-poll (c ∷ controls) s x =
      ground (arith, seen-poll controls (accept encode c s) x, seen-accept c s x)

  poll-seen :
      (controls : List Control) (s : Polling)
      → ((x : String) → contains (control_ids controls) x ≡ true → contains s.seen x ≡ true)
      → poll encode controls s ≡ s
  unfolding poll control_ids contains accept
  poll-seen [] s h = refl
  poll-seen (c ∷ controls) s h =
      let e : contains s.seen c.id ≡ true = h c.id (ground (arith, eq_iff c.id c.id)) in
      rw e (poll-seen controls s (λ x q. h x (ground arith)))

  -- Polls that return only controls that an earlier poll returned change nothing: no queue, no
  -- entry, no event.
  pub poll_again :
      (controls again : List Control) (s : Polling)
      → ((x : String)
          → contains (control_ids again) x ≡ true
          → contains (control_ids controls) x ≡ true)
      → poll encode again (poll encode controls s) ≡ poll encode controls s
  poll_again controls again s h =
      poll-seen again (poll encode controls s)
        (λ x q. ground (arith, seen-poll controls s x, h x q))

  -- One entry for each control, each a child of the one before it.
  abbrev pub entries_of : String → List Control → List Entry
  entries_of leaf [] = []
  entries_of leaf (c ∷ news) =
      new_entry leaf c.entry_id c.timestamp "message"
        (field "message" (encode (asked_message c)) (field "delivery" (str c.action) end))
      ∷ entries_of c.entry_id news

  -- What the controls that are new do to the state of the polls.
  pub record IsAdded (news : List Control) (s s' : Polling) : Type 0 where
    pub emitted : s'.accepted ≡ s.accepted ++ control_ids news
    pub steered : s'.queues.steering ≡ s.queues.steering ++ steering_of news
    pub followed : s'.queues.follow_ups ≡ s.queues.follow_ups ++ follow_ups_of news
    pub steering_kept : s'.queues.steering_mode ≡ s.queues.steering_mode
    pub follow_up_kept : s'.queues.follow_up_mode ≡ s.queues.follow_up_mode
    pub recorded : s'.session.entries ≡ s.session.entries ++ entries_of s.session.leaf_id news
    pub moved : s'.session.leaf_id ≡ leaf_behind s.session.leaf_id news

  accept-IsAdded :
      (c : Control) (news : List Control) (s s' : Polling)
      → contains s.seen c.id ≡ false
      → IsAdded news (accept encode c s) s'
      → IsAdded (c ∷ news) s s'
  unfolding accept append_entry control_ids
  accept-IsAdded c news s s' a d = elim (Bool-cases (c.action == "steer")) [
    | inl e ↦
        let d' = rw (a, e) at d in
        record {
          emitted = d'.emitted ∙ append_assoc s.accepted (c.id ∷ []) (control_ids news);
          steered = rw e (
              d'.steered
              ∙ append_assoc s.queues.steering (asked_message c ∷ []) (steering_of news));
          followed = rw e d'.followed;
          steering_kept = d'.steering_kept;
          follow_up_kept = d'.follow_up_kept;
          recorded =
              d'.recorded ∙ append_assoc s.session.entries (_ ∷ []) (entries_of c.entry_id news);
          moved = d'.moved;
        }
    | inr e ↦
        let d' = rw (a, e) at d in
        record {
          emitted = d'.emitted ∙ append_assoc s.accepted (c.id ∷ []) (control_ids news);
          steered = rw e d'.steered;
          followed = rw e (
              d'.followed
              ∙ append_assoc s.queues.follow_ups (asked_message c ∷ []) (follow_ups_of news));
          steering_kept = d'.steering_kept;
          follow_up_kept = d'.follow_up_kept;
          recorded =
              d'.recorded ∙ append_assoc s.session.entries (_ ∷ []) (entries_of c.entry_id news);
          moved = d'.moved;
        }
  ]

  -- What polls that return the controls make of a state.
  pub record IsDelivered (controls : List Control) (s s' : Polling) : Type 0 where
    pub news : List Control
    pub are_news : IsNews s.seen controls news
    pub once : Distinct (control_ids news)
    pub unseen : (x : String) → contains (control_ids news) x ≡ true → contains s.seen x ≡ false
    pub marked :
        (x : String) → contains s'.seen x ≡ (contains (control_ids controls) x || contains s.seen x)
    pub added : IsAdded news s s'

  accept_old : (c : Control) (s : Polling) → contains s.seen c.id ≡ true → accept encode c s ≡ s
  unfolding accept
  accept_old c s a = rw a

  accept_new :
      (c : Control) (s : Polling)
      → contains s.seen c.id ≡ false
      → (accept encode c s).seen ≡ c.id ∷ s.seen
  unfolding accept
  accept_new c s a = rw a

  poll-IsNews :
      (controls : List Control) (s : Polling)
      → (news : List Control) × IsNews s.seen controls news
        × IsAdded news s (poll encode controls s)
  unfolding poll control_ids accept
  poll-IsNews [] s = (
    [],
    no_more,
    record {
      emitted = sym (append-nil _);
      steered = sym (append-nil _);
      followed = sym (append-nil _);
      steering_kept = refl;
      follow_up_kept = refl;
      recorded = sym (append-nil _);
      moved = refl;
    },
  )
  poll-IsNews (c ∷ controls) s = elim (Bool-cases (contains s.seen c.id)) [
    | inl a ↦
        let (news, n, d) = poll-IsNews controls s in (news, repeated a n, rw (accept_old c s a) d)
    | inr a ↦
        let (news, n, d) = poll-IsNews controls (accept encode c s) in
        (c ∷ news, first_time a (rw (accept_new c s a) at n), accept-IsAdded c news s _ a d)
  ]

  -- For the controls that polls return from any state on: with the news, which are the controls
  -- whose ids were not seen, each at its first occurrence and in order, the polls add to the
  -- steering queue exactly one message of the user with the text and the time of each of them that
  -- steers, to the follow-ups one for each of the others, to the session one entry for each with
  -- its message and its action, each a child of the one before it, and to the events their ids; the
  -- leaf is the last of these entries, the ids of the news are distinct and were not seen before,
  -- and the ids seen afterwards are those of all the controls and those seen before.
  pub poll-IsDelivered :
      (controls : List Control) (s : Polling) → IsDelivered controls s (poll encode controls s)
  poll-IsDelivered controls s =
      let (news, n, d) = poll-IsNews controls s in
      record {
        news = news;
        are_news = n;
        once = IsNews-Distinct n;
        unseen = λ x. IsNews-unseen x n;
        marked = seen-poll controls s;
        added = d;
      }
