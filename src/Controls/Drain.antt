-- ===== src/Controls/Drain.antt =====
-- `drainQueue` of internal/engine/runtime.go over several turns.
use ergo_agent.Prelude.{
  ℕ, zero, suc, ◌-◌, ◌≤◌, String, ◌≡◌, refl, sym, ◌∙◌, ap, List, [], ◌∷◌, ◌++◌, length, length-drop,
  take-append-drop, arith, ◌==◌, if◌then◌else◌,
}
use ergo_agent.Message.{Message}
use ergo_agent.Controls.{Queues, drain_count, drain_queue}

-- The queue that a kind names, and the other one.
abbrev pub queue_of : String → Queues → List Message
queue_of kind q = if kind == "steer" then q.steering else q.follow_ups

abbrev pub other_queue : String → Queues → List Message
other_queue kind q = if kind == "steer" then q.follow_ups else q.steering

-- What is drained is the front of the named queue, the rest stays in it, and the other queue and
-- the modes stay as they are.
pub drain_queue_conserves :
    (kind : String) (q : Queues)
    → ((drain_queue kind q).0 ++ queue_of kind (drain_queue kind q).1 ≡ queue_of kind q)
      × (other_queue kind (drain_queue kind q).1 ≡ other_queue kind q)
      × ((drain_queue kind q).1.steering_mode ≡ q.steering_mode)
      × ((drain_queue kind q).1.follow_up_mode ≡ q.follow_up_mode)
unfolding drain_queue
drain_queue_conserves kind q = ground (
  arith,
  take-append-drop (drain_count q.steering_mode q.steering) q.steering,
  take-append-drop (drain_count q.follow_up_mode q.follow_ups) q.follow_ups,
)

-- Drains until the queue is empty: one call for each turn of the agent.
pub drain_turns : ℕ → String → Queues → List Message × Queues
drain_turns zero kind q = ([], q)
drain_turns (suc n) kind q =
    let (now, q') = drain_queue kind q in
    let (later, q'') = drain_turns n kind q' in (now ++ later, q'')

drain_queue_shrinks :
    (kind : String) (q : Queues)
    → length (queue_of kind (drain_queue kind q).1) ≤ length (queue_of kind q) - 1
unfolding drain_queue
drain_queue_shrinks kind q = ground (
  arith,
  length-drop (drain_count q.steering_mode q.steering) q.steering,
  length-drop (drain_count q.follow_up_mode q.follow_ups) q.follow_ups,
)

nil_of_length {ℓ} : {A : Type ℓ} (l : List A) → length l ≤ 0 → l ≡ []
nil_of_length [] h = refl
nil_of_length (a ∷ l) h = absurd (omega arith)

-- Whatever the modes, as many drains as the queue of a kind has messages deliver the whole queue,
-- in order, and leave it empty.
pub drain_turns_all :
    (n : ℕ) (kind : String) (q : Queues)
    → length (queue_of kind q) ≤ n
    → ((drain_turns n kind q).0 ≡ queue_of kind q) × (queue_of kind (drain_turns n kind q).1 ≡ [])
unfolding drain_turns
drain_turns_all zero kind q h = let e = nil_of_length (queue_of kind q) h in (sym e, e)
drain_turns_all (suc n) kind q h =
    let (e, r) =
      drain_turns_all n kind (drain_queue kind q).1 (omega (arith, drain_queue_shrinks kind q)) in
    (ap (λ (t : List Message). (drain_queue kind q).0 ++ t) e ∙ (drain_queue_conserves kind q).0, r)
