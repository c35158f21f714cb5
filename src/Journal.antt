-- ===== src/Journal.antt =====
-- The event journal of internal/engine/runtime.go: `emit` and `failEventPipeline`. The mutex
-- `emitMu` makes a call of `emit` one step.
pub mod Sequence
use ergo_agent.Prelude.{
  ℕ, ◌+◌, ◌%◌, ◌^◌, String, Bool, true, false, Option, none, some, List, [], ◌∷◌, ◌++◌,
}
use ergo_agent.Json.{Fields}

-- What a hook returns: the payload as it leaves it, or an error.
pub data Hooked : Type 0 where
  passed : Fields → Hooked
  failed : String → Hooked

-- `OnEvent` and `Action` of an extension, where it has them.
pub record Extension : Type 0 where
  pub on_event : Option (String → Fields → Hooked)
  pub action : Option (String → Fields → Hooked)

pub record Event : Type 0 where
  pub kind : String
  pub sequence : ℕ
  pub payload : Fields

pub record Journal : Type 0 where
  pub event_err : Option String
  pub sequence : ℕ
  pub cancelled : Bool
  pub delivered : List Event

abbrev pub new_journal : Journal
new_journal = record { event_err = none; sequence = 0; cancelled = false; delivered = [] }

abbrev pub run_hook : Option (String → Fields → Hooked) → String → Fields → Hooked
run_hook none kind payload = passed payload
run_hook (some hook) kind payload = hook kind payload

abbrev pub then_hook : Hooked → (Fields → Hooked) → Hooked
then_hook (passed payload) next = next payload
then_hook (failed err) next = failed err

-- The loop over the extensions.
pub run_extensions : List Extension → String → Fields → Hooked
run_extensions [] kind payload = passed payload
run_extensions (x ∷ extensions) kind payload =
    then_hook (run_hook x.on_event kind payload)
      λ p. then_hook (run_hook x.action kind p) λ q. run_extensions extensions kind q

-- `cancel` is always there: RunWithOptions sets it before anything is emitted.
unfoldable pub fail_event_pipeline : String → Journal → Journal
fail_event_pipeline err j = record j { event_err = some err; cancelled = true }

-- `sink` is the host's; an event that it takes without an error is delivered.
module _ (extensions : List Extension) (sink : Event → Option String) where
  pub deliver : Hooked → String → Journal → Journal × Option String
  deliver (failed err) kind j = (fail_event_pipeline err j, some err)
  deliver (passed payload) kind j =
      let event : Event = record { kind = kind; sequence = j.sequence; payload = payload } in
      elim (sink event) [
        | some err ↦ (fail_event_pipeline err j, some err)
        | none ↦ (record j { delivered = j.delivered ++ event ∷ [] }, none)
      ]

  -- The body of `emit` at the value of `eventErr`. The sequence number is a uint64.
  pub emit_at : Option String → String → Fields → Journal → Journal × Option String
  emit_at (some err) kind payload j = (j, some err)
  emit_at none kind payload j =
      deliver (run_extensions extensions kind payload) kind
        (record j { sequence = (j.sequence + 1) % 2 ^ 64 })

  unfoldable pub emit : String → Fields → Journal → Journal × Option String
  unfolding emit_at deliver fail_event_pipeline run_extensions
  emit kind payload j = emit_at j.event_err kind payload j

  -- The calls of a run, in the order in which they take the mutex, with what each returns.
  unfoldable pub emit_all : List (String × Fields) → Journal → Journal × List (Option String)
  emit_all [] j = (j, [])
  emit_all ((kind, payload) ∷ events) j =
      let (j', err) = emit kind payload j in
      let (j'', errs) = emit_all events j' in (j'', err ∷ errs)
