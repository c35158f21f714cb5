-- ===== src/Retry.antt =====
-- `complete` of internal/engine/runtime.go: calls of a provider, with retries and delays.
pub mod Bounds
pub mod Delays
use ergo_agent.Prelude.{
  ℕ, zero, suc, ◌+◌, ◌-◌, ◌*◌, ◌%◌, ◌^◌, min, String, Bool, true, false, not, ◌||◌, Option, none,
  some, List, [], ◌∷◌, ◌++◌, leb, ltb, eqb, if◌then◌else◌,
}
use ergo_agent.Prelude.Int.{ℤ, pos, negsuc, ◌*ℤ◌, ltb_ℤ, int64}

-- The errors that the code tells apart: by `errors.Is`, by `errors.As` at `ProviderHTTPError`
-- with its status and its `RetryAfter` in nanoseconds, at `net.Error`, and the others.
pub data Err : Type 0 where
  canceled deadline_exceeded : Err
  http : ℕ → ℤ → Err
  network : Err
  other : String → Err

unfoldable pub retryable_provider_error : Err → Bool
retryable_provider_error (http status retry_after) =
    eqb status 408 || eqb status 409 || eqb status 429 || leb 500 status
retryable_provider_error network = true
retryable_provider_error _ = false

-- The fields of `Command` that the loop reads. A nil `RetryEnabled` is `none`.
pub record Config : Type 0 where
  pub retry_enabled : Option Bool
  pub retry_max_retries : ℤ
  pub provider_max_retries : ℤ
  pub retry_base_delay_ms : ℤ
  pub provider_max_retry_delay_ms : ℤ

unfoldable pub enabled : Config → Bool
enabled c = elim c.retry_enabled [ none ↦ true | some b ↦ b ]

abbrev pub is_zero : ℤ → Bool
is_zero (pos n) = eqb n 0
is_zero (negsuc n) = false

-- The number of retries that the loop allows.
unfoldable pub attempts : Config → ℤ
attempts c =
    let a = if is_zero c.retry_max_retries then c.provider_max_retries else c.retry_max_retries in
    let b = if is_zero a then pos 3 else a in if ltb_ℤ (pos 10) b then pos 10 else b

abbrev pub millisecond : ℤ
millisecond = pos 1000000

abbrev pub second : ℤ
second = pos 1000000000

-- min(a, b)
abbrev pub min_ℤ : ℤ → ℤ → ℤ
min_ℤ a b = if ltb_ℤ b a then b else a

unfoldable pub base_delay : Config → ℤ
base_delay c =
    if ltb_ℤ (pos 0) c.retry_base_delay_ms
    then int64 (c.retry_base_delay_ms *ℤ millisecond)
    else second

unfoldable pub max_delay : Config → ℤ
max_delay c =
    if ltb_ℤ (pos 0) c.provider_max_retry_delay_ms
    then int64 (c.provider_max_retry_delay_ms *ℤ millisecond)
    else int64 (pos 60 *ℤ second)

abbrev pub with_retry_after : Err → ℤ → ℤ → ℤ
with_retry_after (http status retry_after) limit delay =
    if ltb_ℤ delay retry_after then min_ℤ retry_after limit else delay
with_retry_after _ limit delay = delay

unfoldable pub delay_after : Config → ℕ → Err → ℤ
unfolding base_delay max_delay
delay_after c attempt err =
    let exponential = int64 (pos (2 ^ min attempt 20) *ℤ base_delay c) in
    with_retry_after err (max_delay c) (min_ℤ exponential (max_delay c))

pub data Reply (C : Type 0) : Type 0 where
  ok : C → Reply C
  fail : Err → Reply C

-- What the outside does in the round of an attempt: the hooks before the request, the provider,
-- the hooks after the response, and the context while the loop waits.
pub record World (C : Type 0) : Type 0 where
  pub before_request : ℕ → Option Err
  pub respond : ℕ → Reply C
  pub after_response : ℕ → Option Err
  pub done_while_waiting : ℕ → Option Err

-- The result, the number of provider calls and the delays that were waited for.
pub record Trace (C : Type 0) : Type 0 where
  pub reply : Reply C
  pub calls : ℕ
  pub delays : List ℤ

-- One round ends the loop, or hands on the delay before the next round.
pub data Round (C : Type 0) : Type 0 where
  finished : Reply C → ℕ → List ℤ → Round C
  again : ℤ → Round C

module _ {C : Type 0} (c : Config) (w : World C) where
  -- `last` is the test attempt == attempts.
  pub judge : Bool → ℕ → Reply C → Round C
  judge last attempt (ok completion) = finished (ok completion) 1 []
  judge last attempt (fail err) =
      if not (enabled c) || last || not (retryable_provider_error err)
      then finished (fail err) 1 []
      else elim (w.done_while_waiting attempt) [
        | some done ↦ finished (fail done) 1 (delay_after c attempt err ∷ [])
        | none ↦ again (delay_after c attempt err)
      ]

  pub round : Bool → ℕ → Round C
  round last attempt = elim (w.before_request attempt) [
    | some err ↦ finished (fail err) 0 []
    | none ↦ elim (w.after_response attempt) [
      | some err ↦ finished (fail err) 1 []
      | none ↦ judge last attempt (w.respond attempt)
    ]
  ]

  -- A round that goes on has made one call; the last round never goes on.
  pub conclude : Round C → Trace C → Trace C
  conclude (finished reply calls delays) rest = record {
    reply = reply;
    calls = calls;
    delays = delays;
  }
  conclude (again delay) rest = record {
    reply = rest.reply;
    calls = rest.calls + 1;
    delays = delay ∷ rest.delays;
  }

  abbrev pub unreachable : Trace C
  unreachable = record { reply = fail (other ""); calls = 0; delays = [] }

  -- The loop at `attempt`, with `left` retries left.
  pub loop : ℕ → ℕ → Trace C
  loop zero attempt = conclude (round true attempt) unreachable
  loop (suc left) attempt =
      let rest = loop left (attempt + 1) in conclude (round false attempt) rest

  -- With a negative bound the loop makes no round: the error that it returns is still nil.
  unfoldable pub complete : C → Trace C
  unfolding loop round judge conclude
  complete zero_completion = elim (attempts c) [
    | pos n ↦ loop n 0
    | negsuc n ↦ record { reply = ok zero_completion; calls = 0; delays = [] }
  ]
