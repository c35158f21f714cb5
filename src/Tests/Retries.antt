-- ===== src/Tests/Retries.antt =====
-- `complete` of internal/engine/runtime.go on concrete providers.
use ergo_agent.Prelude.{ℕ, ◌+◌, ◌-◌, ◌≤◌, ◌<◌, ◌≡◌, refl, none, [], ◌∷◌, ltb, if◌then◌else◌}
use ergo_agent.Prelude.Int.{pos, negsuc, ◌*ℤ◌}
use ergo_agent.Retry.{
  http, retryable_provider_error, Config, enabled, attempts, delay_after, ok, fail, World, complete,
}
use ergo_agent.Retry.Bounds.{Retried, complete_run}

abbrev defaults : Config
defaults = record {
  retry_enabled = none;
  retry_max_retries = pos 0;
  provider_max_retries = pos 0;
  retry_base_delay_ms = pos 0;
  provider_max_retry_delay_ms = pos 0;
}

-- A provider that is overloaded twice.
abbrev overloaded : World ℕ
overloaded = record {
  before_request = λ n. none;
  respond = λ n. if ltb n 2 then fail (http 503 (pos 0)) else ok 7;
  after_response = λ n. none;
  done_while_waiting = λ n. none;
}

retries_twice :
    complete defaults overloaded 0
    ≡ record { reply = ok 7; calls = 3; delays = pos 1000000000 ∷ pos 2000000000 ∷ [] }
unfolding complete attempts enabled delay_after retryable_provider_error ◌*ℤ◌
retries_twice = refl

complete_run_example :
    ((complete defaults overloaded 0).calls ≤ 3 + 1)
    × (3 ≤ 10)
    × ((j : ℕ) → j + 1 < (complete defaults overloaded 0).calls → Retried defaults overloaded j)
    × ((x : ℕ)
        → (complete defaults overloaded 0).reply ≡ ok x
        → (0 < (complete defaults overloaded 0).calls)
          × (overloaded.respond ((complete defaults overloaded 0).calls - 1) ≡ ok x))
unfolding attempts
complete_run_example = complete_run defaults overloaded 0 3 refl

abbrev minus_one : Config
minus_one = record defaults { retry_max_retries = negsuc 0 }
