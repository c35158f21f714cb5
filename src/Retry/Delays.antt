-- ===== src/Retry/Delays.antt =====
-- The delays of `complete` in internal/engine/runtime.go.
use ergo_agent.Prelude.{ℕ, ◌+◌, ◌*◌, ◌≤◌, ◌<◌, ◌^◌, min, ◌≡◌, ◌∙◌, ap, arith}
use ergo_agent.Prelude.Int.{int64, ℤ, pos, pos_part, neg_part, ◌*ℤ◌}
use ergo_agent.Retry.{
  Err, network, Config, base_delay, max_delay, min_ℤ, with_retry_after, delay_after,
}

infix 50 ◌≤ℤ◌
abbrev pub ◌≤ℤ◌ : ℤ → ℤ → Type 0
a ≤ℤ b = pos_part a + neg_part b ≤ pos_part b + neg_part a

with_retry_after-le :
    (err : Err) (limit delay : ℤ) → delay ≤ℤ limit → with_retry_after err limit delay ≤ℤ limit
with_retry_after-le err limit delay h = ground arith

min_ℤ-le : (a b : ℤ) → min_ℤ a b ≤ℤ b
min_ℤ-le a b = ground arith

-- No delay between retries is longer than the configured maximum, also one that the provider asked
-- for.
pub delay_after-le-max_delay :
    (c : Config) (attempt : ℕ) (err : Err) → delay_after c attempt err ≤ℤ max_delay c
unfolding delay_after
delay_after-le-max_delay c attempt err =
    with_retry_after-le err (max_delay c)
      (min_ℤ (int64 (pos (2 ^ min attempt 20) *ℤ base_delay c)) (max_delay c))
      (min_ℤ-le (int64 (pos (2 ^ min attempt 20) *ℤ base_delay c)) (max_delay c))

pos_mul : (a b : ℕ) → pos a *ℤ pos b ≡ pos (a * b)
unfolding ◌*ℤ◌
pos_mul a b = grind arith

int64_small : (n : ℕ) → n < 2 ^ 63 → int64 (pos n) ≡ pos n
int64_small n h = ground arith

-- The exponential part of the delay, before it is made a duration.
product :
    (c : Config) (attempt base : ℕ)
    → base_delay c ≡ pos base
    → attempt ≤ 20
    → pos (2 ^ min attempt 20) *ℤ base_delay c ≡ pos (2 ^ attempt * base)
product c attempt base hb ha =
    let e : min attempt 20 ≡ attempt = omega arith in rw (hb, e) (pos_mul (2 ^ attempt) base)

-- For a base delay that is not negative, attempts up to 20 and no overflow, the delay after a
-- network failure is the base delay doubled with each attempt, or the maximum when that is smaller.
pub delay_after-doubles :
    (c : Config) (attempt base : ℕ)
    → base_delay c ≡ pos base
    → attempt ≤ 20
    → 2 ^ attempt * base < 2 ^ 63
    → delay_after c attempt network ≡ min_ℤ (pos (2 ^ attempt * base)) (max_delay c)
unfolding delay_after
delay_after-doubles c attempt base hb ha ho =
    ap (λ (d : ℤ). min_ℤ (int64 d) (max_delay c)) (product c attempt base hb ha)
    ∙ ap (λ (d : ℤ). min_ℤ d (max_delay c)) (int64_small (2 ^ attempt * base) ho)
