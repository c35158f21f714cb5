-- ===== src/Retry/Bounds.antt =====
-- `complete` of internal/engine/runtime.go: how often it calls the provider, and why.
use ergo_agent.Prelude.{
  ℕ, zero, suc, ◌+◌, ◌-◌, ◌≤◌, ◌<◌, Bool, true, false, ◌≡◌, refl, none, List, length, arith,
}
use mathlib.Core.Bool.{true≢false}
use ergo_agent.Prelude.Int.{ℤ, pos}
use ergo_agent.Retry.{
  Err, retryable_provider_error, Config, enabled, attempts, Reply, ok, fail, World, Trace, Round,
  finished, again, judge, round, conclude, unreachable, loop, complete,
}

-- `attempts` is at most ten.
attempts_le : (c : Config) (n : ℕ) → attempts c ≡ pos n → n ≤ 10
unfolding attempts
attempts_le c n h = ground arith

module _ {C : Type 0} (c : Config) (w : World C) where
  -- In the round of this attempt the provider failed in a way that the code retries, and nothing
  -- stopped the loop.
  pub record Retried (attempt : ℕ) : Type 0 where
    pub err : Err
    pub failed : w.respond attempt ≡ fail err
    pub retryable : retryable_provider_error err ≡ true
    pub enabled_retries : enabled c ≡ true
    pub undisturbed : w.done_while_waiting attempt ≡ none

  judge-again :
      (last : Bool) (n : ℕ) (r : Reply C) (d : ℤ)
      → w.respond n ≡ r
      → judge c w last n r ≡ again d
      → Retried n × (last ≡ false)
  unfolding judge
  judge-again last n (ok x) d e h = cc
  judge-again last n (fail err) d e h = (
    record {
      err = err;
      failed = e;
      retryable = ground arith;
      enabled_retries = ground arith;
      undisturbed = ground arith;
    },
    ground arith,
  )

  round-again :
      (last : Bool) (n : ℕ) (d : ℤ) → round c w last n ≡ again d → Retried n × (last ≡ false)
  unfolding round
  round-again last n d h = judge-again last n (w.respond n) d refl (ground arith)

  -- What ends the loop at an attempt.
  record Finished (n : ℕ) (reply : Reply C) (calls : ℕ) (delays : List ℤ) : Type 0 where
    calls_le : calls ≤ 1
    delays_le : length delays ≤ calls
    answered : (x : C) → reply ≡ ok x → (calls ≡ 1) × (w.respond n ≡ ok x)

  round-finished :
      (last : Bool) (n : ℕ) (reply : Reply C) (calls : ℕ) (delays : List ℤ)
      → round c w last n ≡ finished reply calls delays
      → Finished n reply calls delays
  unfolding round judge
  round-finished last n reply calls delays h = ground arith

  -- What the loop did from an attempt on.
  pub record IsRun (left n : ℕ) (t : Trace C) : Type 0 where
    pub calls_le : t.calls ≤ left + 1
    pub delays_le : length t.delays ≤ t.calls
    pub retried : (j : ℕ) → j + 1 < t.calls → Retried (n + j)
    pub answered : (x : C) → t.reply ≡ ok x → (0 < t.calls) × (w.respond (n + (t.calls - 1)) ≡ ok x)

  respond_at : (n m : ℕ) {x : C} → n ≡ m → w.respond n ≡ ok x → w.respond m ≡ ok x
  respond_at n m e h = rw e at h

  Retried-at : (n m : ℕ) → n ≡ m → Retried n → Retried m
  Retried-at n m e h = rw e at h

  Finished-IsRun :
      (left n : ℕ) (reply : Reply C) (calls : ℕ) (delays : List ℤ)
      → Finished n reply calls delays
      → IsRun left n (record { reply = reply; calls = calls; delays = delays })
  Finished-IsRun left n reply calls delays f = record {
    calls_le = omega (arith, f.calls_le);
    delays_le = f.delays_le;
    retried = λ j h. absurd (omega (arith, f.calls_le));
    answered = λ x e.
        let (one, r) = f.answered x e in
        (omega arith, respond_at n (n + (calls - 1)) (omega arith) r);
  }

  Retried-again :
      (left n : ℕ) (t : Trace C)
      → Retried n
      → IsRun left (n + 1) t
      → (j : ℕ) → j + 1 < t.calls + 1
      → Retried (n + j)
  Retried-again left n t now i zero h = Retried-at n (n + zero) (omega arith) now
  Retried-again left n t now i (suc j) h =
      Retried-at (n + 1 + j) (n + suc j) (omega arith) (i.retried j (omega arith))

  conclude-IsRun :
      (left n : ℕ) (r : Round C) (t : Trace C)
      → round c w false n ≡ r
      → IsRun left (n + 1) t
      → IsRun (suc left) n (conclude c w r t)
  unfolding conclude
  conclude-IsRun left n (finished reply calls delays) t e i =
      Finished-IsRun (suc left) n reply calls delays (round-finished false n reply calls delays e)
  conclude-IsRun left n (again d) t e i = record {
    calls_le = omega (arith, i.calls_le);
    delays_le = omega (arith, i.delays_le);
    retried = Retried-again left n t (round-again false n d e).0 i;
    answered = λ x q.
        let (some_call, r) = i.answered x q in
        (omega arith, respond_at (n + 1 + (t.calls - 1)) (n + (t.calls + 1 - 1)) (omega arith) r);
  }

  last-IsRun :
      (n : ℕ) (r : Round C) → round c w true n ≡ r → IsRun 0 n (conclude c w r (unreachable c w))
  unfolding conclude
  last-IsRun n (finished reply calls delays) e =
      Finished-IsRun 0 n reply calls delays (round-finished true n reply calls delays e)
  last-IsRun n (again d) e = absurd (true≢false (round-again true n d e).1)

  loop-IsRun : (left n : ℕ) → IsRun left n (loop c w left n)
  unfolding loop
  loop-IsRun zero n = last-IsRun n (round c w true n) refl
  loop-IsRun (suc left) n =
      conclude-IsRun left n (round c w false n) (loop c w left (n + 1)) refl
        (loop-IsRun left (n + 1))

  complete-pos :
      (zero_completion : C) (n : ℕ)
      → attempts c ≡ pos n
      → complete c w zero_completion ≡ loop c w n 0
  unfolding complete
  complete-pos z n h = rw (h, complete)

  -- When the number of retries n is not negative, n is at most ten and the provider is called at
  -- most n + 1 times; every call but the last failed in a way that is retried; and a completion
  -- that is returned is the answer of the last call.
  pub complete_run :
      (zero_completion : C) (n : ℕ)
      → attempts c ≡ pos n
      → ((complete c w zero_completion).calls ≤ n + 1)
        × (n ≤ 10)
        × ((j : ℕ) → j + 1 < (complete c w zero_completion).calls → Retried j)
        × ((x : C)
            → (complete c w zero_completion).reply ≡ ok x
            → (0 < (complete c w zero_completion).calls)
              × (w.respond ((complete c w zero_completion).calls - 1) ≡ ok x))
  complete_run z n h =
      let i = loop-IsRun n 0 in
      rw (complete-pos z n h) (
        i.calls_le,
        attempts_le c n h,
        λ j q. Retried-at (0 + j) j (omega arith) (i.retried j q),
        λ x q.
            let (a, r) = i.answered x q in
            (
              a,
              respond_at (0 + ((loop c w n 0).calls - 1)) ((loop c w n 0).calls - 1) (omega arith)
                  r,
            ),
      )
