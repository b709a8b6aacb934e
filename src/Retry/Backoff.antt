-- ===== src/Retry/Backoff.antt =====
-- How long a reservation in src/retry.rs waits.
use kunobi_daemon.Common.{ℕ, ◌+◌, ◌*◌, ◌^◌, ◌≤◌, min, ◌≡◌, arith}
use kunobi_daemon.Common.Words.{saturating_add, u64_max, one_shl_exact, pow_mono, pow_pos}
use native.Mathlib.Nat.{mul-le-mul_left}
use kunobi_daemon.Retry.{Policy, State, reserve}

-- A reservation made at a time within the clock's range spends exactly one attempt, unless the
-- counter is at its maximum, and schedules the next one no earlier than now and no later than the
-- maximum delay from now.
pub reserve_bounds :
    (s : State) (policy : Policy) (now : ℕ)
    → now ≤ u64_max
    → ((reserve s policy now).attempts ≡ saturating_add s.attempts 1)
      × (now ≤ (reserve s policy now).next_attempt)
      × ((reserve s policy now).next_attempt ≤ saturating_add now policy.maximum_delay)
unfolding reserve
reserve_bounds s policy now h = omega arith

-- The next attempt lies exactly the capped, doubled delay after now, cut off only at the end of the
-- clock: the saturation inside the computation never shows. The doubling stops at the 63rd attempt.
pub reserve_exact :
    (s : State) (policy : Policy) (now : ℕ)
    → (reserve s policy now).next_attempt
      ≡ min (now + min (policy.delay * 2 ^ min (s.attempts + 1) 63) policy.maximum_delay) u64_max
unfolding reserve
reserve_exact s policy now =
    rw (one_shl_exact (min (saturating_add s.attempts 1) 63) (omega arith))
      (rw (capped s.attempts) (omega arith))
  where
    capped : (a : ℕ) → min (saturating_add a 1) 63 ≡ min (a + 1) 63
    capped a = omega arith

-- For one policy and one time, a state with more attempts never retries sooner than a state with
-- fewer.
pub reserve_mono :
    (earlier later : State) (policy : Policy) (now : ℕ)
    → earlier.attempts ≤ later.attempts
    → (reserve earlier policy now).next_attempt ≤ (reserve later policy now).next_attempt
reserve_mono earlier later policy now h =
    rw (reserve_exact earlier policy now, reserve_exact later policy now)
      (omega (
        arith,
        mul-le-mul_left policy.delay
            (pow_mono (min (earlier.attempts + 1) 63) (min (later.attempts + 1) 63) (omega arith)),
      ))

-- A reservation never retries sooner than the initial delay from now, or the maximum delay where
-- that is lower, up to the end of the clock.
pub reserve_floor :
    (s : State) (policy : Policy) (now : ℕ)
    → saturating_add now (min policy.delay policy.maximum_delay)
      ≤ (reserve s policy now).next_attempt
reserve_floor s policy now =
    rw (reserve_exact s policy now)
      (omega (arith, mul-le-mul_left policy.delay (pow_pos (min (s.attempts + 1) 63))))
