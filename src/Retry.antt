-- ===== src/Retry.antt =====
-- src/retry.rs: the persisted budget of attempts at one candidate.
-- Times and delays are seconds in a `u64`.
pub mod Backoff
pub mod Campaign
mod Examples
use kunobi_daemon.Common.{ℕ, min, Bool, ◌&&◌, Option, none, some, ltb, leb, if◌then◌else◌}
use kunobi_daemon.Common.Words.{saturating_add, saturating_mul, one_shl, u64_max}

pub record Policy : Type 0 where
  pub limit : ℕ
  pub delay : ℕ
  pub maximum_delay : ℕ

pub record State : Type 0 where
  pub attempts : ℕ
  pub next_attempt : ℕ

unfoldable pub allowed : State → Policy → ℕ → Bool
allowed s policy now = ltb s.attempts policy.limit && leb s.next_attempt now

unfoldable pub reserve : State → Policy → ℕ → State
reserve s policy now =
    let attempts : ℕ = saturating_add s.attempts 1 in
    let multiplier : ℕ = one_shl (min attempts 63) in
    record {
      attempts = attempts;
      next_attempt =
          saturating_add now (min (saturating_mul policy.delay multiplier) policy.maximum_delay);
    }

unfoldable pub exhaust : State → Policy → State
exhaust s policy = record s { attempts = policy.limit }

unfoldable pub next : State → Policy → Option ℕ
next s policy = if ltb s.attempts policy.limit then some s.next_attempt else none
