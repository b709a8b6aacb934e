-- ===== src/Selection.antt =====
-- src/selection.rs: an observer of a replacement that another process drives. Durations are
-- nanoseconds since the wait began.
pub mod Rounds
pub mod Waiting
pub mod Termination
mod Examples
use kunobi_daemon.Common.{
  ℕ, ◌+◌, ◌*◌, min, Bool, true, false, Option, none, some, leb, if◌then◌else◌,
}

pub record Budget : Type 0 where
  pub commit : ℕ
  pub proof : ℕ

pub data Decision : Type 0 where
  current committed not_committed wait : Decision

pub record Watch : Type 0 where
  pub budget : Budget
  pub committed_at : Option ℕ

-- `Duration::MAX`: u64::MAX seconds and 999,999,999 nanoseconds.
abbrev pub duration_max : ℕ
duration_max = 0xffff_ffff_ffff_ffff * 1_000_000_000 + 999_999_999

unfoldable pub new : Budget → Watch
new budget = record { budget = budget; committed_at = none }

-- `Watch::until`.
unfoldable pub until : Watch → ℕ
until w = elim w.committed_at [
  | none ↦ w.budget.commit
  | some at ↦ min (min (at + w.budget.proof) duration_max) w.budget.commit
]

abbrev or_at : Option ℕ → Bool → ℕ → Option ℕ
or_at none true elapsed = some elapsed
or_at none false elapsed = none
or_at (some at) _ elapsed = some at

-- `Watch::record`.
unfoldable pub note : Watch → ℕ → Bool → Watch
note w elapsed is_committed = record w { committed_at = or_at w.committed_at is_committed elapsed }

abbrev by_expiry : Option ℕ → Bool → Decision
by_expiry _ false = wait
by_expiry (some _) true = committed
by_expiry none true = not_committed

unfoldable pub decide : Watch → ℕ → Bool → Decision
decide w elapsed proven =
    if proven then current else by_expiry w.committed_at (leb (until w) elapsed)
