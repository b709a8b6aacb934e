-- ===== src/Backoff/Examples.antt =====
-- Polls of src/backoff.rs, and the theorem at a concrete input.
use kunobi_daemon.Common.{ℕ, ◌+◌, ◌-◌, ◌≡◌, refl, Bool, false, some, Result, ok, arith}
use kunobi_daemon.Backoff.{World, next_pause, overrun, slept, napped, checked, loop, poll}
use kunobi_daemon.Backoff.Polling.{Clock, poll_total}

-- The world is its clock, and the check never holds.
abbrev never : World ℕ ℕ
never = record { now = λ t. (t, t); sleep = λ t d. t + d; done = λ t. (t + 1_000, ok false) }

never-Clock : Clock never
never-Clock = record {
  time = λ t. t;
  now_reads = λ t. (omega arith, refl);
  sleep_waits = λ t d. omega arith;
  done_keeps = λ t. omega arith;
}

-- Naps of 1, 2 and 4 ms, and one that ends at the deadline.
never-poll : poll never 5 (some 10_000_000) 0 ≡ some (10_000_000, ok false)
unfolding poll loop checked napped slept next_pause overrun
never-poll = refl

poll_total_example :
    (r : ℕ × Result ℕ Bool) × (poll never (10_000_000 - never-Clock.time 0 + 1) (some 10_000_000) 0
      ≡ some r)
poll_total_example = poll_total never never-Clock 10_000_000 0
