-- ===== src/Upgrade.antt =====
-- src/upgrade.rs: `ensure_current` in any number of processes that share one upgrade lock
-- (src/ownership.rs), one await at a time. The probe, the replacement and the clock say what they
-- do through what happens at an await; each process has its own test of what it accepts; and the
-- daemon may exit, start or change between any two awaits.
pub mod Exclusive
pub mod Reused
mod Examples
use kunobi_daemon.Common.{
  ℕ, Bool, true, false, Option, none, some, List, [], ◌∷◌, Result, ok, err, ◌==◌, if◌then◌else◌,
}

pub data UpgradeError (E : Type 0) : Type 0 where
  probe : E → UpgradeError E
  replace : E → UpgradeError E
  lock : (error : ℕ) → UpgradeError E
  deadline : UpgradeError E

-- Where a call stands: at its first probe, at the lock, at the probe under the lock, at the
-- replacement, in the loop of probes after it, or at its end.
pub data Stage (T E : Type 0) : Type 0 where
  probing locking checking replacing polling : Stage T E
  ended : Result (UpgradeError E) T → Stage T E

-- What happens at an await: the probe tells what the daemon is, or fails; the lock is tried, or
-- fails; the replacement ends with a daemon, perhaps not live yet, or fails; or the deadline comes.
-- Whatever the calls do, the daemon may become another one, or none, by itself.
pub data Outcome (T E : Type 0) : Type 0 where
  reports : Outcome T E
  probe_fails : E → Outcome T E
  tries_lock : Outcome T E
  lock_fails : (error : ℕ) → Outcome T E
  replaced : Option T → Outcome T E
  replace_fails : E → Outcome T E
  daemon_becomes : Option T → Outcome T E
  expires : Outcome T E

-- The daemon that answers a probe, the process that holds the lock, and each process's call.
pub record World (T E : Type 0) : Type 0 where
  pub daemon : Option T
  pub holder : Option ℕ
  pub stage : ℕ → Stage T E

abbrev pub holds : ℕ → Option ℕ → Bool
holds p none = false
holds p (some q) = p == q

abbrev pub is_probe : {T E : Type 0} → Stage T E → Bool
is_probe probing = true
is_probe locking = false
is_probe checking = true
is_probe replacing = false
is_probe polling = true
is_probe (ended r) = false

abbrev pub is_locking : {T E : Type 0} → Stage T E → Bool
is_locking probing = false
is_locking locking = true
is_locking checking = false
is_locking replacing = false
is_locking polling = false
is_locking (ended r) = false

abbrev pub is_replacing : {T E : Type 0} → Stage T E → Bool
is_replacing probing = false
is_replacing locking = false
is_replacing checking = false
is_replacing replacing = true
is_replacing polling = false
is_replacing (ended r) = false

abbrev pub has_ended : {T E : Type 0} → Stage T E → Bool
has_ended probing = false
has_ended locking = false
has_ended checking = false
has_ended replacing = false
has_ended polling = false
has_ended (ended r) = true

-- After a probe that is not accepted.
abbrev pub next_stage : {T E : Type 0} → Stage T E → Stage T E
next_stage probing = locking
next_stage checking = replacing
next_stage s = s

module _ {T E : Type 0} (accepts : ℕ → T → Bool) where
  abbrev moved : ℕ → Stage T E → World T E → World T E
  moved p s w = record w { stage = λ q. if q == p then s else w.stage q }

  -- The guard of the lock is dropped with the call.
  unfoldable pub leave : ℕ → Result (UpgradeError E) T → World T E → World T E
  leave p r w =
      moved p (ended r) (record w { holder = if holds p w.holder then none else w.holder })

  -- A probe that is accepted ends the call; otherwise it goes on.
  unfoldable pub probed : ℕ → Stage T E → Option T → World T E → World T E
  probed p next none w = moved p next w
  probed p next (some current) w =
      if accepts p current then leave p (ok current) w else moved p next w

  unfoldable pub try_lock : ℕ → Option ℕ → World T E → World T E
  try_lock p none w = moved p checking (record w { holder = some p })
  try_lock p (some q) w = w

  -- An outcome that is not of the await changes nothing.
  unfoldable pub act : ℕ → Stage T E → Outcome T E → World T E → World T E
  act p s reports w = if is_probe s then probed p (next_stage s) w.daemon w else w
  act p s (probe_fails e) w = if is_probe s then leave p (err (probe e)) w else w
  act p s tries_lock w = if is_locking s then try_lock p w.holder w else w
  act p s (lock_fails e) w = if is_locking s then leave p (err (lock e)) w else w
  act p s (replaced d) w = if is_replacing s then moved p polling (record w { daemon = d }) else w
  act p s (replace_fails e) w = if is_replacing s then leave p (err (replace e)) w else w
  act p s (daemon_becomes d) w = record w { daemon = d }
  act p s expires w = if has_ended s then w else leave p (err deadline) w

  unfoldable pub run : World T E → List (ℕ × Outcome T E) → World T E
  run w [] = w
  run w ((p, outcome) ∷ later) = run (act p (w.stage p) outcome w) later
