-- ===== src/Lifecycle.antt =====
-- src/lifecycle.rs: the request gate of a daemon. Each method holds the state's mutex, so it is one
-- step. The watch channel that wakes the waiters is the number of messages sent on it. The
-- observations are kept as a list, the last first.
pub mod Gate
pub mod Drain
mod Examples
use kunobi_daemon.Common.{
  ℕ, ◌+◌, ◌-◌, Bool, true, false, ◌&&◌, not, Option, none, some, List, [], ◌∷◌, ◌==◌, if◌then◌else◌,
}

-- The events of src/observation.rs that are recorded through the gate.
pub data Event : Type 0 where
  drain_started drain_completed drain_timed_out rejected : Event

pub record Lifecycle : Type 0 where
  pub draining : Bool
  pub active : ℕ
  pub drain_started_at : Option ℕ
  pub changes : ℕ
  pub observations : List Event

pub record LifecycleSnapshot : Type 0 where
  pub active : ℕ
  pub draining : Bool
  pub draining_for : Option ℕ

pub data DrainOutcome : Type 0 where
  complete : DrainOutcome
  timed_out : ℕ → DrainOutcome

unfoldable pub new : Lifecycle
new = record {
  draining = false;
  active = 0;
  drain_started_at = none;
  changes = 0;
  observations = [];
}

abbrev pub observe : Event → Lifecycle → Lifecycle
observe e g = record g { observations = e ∷ g.observations }

abbrev pub send_replace : Lifecycle → Lifecycle
send_replace g = record g { changes = g.changes + 1 }

abbrev elapsed : ℕ → Option ℕ → Option ℕ
elapsed now none = none
elapsed now (some at) = some (now - at)

unfoldable pub snapshot : Lifecycle → ℕ → LifecycleSnapshot
snapshot g now = record {
  active = g.active;
  draining = g.draining;
  draining_for = elapsed now g.drain_started_at;
}

-- True: a guard is returned.
unfoldable pub begin : Lifecycle → Lifecycle × Bool
begin g = if g.draining then (g, false) else (record g { active = g.active + 1 }, true)

unfoldable pub start_drain : Lifecycle → ℕ → Lifecycle × Bool
start_drain g now =
    if g.draining
    then (g, false)
    else (let closed : Lifecycle =
          observe drain_started (record g { draining = true; drain_started_at = some now }) in
        (send_replace (if g.active == 0 then observe drain_completed closed else closed), true))

unfoldable pub accepting_calls : Lifecycle → Bool
accepting_calls g = not g.draining

-- `Drop for RequestGuard`. A guard is held, so `active` is not 0.
unfoldable pub drop_guard : Lifecycle → Lifecycle
drop_guard g =
    let less : Lifecycle = record g { active = g.active - 1 } in
    if less.draining && less.active == 0 then send_replace (observe drain_completed less) else less

-- The end of `drain_until`: whether `drain` finished before the deadline.
unfoldable pub drain_outcome : Lifecycle → Bool → Lifecycle × DrainOutcome
drain_outcome g finished =
    if finished
    then (g, complete)
    else if g.active == 0
    then (g, complete)
    else (observe drain_timed_out g, timed_out g.active)
