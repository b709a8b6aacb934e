-- ===== src/Lifecycle/Gate.antt =====
-- The gate of src/lifecycle.rs over any history of its calls.
use kunobi_daemon.Common.{
  ℕ, suc, ◌+◌, ◌-◌, ◌≤◌, ◌≡◌, Bool, true, false, ◌&&◌, Option, none, some, List, [], ◌∷◌, arith,
  ◌==◌, if◌then◌else◌,
}
use kunobi_daemon.Lifecycle.{
  Event, drain_started, drain_completed, drain_timed_out, rejected, Lifecycle, new, begin,
  start_drain, drop_guard, drain_outcome, accepting_calls,
}

-- A guard is dropped only if one is held; a drain's deadline may pass at any time.
pub data Call : Type 0 where
  begins drops : Call
  starts_drain : ℕ → Call
  drain_ends : Bool → Call

-- The gate and the guards that are held.
pub record World : Type 0 where
  pub gate : Lifecycle
  pub guards : ℕ

grant : Lifecycle × Bool → ℕ → World
grant (g, true) n = record { gate = g; guards = n + 1 }
grant (g, false) n = record { gate = g; guards = n }

unfoldable pub step : World → Call → World
unfolding grant
step w begins = grant (begin w.gate) w.guards
step w drops =
    if w.guards == 0 then w else record { gate = drop_guard w.gate; guards = w.guards - 1 }
step w (starts_drain now) = record w { gate = (start_drain w.gate now).0 }
step w (drain_ends finished) = record w { gate = (drain_outcome w.gate finished).0 }

unfoldable pub run : World → List Call → World
run w [] = w
run w (c ∷ cs) = run (step w c) cs

abbrev pub started : World
started = record { gate = new; guards = 0 }

abbrev pub is_same : Event → Event → Bool
is_same drain_started drain_started = true
is_same drain_completed drain_completed = true
is_same drain_timed_out drain_timed_out = true
is_same rejected rejected = true
is_same _ _ = false

abbrev pub count : Event → List Event → ℕ
count e [] = 0
count e (x ∷ xs) = if is_same e x then suc (count e xs) else count e xs

abbrev pub is_set : Option ℕ → Bool
is_set none = false
is_set (some _) = true

-- What holds between two calls.
pub record IsConsistent (w : World) : Type 0 where
  pub counted : w.gate.active ≡ w.guards
  pub clock_set : is_set w.gate.drain_started_at ≡ w.gate.draining
  pub starts : count drain_started w.gate.observations ≡ (if w.gate.draining then 1 else 0)
  pub completions :
      count drain_completed w.gate.observations
      ≡ (if w.gate.draining && w.gate.active == 0 then 1 else 0)

-- A fresh gate is consistent.
pub new-IsConsistent : IsConsistent started
unfolding new
new-IsConsistent = ground arith

pub step-IsConsistent : (w : World) (c : Call) → IsConsistent w → IsConsistent (step w c)
unfolding step begin start_drain drop_guard drain_outcome
step-IsConsistent w begins h = ground arith
step-IsConsistent w drops h = ground arith
step-IsConsistent w (starts_drain now) h = ground arith
step-IsConsistent w (drain_ends finished) h = ground arith

pub run-IsConsistent : (w : World) (cs : List Call) → IsConsistent w → IsConsistent (run w cs)
unfolding run
run-IsConsistent w [] h = h
run-IsConsistent w (c ∷ cs) h = run-IsConsistent (step w c) cs (step-IsConsistent w c h)

-- After any calls the gate counts exactly the guards that are held, and it has recorded the start
-- of the drain once if it drains and never otherwise, and the completion once if it drains and no
-- guard is held, and never otherwise.
pub started-IsConsistent : (cs : List Call) → IsConsistent (run started cs)
started-IsConsistent cs = run-IsConsistent started cs new-IsConsistent

pub step_draining :
    (w : World) (c : Call)
    → w.gate.draining ≡ true
    → ((step w c).gate.draining ≡ true)
      × ((step w c).guards ≤ w.guards)
      × ((step w c).gate.drain_started_at ≡ w.gate.drain_started_at)
unfolding step begin start_drain drop_guard drain_outcome
step_draining w begins h = ground arith
step_draining w drops h = ground arith
step_draining w (starts_drain now) h = ground arith
step_draining w (drain_ends finished) h = ground arith

-- A closed gate stays closed: whatever calls follow, no new guard is given out, a second drain
-- reports that it was not the first, and the drain's starting time is kept.
pub drain_one_way :
    (w : World) (cs : List Call) (now : ℕ)
    → w.gate.draining ≡ true
    → (accepting_calls (run w cs).gate ≡ false)
      × ((begin (run w cs).gate).1 ≡ false)
      × ((start_drain (run w cs).gate now) ≡ ((run w cs).gate, false))
      × ((run w cs).guards ≤ w.guards)
      × ((run w cs).gate.drain_started_at ≡ w.gate.drain_started_at)
unfolding run accepting_calls begin start_drain
drain_one_way w [] now h = ground arith
drain_one_way w (c ∷ cs) now h =
    ground (arith, step_draining w c h, drain_one_way (step w c) cs now)
