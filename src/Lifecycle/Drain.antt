-- ===== src/Lifecycle/Drain.antt =====
-- `Lifecycle::drain` of src/lifecycle.rs against every interleaving with the other calls. Its
-- awaiting receiver holds the number of the last message that it has seen.
use kunobi_daemon.Common.{
  some_inj, ℕ, zero, suc, ◌≤◌, ◌<◌, ◌≡◌, refl, ◌∙◌, inl, inr, true, Option, none, some, List, arith,
  ◌==◌, ==_iff, if◌then◌else◌, Bool-cases,
}
use mathlib.Core.Path.{subst}
use kunobi_daemon.Lifecycle.{
  Lifecycle, begin, start_drain, drop_guard, drain_outcome, accepting_calls,
}
use kunobi_daemon.Lifecycle.Gate.{
  World, Call, begins, drops, starts_drain, drain_ends, IsConsistent, step, run, started,
  new-IsConsistent, step-IsConsistent, run-IsConsistent, drain_one_way,
}

-- Where the waiting task stands: before its call, before a turn of its loop, after
-- `borrow_and_update`, in `changed().await`, or behind its return.
pub data Waiter : Type 0 where
  idle : Waiter
  turning updated awaiting : ℕ → Waiter
  returned : Waiter

pub record System : Type 0 where
  pub world : World
  pub waiter : Waiter

-- `self.start_drain(); let mut changes = self.changes.subscribe();`
abbrev enter : World → ℕ → System
enter w now =
    let g : Lifecycle = (start_drain w.gate now).0 in
    record { world = record w { gate = g }; waiter = turning g.changes }

-- After the update, the loop reads `active` under the mutex.
abbrev inspect : Lifecycle → ℕ → Waiter
inspect g seen = if g.active == 0 then returned else awaiting seen

-- One step of the waiting task, at a time; `none` while it cannot run.
unfoldable pub task_step : World → ℕ → Waiter → Option System
task_step w now idle = some (enter w now)
task_step w now (turning seen) = some (record { world = w; waiter = updated w.gate.changes })
task_step w now (updated seen) = some (record { world = w; waiter = inspect w.gate seen })
task_step w now (awaiting seen) =
    if w.gate.changes == seen then none else some (record { world = w; waiter = turning seen })
task_step w now returned = none

-- Any call of another task, or a step of this one.
pub data Step : System → System → Type 0 where
  call : (s : System) (c : Call) → Step s (record { world = step s.world c; waiter = s.waiter })
  task : (s t : System) (now : ℕ) → task_step s.world now s.waiter ≡ some t → Step s t

pub data Reach (s : System) : System → Type 0 where
  here : Reach s s
  next : {t u : System} → Reach s t → Step t u → Reach s u

abbrev Waits : Lifecycle → Waiter → Type 0
Waits g idle = Unit {0}
Waits g (turning seen) = (g.draining ≡ true) × (seen ≤ g.changes)
Waits g (updated seen) = (g.draining ≡ true) × (seen ≤ g.changes)
Waits g (awaiting seen) =
    (g.draining ≡ true) × (seen ≤ g.changes) × (g.changes ≡ seen → 0 < g.active)
Waits g returned = (g.draining ≡ true) × (g.active ≡ 0)

pub record IsSound (s : System) : Type 0 where
  pub consistent : IsConsistent s.world
  pub waits : Waits s.world.gate s.waiter

call-Waits :
    (w : World) (c : Call) (t : Waiter) → IsConsistent w → Waits w.gate t → Waits (step w c).gate t
unfolding step begin start_drain drop_guard drain_outcome
call-Waits w begins idle v h = tt
call-Waits w drops idle v h = tt
call-Waits w (starts_drain now) idle v h = tt
call-Waits w (drain_ends f) idle v h = tt
call-Waits w begins (turning n) v h = ground arith
call-Waits w drops (turning n) v h = ground arith
call-Waits w (starts_drain now) (turning n) v h = ground arith
call-Waits w (drain_ends f) (turning n) v h = ground arith
call-Waits w begins (updated n) v h = ground arith
call-Waits w drops (updated n) v h = ground arith
call-Waits w (starts_drain now) (updated n) v h = ground arith
call-Waits w (drain_ends f) (updated n) v h = ground arith
call-Waits w begins (awaiting n) v h = ground arith
call-Waits w drops (awaiting n) v h = ground arith
call-Waits w (starts_drain now) (awaiting n) v h = ground arith
call-Waits w (drain_ends f) (awaiting n) v h = ground arith
call-Waits w begins returned v h = ground arith
call-Waits w drops returned v h = ground arith
call-Waits w (starts_drain now) returned v h = ground arith
call-Waits w (drain_ends f) returned v h = ground arith

enter-IsSound : (w : World) (now : ℕ) → IsConsistent w → IsSound (enter w now)
unfolding start_drain step
enter-IsSound w now v = record {
  consistent = step-IsConsistent w (starts_drain now) v;
  waits = ground arith;
}

inspect-Waits :
    (g : Lifecycle) (seen : ℕ) → (g.draining ≡ true) × (seen ≤ g.changes) → Waits g (inspect g seen)
inspect-Waits g seen h = elim (Bool-cases (g.active == 0)) [
  | inl empty ↦ rw empty (h.0, (==_iff _ _).0 empty)
  | inr held ↦ rw held (h.0, h.1, λ _. ground arith)
]

task-IsSound :
    (w : World) (now : ℕ) (t : Waiter) (u : System)
    → IsConsistent w
    → Waits w.gate t
    → task_step w now t ≡ some u
    → IsSound u
unfolding task_step
task-IsSound w now idle u v h e = subst IsSound (some_inj e) (enter-IsSound w now v)
task-IsSound w now (turning seen) u v h e =
    subst IsSound (some_inj e) (record { consistent = v; waits = (h.0, omega arith) })
task-IsSound w now (updated seen) u v h e =
    subst IsSound (some_inj e) (record { consistent = v; waits = inspect-Waits w.gate seen h })
task-IsSound w now (awaiting seen) u v h e = elim (Bool-cases (w.gate.changes == seen)) [
  | inl same ↦ ground arith
  | inr news ↦
      subst IsSound (some_inj (rw news at e)) (record { consistent = v; waits = (h.0, h.1) })
]
task-IsSound w now returned u v h e = cc

abbrev pub initial : System
initial = record { world = started; waiter = idle }

reach-IsSound : {s t : System} → IsSound s → Reach s t → IsSound t
reach-IsSound h here = h
reach-IsSound h (next r (call u c)) =
    let before : IsSound u = reach-IsSound h r in
    record {
      consistent = step-IsConsistent u.world c before.consistent;
      waits = call-Waits u.world c u.waiter before.consistent before.waits;
    }
reach-IsSound h (next r (task u v now e)) =
    let before : IsSound u = reach-IsSound h r in
    task-IsSound u.world now u.waiter v before.consistent before.waits e

initial-IsSound : IsSound initial
initial-IsSound = record { consistent = new-IsConsistent; waits = tt }

closed_for_good :
    (w : World) (more : List Call)
    → IsConsistent w
    → w.gate.draining ≡ true
    → w.gate.active ≡ 0
    → ((run w more).gate.draining ≡ true)
      × ((run w more).gate.active ≡ 0)
      × ((run w more).guards ≡ 0)
unfolding accepting_calls
closed_for_good w more v d a =
    let shut = drain_one_way w more 0 d in
    let after : IsConsistent (run w more) = run-IsConsistent w more v in
    ground (arith, shut, after.counted, v.counted)

-- When `drain` has returned, in whatever interleaving, the gate is closed and no guard is held;
-- and this stays so whatever calls follow.
pub drain_complete :
    (s : System) (more : List Call)
    → Reach initial s
    → s.waiter ≡ returned
    → ((run s.world more).gate.draining ≡ true)
      × ((run s.world more).gate.active ≡ 0)
      × ((run s.world more).guards ≡ 0)
drain_complete s more r e =
    let sound : IsSound s = reach-IsSound initial-IsSound r in
    let done : (s.world.gate.draining ≡ true) × (s.world.gate.active ≡ 0) =
      subst (Waits s.world.gate) e sound.waits in
    closed_for_good s.world more sound.consistent done.0 done.1

-- The task's own steps, at most so many, with no other call between them.
unfoldable pub settle : ℕ → ℕ → System → System
settle zero now s = s
settle (suc n) now s = elim (task_step s.world now s.waiter) [ none ↦ s | some t ↦ settle n now t ]

settles :
    (w : World) (now : ℕ) (t : Waiter)
    → Waits w.gate t
    → w.gate.active ≡ 0
    → (settle 3 now (record { world = w; waiter = t })).waiter ≡ returned
unfolding settle task_step start_drain
settles w now idle h e = ground arith
settles w now (turning seen) h e = ground arith
settles w now (updated seen) h e = ground arith
settles w now (awaiting seen) h e = ground (arith, h.2)
settles w now returned h e = refl

-- No wakeup is lost: wherever the task stands in whatever interleaving, once no guard is held it
-- returns within three steps of its own.
pub drain_returns :
    (s : System) (now : ℕ)
    → Reach initial s
    → s.world.guards ≡ 0
    → (settle 3 now s).waiter ≡ returned
drain_returns s now r empty =
    let sound : IsSound s = reach-IsSound initial-IsSound r in
    settles s.world now s.waiter sound.waits (sound.consistent.counted ∙ empty)
