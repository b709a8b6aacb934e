-- ===== src/Lifecycle/Examples.antt =====
-- Calls of the gate and interleavings of a drain, and the theorems at them.
use kunobi_daemon.Common.{◌≡◌, refl, true, List, [], ◌∷◌}
use kunobi_daemon.Lifecycle.{new, begin, start_drain, drop_guard}
use kunobi_daemon.Lifecycle.Gate.{Call, begins, drops, starts_drain, step, run, started}
use kunobi_daemon.Lifecycle.Drain.{
  System, returned, idle, call, task, Reach, here, next, task_step, settle, initial, drain_complete,
  drain_returns,
}

abbrev calls : List Call
calls = begins ∷ begins ∷ starts_drain 5 ∷ begins ∷ drops ∷ []

one_left : (run started calls).guards ≡ 1
unfolding run step new begin start_drain drop_guard
one_left = refl

closed : (run started calls).gate.draining ≡ true
unfolding run step new begin start_drain drop_guard
closed = refl

-- A guard is taken, the drain enters, updates and reads one active request, and then the guard is
-- dropped.
abbrev after_begin : System
after_begin = record { world = step started begins; waiter = idle }

abbrev entered : System
entered = settle 1 5 after_begin

abbrev read_update : System
read_update = settle 2 5 after_begin

abbrev parked : System
parked = settle 3 5 after_begin

abbrev dropped : System
dropped = record { world = step parked.world drops; waiter = parked.waiter }

reach_dropped : Reach initial dropped
unfolding settle task_step step new begin start_drain drop_guard
reach_dropped =
    next
      (next
        (next (next (next here (call initial begins)) (task after_begin entered 5 refl))
          (task entered read_update 5 refl))
        (task read_update parked 5 refl))
      (call parked drops)

drained : dropped.world.guards ≡ 0
unfolding settle task_step step new begin start_drain drop_guard
drained = refl

drain_returns_example : (settle 3 6 dropped).waiter ≡ returned
drain_returns_example = drain_returns dropped 6 reach_dropped drained

-- A drain with no request returns at once.
abbrev alone : System
alone = settle 3 5 initial

reach_alone : Reach initial alone
unfolding settle task_step step new begin start_drain drop_guard
reach_alone =
    next
      (next (next here (task initial (settle 1 5 initial) 5 refl))
        (task (settle 1 5 initial) (settle 2 5 initial) 5 refl))
      (task (settle 2 5 initial) alone 5 refl)

alone_returned : alone.waiter ≡ returned
unfolding settle task_step step new begin start_drain drop_guard
alone_returned = refl

drain_complete_example :
    ((run alone.world calls).gate.draining ≡ true)
    × ((run alone.world calls).gate.active ≡ 0)
    × ((run alone.world calls).guards ≡ 0)
drain_complete_example = drain_complete alone calls reach_alone alone_returned
