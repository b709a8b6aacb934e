-- ===== src/Admission/Examples.antt =====
-- A history of admissions under the limits 1, 2 and 1, and the theorems at it.
use kunobi_daemon.Common.{◌≤◌, ◌≡◌, refl, none, some, List, [], ◌∷◌, arith, ltb, if◌then◌else◌}
use kunobi_daemon.Common.Words.{u64_max}
use kunobi_daemon.Admission.{
  Pool, handshake, application, control, Limits, new, try_acquire, release, snapshot,
}
use kunobi_daemon.Admission.Budgets.{
  Event, acquires, drops, held_in, step, run, limit_of, history, history_exact,
}

abbrev limits : Limits
limits = record { handshakes = 1; application = 2; control = 1 }

limits_fit : (p : Pool) → limit_of limits p ≤ u64_max
limits_fit handshake = omega arith
limits_fit application = omega arith
limits_fit control = omega arith

abbrev events : List Event
events =
    acquires application
    ∷ acquires application
    ∷ acquires application
    ∷ acquires control
    ∷ drops application
    ∷ drops handshake
    ∷ []

full_application :
    snapshot (history limits events).0 application ≡ record { limit = 2; active = 1; rejected = 1 }
unfolding run step new try_acquire release snapshot
full_application = refl

history_exact_example :
    ((snapshot (history limits events).0 control).limit ≡ 1)
    × ((snapshot (history limits events).0 control).active
        ≡ held_in control (history limits events).1)
    × (held_in control (history limits events).1 ≤ 1)
    × ((try_acquire (history limits events).0 control).1
        ≡ (if ltb (held_in control (history limits events).1) 1 then some control else none))
history_exact_example = history_exact limits events control limits_fit

admitted : (try_acquire (history limits events).0 application).1 ≡ some application
unfolding run step new try_acquire release
admitted = refl
