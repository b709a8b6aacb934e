-- ===== src/Generation/Examples.antt =====
-- Histories of a generation, and the theorems on them at concrete inputs.
use kunobi_daemon.Common.{
  ℕ, ◌<◌, ◌≡◌, refl, ◌⊎◌, true, false, none, some, List, [], ◌∷◌, arith, length,
}
use kunobi_daemon.Generation.{
  Generation, idle, drain_expired, new, with_drain_limit, select, admit, mark_legacy, drop_lease,
  try_retire, retire,
}
use kunobi_daemon.Generation.Leases.{
  Call, selects, admits, marks, drops, limits, World, step, run, marked_in, IsConsistent, opened,
  history-IsConsistent,
}
use kunobi_daemon.Generation.Retiring.{IsEligible, IsExpired, retire_reason}

-- Two sessions, one of them marked, and a newer generation selected at 20.
abbrev overtaken : List (ℕ × Call)
overtaken =
    (0, limits 100)
    ∷ (5, admits)
    ∷ (6, admits)
    ∷ (7, marks 1)
    ∷ (20, selects 4)
    ∷ (30, drops 1)
    ∷ []

abbrev overtaken_world : World
overtaken_world = run (opened 3 3 false 0) overtaken

history-IsConsistent_example : IsConsistent overtaken_world
history-IsConsistent_example = history-IsConsistent 3 3 false 0 overtaken

overtaken-leases : overtaken_world.leases ≡ true ∷ []
unfolding run step new select admit mark_legacy drop_lease with_drain_limit
overtaken-leases = refl

overtaken-retire : (retire overtaken_world.generation 600 120).1 ≡ some (drain_expired 1 1)
unfolding run step new select admit mark_legacy drop_lease with_drain_limit retire try_retire
overtaken-retire = refl

retire_reason_example :
    IsEligible overtaken_world.generation 600 120
    × (((drain_expired 1 1 ≡ idle) × (overtaken_world.leases ≡ []))
        ⊎ ((drain_expired 1 1
              ≡ drain_expired (length overtaken_world.leases) (marked_in overtaken_world.leases))
            × (overtaken_world.generation.own < overtaken_world.generation.selected)
            × IsExpired overtaken_world.generation 120))
retire_reason_example =
    retire_reason 3 3 false 0 overtaken 600 120 (drain_expired 1 1) overtaken-retire

-- Superseded, with one lease and no limit.
abbrev serving : Generation
serving = record (new 3 4 false 10) {
  sessions = record { active = 1; legacy = 0; retired = false; superseded_since = some 10 };
}

serving_held : 0 < serving.active
unfolding new
serving_held = omega arith

serving_unlimited : serving.drain_limit ≡ none
unfolding new
serving_unlimited = refl

abbrev limited : Generation
limited = record serving { drain_limit = some 100 }

limited_newer : limited.own < limited.selected
unfolding new
limited_newer = omega arith

abbrev closed : World
closed = record {
  generation = record limited {
    sessions = record { active = 1; legacy = 0; retired = true; superseded_since = some 10 };
  };
  leases = false ∷ [];
}

abbrev late : List (ℕ × Call)
late = (200, admits) ∷ (210, marks 0) ∷ (220, selects 9) ∷ []

closed_newer : 3 < closed.generation.selected
unfolding new
closed_newer = omega arith
