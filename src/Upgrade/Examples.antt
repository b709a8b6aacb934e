-- ===== src/Upgrade/Examples.antt =====
-- Two upgraders of src/upgrade.rs that meet an old daemon.
use kunobi_daemon.Common.{ℕ, ◌≡◌, refl, Bool, true, Option, none, some, List, [], ◌∷◌, leb}
use kunobi_daemon.Upgrade.{
  act, daemon_becomes, holds, is_replacing, leave, Outcome, probed, replaced, reports, run,
  tries_lock, try_lock,
}
use kunobi_daemon.Upgrade.Exclusive.{Fair, is_critical, new, upgrade_exclusive}
use kunobi_daemon.Upgrade.Reused.{IsCurrent, upgrade_once}

-- Builds from 2 on are accepted, and build 1 serves.
abbrev accepts : ℕ → ℕ → Bool
accepts p build = leb 2 build

abbrev serving : Option ℕ
serving = some 1

-- Both probe, the first takes the lock and probes again.
abbrev before : List (ℕ × Outcome ℕ ℕ)
before = (0, reports) ∷ (1, reports) ∷ (0, tries_lock) ∷ (1, tries_lock) ∷ (0, reports) ∷ []

-- It finds its daemon; the second one takes the lock then, and finds it too.
abbrev after : List (ℕ × Outcome ℕ ℕ)
after =
    (0, daemon_becomes (some 3))
    ∷ (0, reports)
    ∷ (1, tries_lock)
    ∷ (1, reports)
    ∷ (1, replaced none)
    ∷ []

upgrade_exclusive_example :
    ((p : ℕ)
      → is_critical ((run accepts (new serving) before).stage p)
        ≡ holds p (run accepts (new serving) before).holder)
    × ((p q : ℕ)
        → is_critical ((run accepts (new serving) before).stage p) ≡ true
        → is_critical ((run accepts (new serving) before).stage q) ≡ true
        → p ≡ q)
    × ((p : ℕ) → Fair accepts p ((run accepts (new serving) before).stage p))
upgrade_exclusive_example = upgrade_exclusive accepts serving before

first_replaces : is_replacing ((run accepts (new {E = ℕ} serving) before).stage 0) ≡ true
unfolding run act probed try_lock leave
first_replaces = refl

upgrade_once_example :
    IsCurrent accepts
      (run accepts (run accepts (new serving) before) ((0, replaced (some 2)) ∷ after))
upgrade_once_example =
    upgrade_once accepts serving before after 0 2 first_replaces (λ q. refl) ((λ q. refl), tt)
