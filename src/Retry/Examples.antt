-- ===== src/Retry/Examples.antt =====
-- Runs of the retry budget, and its theorems at concrete inputs.
use kunobi_daemon.Common.{ℕ, ◌+◌, ◌≤◌, ◌≡◌, refl, none, List, [], ◌∷◌, arith}
use kunobi_daemon.Common.Words.{u64_max}
use kunobi_daemon.Retry.{Policy, State, allowed, reserve, next}
use kunobi_daemon.Retry.Backoff.{reserve_bounds, reserve_exact, reserve_floor}
use kunobi_daemon.Retry.Campaign.{campaign, patient, campaign_bounded, patient_exact}

abbrev policy : Policy
policy = record { limit = 6; delay = 30; maximum_delay = 300 }

abbrev fresh : State
fresh = record { attempts = 0; next_attempt = 0 }

abbrev third : State
third = record { attempts = 3; next_attempt = 340 }

-- The delays of the test `persisted_attempts_bound_post_commit_crash_loops_and_delays`.
first_wait : reserve fresh policy 100 ≡ record { attempts = 1; next_attempt = 160 }
unfolding reserve
first_wait = refl

at_the_extremes :
    reserve (record { attempts = u64_max; next_attempt = 7 }) policy u64_max
    ≡ record { attempts = u64_max; next_attempt = u64_max }
unfolding reserve
at_the_extremes = refl

reserve_bounds_example :
    ((reserve third policy 340).attempts ≡ 4)
    × (340 ≤ (reserve third policy 340).next_attempt)
    × ((reserve third policy 340).next_attempt ≤ 640)
reserve_bounds_example = reserve_bounds third policy 340 (omega arith)

reserve_exact_example : (reserve third policy 340).next_attempt ≡ 640
reserve_exact_example = reserve_exact third policy 340

reserve_floor_example : 39 ≤ (reserve fresh policy 9).next_attempt
reserve_floor_example = reserve_floor fresh policy 9

abbrev asked : List ℕ
asked = 100 ∷ 120 ∷ 160 ∷ 500 ∷ 20 ∷ []

campaign_bounded_example :
    ((campaign fresh policy asked).0.attempts ≡ 0 + (campaign fresh policy asked).1)
    × ((campaign fresh policy asked).1 ≤ 6)
campaign_bounded_example = campaign_bounded fresh policy asked (omega arith) (omega arith)

campaign_spends : (campaign fresh policy asked).1 ≡ 3
unfolding campaign reserve allowed
campaign_spends = refl

patient_exact_example :
    ((patient third policy 3).1 ≡ 3) × (next (patient third policy 3).0 policy ≡ none)
patient_exact_example = patient_exact third policy 3 (omega arith) refl
