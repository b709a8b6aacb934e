-- ===== src/Replacement/Examples.antt =====
-- Runs of the replacement machine, and its theorems at concrete inputs.
use kunobi_daemon.Common.{
  ℕ, ◌+◌, ◌*◌, max, ◌≡◌, refl, false, some, List, [], ◌∷◌, Result, ok, err, arith,
}
use kunobi_daemon.Replacement.{
  overlap, exclusive, recheck, prepare, start, verify, validate, commit, retire, Progress, done,
  pending, Outcome, retirement_pending, Failure, new, advance, adapter,
}
use mathlib.Core.Option
use kunobi_daemon.Replacement.Driver.{World, Budgets, Log, turn, run}
use kunobi_daemon.Replacement.Runs.{Explains, run-Explains}
use kunobi_daemon.Replacement.Termination.{Clock, run_total}

-- A clock and the adapter's remaining answers; afterwards it answers `Done`.
record Script : Type 0 where
  clock : ℕ
  answers : List (Result ℕ Progress)

abbrev next_answer : List (Result ℕ Progress) → Result ℕ Progress
next_answer [] = ok done
next_answer (a ∷ _) = a

abbrev later : List (Result ℕ Progress) → List (Result ℕ Progress)
later [] = []
later (_ ∷ l) = l

abbrev scripted : World Script ℕ
scripted = record {
  now = λ w. (w, w.clock);
  perform = λ w s l.
      (record { clock = w.clock + 1_000_000; answers = later w.answers }, next_answer w.answers);
  sleep = λ w d. record w { clock = w.clock + d };
  prefault = λ w. w;
}

scripted-Clock : Clock scripted
scripted-Clock = record {
  time = λ w. w.clock;
  now_reads = λ w. (omega arith, refl);
  perform_keeps = λ w s l. omega arith;
  sleep_waits = λ w d. omega arith;
  prefault_keeps = λ w. omega arith;
}

abbrev budgets : Budgets
budgets = record { setup = 5_000_000_000; drain = some 1_000_000_000 }

-- The proof comes at the second question; the retirement stays pending.
abbrev slow_proof : Script
slow_proof = record {
  clock = 0;
  answers =
      ok done ∷ ok done ∷ ok done ∷ ok pending ∷ ok done ∷ ok done ∷ ok done ∷ ok pending ∷ [];
}

abbrev slow_proof_log : Log ℕ
slow_proof_log =
    (retire, ok pending)
    ∷ (commit, ok done)
    ∷ (validate, ok done)
    ∷ (verify, ok done)
    ∷ (verify, ok pending)
    ∷ (start, ok done)
    ∷ (prepare, ok done)
    ∷ (recheck, ok done)
    ∷ []

slow_proof-run :
    run scripted 20 overlap budgets slow_proof
    ≡ some (record { clock = 33_000_000; answers = [] }, slow_proof_log, ok retirement_pending)
unfolding run new advance turn
slow_proof-run = refl

run-Explains_example : Explains overlap slow_proof_log (ok retirement_pending)
run-Explains_example = run-Explains scripted budgets 20 overlap slow_proof _ _ _ slow_proof-run

-- A commit that fails is not committed.
abbrev refused : Script
refused = record {
  clock = 0;
  answers = ok done ∷ ok done ∷ ok done ∷ ok done ∷ ok done ∷ ok done ∷ err 7 ∷ [];
}

refused-run :
    Option.map (λ r. r.2) (run scripted 20 exclusive budgets refused)
    ≡ some (err (record { step = commit; committed = false; reason = adapter 7 }))
unfolding run new advance turn
refused-run = refl

run_total_example :
    (r : Script × Log ℕ × Result (Failure ℕ) Outcome) × (run scripted
        (9 * (max 5_000_000_000 1_000_000_000 + 2))
        exclusive
        budgets
        refused
      ≡ some r)
    × Explains exclusive r.1 r.2
run_total_example = run_total scripted scripted-Clock budgets 1_000_000_000 refl exclusive refused
