-- ===== src/Selection/Examples.antt =====
-- Waits for a replacement, and the theorems on them at concrete inputs.
use kunobi_daemon.Common.{
  ℕ, ◌+◌, ◌≡◌, refl, Bool, true, false, Option, none, some, List, [], ◌∷◌, Result, ok, arith,
}
use mathlib.Core.Option
use kunobi_daemon.Selection.{Budget, new, until, note, decide}
use kunobi_daemon.Selection.Waiting.{
  World, Selection, current, committed, Round, in_time, decided, probed, read_record, turn, loop,
  await_selection,
}
use kunobi_daemon.Selection.Rounds.{Explains, await_selection-Explains}
use kunobi_daemon.Selection.Termination.{Clock, await_selection_total}

-- A clock, what the selection record will say, and the proofs to come; afterwards there is no
-- commit and no proof.
record Script : Type 0 where
  clock : ℕ
  records : List Bool
  proofs : List (Result ℕ (Option ℕ))

abbrev next_record : List Bool → Bool
next_record [] = false
next_record (b ∷ _) = b

abbrev next_proof : List (Result ℕ (Option ℕ)) → Result ℕ (Option ℕ)
next_proof [] = ok none
next_proof (p ∷ _) = p

abbrev later : {A : Type 0} → List A → List A
later [] = []
later (_ ∷ l) = l

abbrev scripted : World Script ℕ ℕ
scripted = record {
  now = λ w. (w, w.clock);
  committed = λ w.
      (record w { clock = w.clock + 1; records = later w.records }, ok (next_record w.records));
  probe =
      λ w limit. (record w { clock = w.clock + 10; proofs = later w.proofs }, next_proof w.proofs);
  wait = λ w limit. record w { clock = w.clock + 50 };
}

scripted-Clock : Clock scripted
scripted-Clock = record {
  time = λ w. w.clock;
  now_reads = λ w. (omega arith, refl);
  committed_keeps = λ w. omega arith;
  probe_keeps = λ w limit. omega arith;
  wait_advances = λ w limit h. omega arith;
}

abbrev budget : Budget
budget = record { commit = 500; proof = 100 }

-- The second round reads the commit, the third has the proof.
abbrev selected : Script
selected = record {
  clock = 1_000;
  records = false ∷ true ∷ [];
  proofs = ok none ∷ ok none ∷ ok (some 9) ∷ [];
}

abbrev selected_log : List (Round ℕ)
selected_log =
    record { read = false; proof = some 9 }
    ∷ record { read = true; proof = none }
    ∷ record { read = false; proof = none }
    ∷ []

selected-run :
    await_selection scripted 501 budget selected
    ≡ some (record { clock = 1_133; records = []; proofs = [] }, selected_log, ok (current 9))
unfolding await_selection loop turn read_record probed decided in_time new until note decide
selected-run = refl

await_selection-Explains_example : Explains {E = ℕ} selected_log (ok (current 9))
await_selection-Explains_example =
    await_selection-Explains scripted 501 budget selected _ selected_log (ok (current 9))
      selected-run

-- The commit without a proof: the wait ends 100 after the commit was read.
abbrev unproven : Script
unproven = record { clock = 0; records = true ∷ []; proofs = [] }

unproven-run :
    Option.map (λ r. r.2) (await_selection scripted 501 budget unproven) ≡ some (ok committed)
unfolding await_selection loop turn read_record probed decided in_time new until note decide
unproven-run = refl

await_selection_total_example :
    (r : Script × List (Round ℕ) × Result ℕ (Selection ℕ)) × (await_selection scripted 501 budget
        unproven
      ≡ some r)
    × Explains r.1 r.2
await_selection_total_example = await_selection_total scripted scripted-Clock budget unproven
