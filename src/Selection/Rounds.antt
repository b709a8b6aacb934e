-- ===== src/Selection/Rounds.antt =====
-- What a finished wait of src/selection.rs reports, against what its rounds saw, and that it ends.
use kunobi_daemon.Common.{
  ◌||◌, is_some, ℕ, zero, suc, ◌≡◌, refl, ap, ◌∙◌, Bool, true, false, Option, none, some, List, [],
  ◌∷◌, arith, Result, ok, err,
}
use mathlib.Core.Path.{subst}
use kunobi_daemon.Selection.{Budget, Watch, new, note, decide}
use kunobi_daemon.Selection.Waiting.{
  World, Selection, current, committed, not_committed, Round, Turn, returns, continues, probed,
  read_record, turn, loop, await_selection,
}

abbrev pub any_read : {P : Type 0} → List (Round P) → Bool
any_read [] = false
any_read (r ∷ log) = r.read || any_read log

abbrev pub last_proof : {P : Type 0} → List (Round P) → Option P
last_proof [] = none
last_proof (r ∷ log) = r.proof

abbrev pub Explains : {E P : Type 0} → List (Round P) → Result E (Selection P) → Type 0
Explains log (ok (current p)) = last_proof log ≡ some p
Explains log (ok committed) = (any_read log ≡ true) × (last_proof log ≡ none)
Explains log (ok not_committed) = (any_read log ≡ false) × (last_proof log ≡ none)
Explains log (err e) = Unit {0}

-- The watch remembers exactly whether some round has read a commit.
abbrev Remembers : {P : Type 0} → Watch → List (Round P) → Type 0
Remembers watch log = is_some watch.committed_at ≡ any_read log

abbrev Good : {W E P : Type 0} → Turn W E P → Type 0
Good (returns w log r) = Explains log r
Good (continues watch w log) = Remembers watch log

note-is_some :
    (watch : Watch) (elapsed : ℕ) (b : Bool)
    → is_some (note watch elapsed b).committed_at ≡ (b || is_some watch.committed_at)
unfolding note
note-is_some watch elapsed b = ground arith

module _ {W E P : Type 0} (world : World W E P) where
  probed-Good :
      (start : ℕ) (watch : Watch) (b : Bool) (log : List (Round P)) (w : W)
      (a : Result E (Option P))
      → is_some watch.committed_at ≡ (b || any_read log)
      → Good (probed world start watch b log (w, a))
  unfolding probed decide
  probed-Good start watch b log w (err e) h = tt
  probed-Good start watch b log w (ok found) h = ground arith

  read_record-Good :
      (start : ℕ) (watch : Watch) (log : List (Round P)) (w : W) (a : Result E Bool)
      → Remembers watch log
      → Good (read_record world start watch log (w, a))
  unfolding read_record
  read_record-Good start watch log w (err e) h = tt
  read_record-Good start watch log w (ok b) h =
      probed-Good start _ b log _ _ (note-is_some watch _ b ∙ ap (λ (c : Bool). b || c) h)

  turn-Good :
      (start : ℕ) (watch : Watch) (w : W) (log : List (Round P))
      → Remembers watch log
      → Good (turn world start watch w log)
  unfolding turn
  turn-Good start watch w log h =
      read_record-Good start watch log (world.committed w).0 (world.committed w).1 h

  -- A loop that runs out of fuel says nothing.
  abbrev Ends : Option (W × List (Round P) × Result E (Selection P)) → Type 0
  Ends none = Unit {0}
  Ends (some (w, log, r)) = Explains log r

  loop-Ends :
      (fuel start : ℕ) (watch : Watch) (w : W) (log : List (Round P))
      → Remembers watch log
      → Ends (loop world fuel start watch w log)
  unfolding loop
  loop-Ends zero start watch w log h = tt
  loop-Ends (suc fuel) start watch w log h =
      after (loop-Ends fuel start) (turn world start watch w log) (turn-Good start watch w log h)
    where
      after :
          ((v : Watch) (w' : W) (l : List (Round P))
            → Remembers v l
            → Ends (loop world fuel start v w' l))
          → (t : Turn W E P) → Good t
          → Ends (elim t [
            | returns w' l r ↦ some (w', l, r)
            | continues v w' l ↦ loop world fuel start v w' l
          ])
      after rest (returns w' l r) g = g
      after rest (continues v w' l) g = rest v w' l g

  -- Whatever the evidence says and whenever it says it: the candidate is reported current only with
  -- a proof that the last round accepted. It is reported committed only if some round read the
  -- commit, and not committed only if no round read it; both only if the last round brought no
  -- proof.
  pub await_selection-Explains :
      (fuel : ℕ) (budget : Budget) (w w' : W) (log : List (Round P)) (r : Result E (Selection P))
      → await_selection world fuel budget w ≡ some (w', log, r)
      → Explains log r
  unfolding await_selection new
  await_selection-Explains fuel budget w w' log r e =
      subst Ends e (loop-Ends fuel _ (new budget) _ [] refl)
