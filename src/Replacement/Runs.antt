-- ===== src/Replacement/Runs.antt =====
-- What a finished run of src/replacement.rs says, against the log of what the adapter was asked.
use kunobi_daemon.Common.{
  ℕ, zero, suc, ◌≡◌, refl, inl, inr, true, false, Option, none, some, List, [], ◌∷◌, ◌++◌, arith,
  Result, ok, err, Bool-cases,
}
use mathlib.Core.List.{append_assoc}
use mathlib.Core.Path.{subst}
use kunobi_daemon.Replacement.{
  Mode, overlap, exclusive, Step, recheck, prepare, drain, start, verify, validate, commit, retire,
  Progress, done, pending, Outcome, complete, retirement_pending, Failure, Machine, new, advance,
}
use kunobi_daemon.Replacement.Driver.{
  World, Budgets, Log, Turn, returns, continues, same_step, expired, expired_after, go_on, advanced,
  answered, turn, loop, run,
}
use kunobi_daemon.Replacement.Order.{
  plan, contains, behind, belongs, IsOrdered, new-IsOrdered, record_answer, Justifies,
  advance-Justifies,
}

-- The steps that the adapter answered with `Done`, the last first.
abbrev pub done_steps : {E : Type 0} → Log E → List Step
done_steps [] = []
done_steps ((s, ok done) ∷ log) = s ∷ done_steps log
done_steps (_ ∷ log) = done_steps log

abbrev pub Explains : {E : Type 0} → Mode → Log E → Result (Failure E) Outcome → Type 0
Explains mode log (ok Outcome.unchanged) = done_steps log ≡ []
Explains mode log (ok complete) = done_steps log ≡ plan mode
Explains mode log (ok retirement_pending) =
    (mode ≡ overlap) × (retire ∷ done_steps log ≡ plan overlap)
Explains mode log (err f) =
    ((rest : List Step) × (rest ++ done_steps log ≡ plan mode))
    × (f.committed ≡ contains commit (done_steps log))

abbrev Good : {W E : Type 0} → Mode → Turn W E → Type 0
Good mode (returns w log r) = Explains mode log r
Good mode (continues m limit w log) = (m.mode ≡ mode) × IsOrdered m (done_steps log)

-- A step that belongs to the mode, with what is behind it, starts the plan.
plan-behind :
    (mode : Mode) (s : Step)
    → belongs mode s ≡ true
    → (rest : List Step) × (rest ++ s ∷ behind mode s ≡ plan mode)
plan-behind overlap recheck h = (retire ∷ commit ∷ validate ∷ verify ∷ start ∷ prepare ∷ [], refl)
plan-behind overlap prepare h = (retire ∷ commit ∷ validate ∷ verify ∷ start ∷ [], refl)
plan-behind overlap drain h = cc
plan-behind overlap start h = (retire ∷ commit ∷ validate ∷ verify ∷ [], refl)
plan-behind overlap verify h = (retire ∷ commit ∷ validate ∷ [], refl)
plan-behind overlap validate h = (retire ∷ commit ∷ [], refl)
plan-behind overlap commit h = (retire ∷ [], refl)
plan-behind overlap retire h = ([], refl)
plan-behind exclusive recheck h = (commit ∷ validate ∷ verify ∷ start ∷ drain ∷ prepare ∷ [], refl)
plan-behind exclusive prepare h = (commit ∷ validate ∷ verify ∷ start ∷ drain ∷ [], refl)
plan-behind exclusive drain h = (commit ∷ validate ∷ verify ∷ start ∷ [], refl)
plan-behind exclusive start h = (commit ∷ validate ∷ verify ∷ [], refl)
plan-behind exclusive verify h = (commit ∷ validate ∷ [], refl)
plan-behind exclusive validate h = (commit ∷ [], refl)
plan-behind exclusive commit h = ([], refl)
plan-behind exclusive retire h = cc

abbrev IsPart : Mode → List Step → Type 0
IsPart mode dones = (rest : List Step) × (rest ++ dones ≡ plan mode)

IsPart-tail :
    (mode : Mode) (s : Step) (dones : List Step) → IsPart mode (s ∷ dones) → IsPart mode dones
IsPart-tail mode s dones (rest, e) = (rest ++ s ∷ [], simp append_assoc e)

module _ (m : Machine) (dones : List Step) (o : IsOrdered m dones) where
  ordered-IsPart : IsPart m.mode (m.step ∷ dones)
  ordered-IsPart = rw o.sequence (plan-behind m.mode m.step o.member)

  behind-IsPart : IsPart m.mode dones
  behind-IsPart = IsPart-tail m.mode m.step dones ordered-IsPart

  ordered_committed : m.committed ≡ contains commit dones
  ordered_committed = ground arith

-- `advance` keeps the mode.
advance_mode : (E : Type 0) (m : Machine) (p : Progress) → (advance {E = E} m p).0.mode ≡ m.mode
unfolding advance
advance_mode E m p = ground arith

done_steps-answer :
    {E : Type 0} (s : Step) (p : Progress) (log : Log E)
    → done_steps ((s, ok p) ∷ log) ≡ record_answer s p (done_steps log)
done_steps-answer s done log = refl
done_steps-answer s pending log = refl
done_steps-answer s Progress.unchanged log = refl

-- A late answer never belongs to `Commit`.
late_not_commit :
    {W E : Type 0} (world : World W E) (s : Step) (limit : Option ℕ) (w : W)
    → (expired_after world s limit w).1 ≡ true
    → same_step commit s ≡ false
unfolding expired_after
late_not_commit world commit limit w h = cc
late_not_commit world recheck limit w h = refl
late_not_commit world prepare limit w h = refl
late_not_commit world drain limit w h = refl
late_not_commit world start limit w h = refl
late_not_commit world verify limit w h = refl
late_not_commit world validate limit w h = refl
late_not_commit world retire limit w h = refl

late_lem :
    {E : Type 0} (m : Machine) (p : Progress) (log : Log E)
    → IsOrdered m (done_steps log)
    → same_step commit m.step ≡ false
    → IsPart m.mode (done_steps ((m.step, ok p) ∷ log))
      × (m.committed ≡ contains commit (done_steps ((m.step, ok p) ∷ log)))
late_lem m done log o e =
    (ordered-IsPart m (done_steps log) o, rw e (ordered_committed m (done_steps log) o))
late_lem m pending log o e =
    (behind-IsPart m (done_steps log) o, ordered_committed m (done_steps log) o)
late_lem m Progress.unchanged log o e =
    (behind-IsPart m (done_steps log) o, ordered_committed m (done_steps log) o)

module _ {W E : Type 0} (world : World W E) (budgets : Budgets) where
  advanced-Good :
      (m m' : Machine) (limit : Option ℕ) (w : W) (log : Log E)
      (r : Result (Failure E) (Option Outcome))
      → m'.mode ≡ m.mode
      → Justifies m' (done_steps log) r
      → Good m.mode (advanced world budgets m limit w log (m', r))
  unfolding advanced go_on
  advanced-Good m m' limit w log (ok none) e j = ground arith
  advanced-Good m m' limit w log (ok (some Outcome.unchanged)) e j = j.1
  advanced-Good m m' limit w log (ok (some complete)) e j = rw (← e) j.0
  advanced-Good m m' limit w log (ok (some retirement_pending)) e j = (rw (← e) j.0, j.1)
  advanced-Good m m' limit w log (err f) e j =
      (rw (← e) (behind-IsPart m' (done_steps log) j.0), j.2)

  answered-Good :
      (m : Machine) (limit : Option ℕ) (log : Log E) (w : W) (a : Result E Progress)
      → IsOrdered m (done_steps log)
      → Good m.mode (answered world budgets m limit log (w, a))
  unfolding answered
  answered-Good m limit log w (err e) o =
      (behind-IsPart m (done_steps log) o, ordered_committed m (done_steps log) o)
  answered-Good m limit log w (ok p) o = elim (Bool-cases (expired_after world m.step limit w).1) [
    | inl late ↦ rw late (late_lem m p log o (late_not_commit world m.step limit w late))
    | inr early ↦ rw early (
        advanced-Good m (advance m p).0 limit (expired_after world m.step limit w).0
          ((m.step, ok p) ∷ log) (advance m p).1 (advance_mode E m p)
          (rw (done_steps-answer m.step p log) (advance-Justifies E m p (done_steps log) o)))
  ]

  turn-Good :
      (m : Machine) (limit : Option ℕ) (w : W) (log : Log E)
      → IsOrdered m (done_steps log)
      → Good m.mode (turn world budgets m limit w log)
  unfolding turn
  turn-Good m limit w log o = elim (Bool-cases (expired world limit w).1) [
    | inl late ↦
        rw late (behind-IsPart m (done_steps log) o, ordered_committed m (done_steps log) o)
    | inr early ↦ rw early (answered-Good m limit log _ _ o)
  ]

  -- A loop that runs out of fuel says nothing.
  abbrev Ends : Mode → Option (W × Log E × Result (Failure E) Outcome) → Type 0
  Ends mode none = Unit {0}
  Ends mode (some (w, log, r)) = Explains mode log r

  loop-Ends :
      (fuel : ℕ) (m : Machine) (limit : Option ℕ) (w : W) (log : Log E)
      → IsOrdered m (done_steps log)
      → Ends m.mode (loop world fuel budgets m limit w log)
  unfolding loop
  loop-Ends zero m limit w log o = tt
  loop-Ends (suc fuel) m limit w log o =
      after (loop-Ends fuel) (turn world budgets m limit w log) (turn-Good m limit w log o)
    where
      after :
          ((n : Machine) (limit' : Option ℕ) (w' : W) (log' : Log E)
            → IsOrdered n (done_steps log')
            → Ends n.mode (loop world fuel budgets n limit' w' log'))
          → (t : Turn W E) → Good m.mode t
          → Ends m.mode (elim t [
            | returns w' log' r ↦ some (w', log', r)
            | continues n limit' w' log' ↦ loop world fuel budgets n limit' w' log'
          ])
      after rest (returns w' log' r) g = g
      after rest (continues n limit' w' log') g = rw (← g.0) (rest n limit' w' log' g.1)

  -- Whatever the adapter answers and whenever the clock passes a deadline: a finished run reports
  -- `Unchanged` only if no step is done, and `Complete` only if exactly the steps of the mode's
  -- plan are done, in the plan's order. It reports `RetirementPending` only in the overlapping
  -- mode, with all but the retirement done in that order. After a failure the steps done are a
  -- first part of the plan, and `committed` tells whether the commit is among them.
  pub run-Explains :
      (fuel : ℕ) (mode : Mode) (w w' : W) (log : Log E) (r : Result (Failure E) Outcome)
      → run world fuel mode budgets w ≡ some (w', log, r)
      → Explains mode log r
  unfolding run new
  run-Explains fuel mode w w' log r e =
      subst (Ends mode) e (loop-Ends fuel (new mode) _ _ [] (new-IsOrdered mode))
