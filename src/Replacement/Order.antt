-- ===== src/Replacement/Order.antt =====
-- The order in which the machine of src/replacement.rs asks for the steps.
use kunobi_daemon.Common.{
  ◌||◌, ◌≡◌, Bool, true, false, Option, none, some, List, [], ◌∷◌, arith, Result, ok, err,
}
use kunobi_daemon.Replacement.{
  Mode, overlap, exclusive, Step, recheck, prepare, drain, start, verify, validate, commit, retire,
  Progress, done, Outcome, complete, retirement_pending, Failure, Machine, new, advance,
}
use kunobi_daemon.Replacement.Driver.{same_step}

-- The documented orders, the last step first.
abbrev pub plan : Mode → List Step
plan overlap = retire ∷ commit ∷ validate ∷ verify ∷ start ∷ prepare ∷ recheck ∷ []
plan exclusive = commit ∷ validate ∷ verify ∷ start ∷ drain ∷ prepare ∷ recheck ∷ []

abbrev pub contains : Step → List Step → Bool
contains s [] = false
contains s (t ∷ ts) = same_step s t || contains s ts

-- What is done before a step.
abbrev pub behind : Mode → Step → List Step
behind mode recheck = []
behind mode prepare = recheck ∷ []
behind mode drain = prepare ∷ recheck ∷ []
behind overlap start = prepare ∷ recheck ∷ []
behind overlap verify = start ∷ prepare ∷ recheck ∷ []
behind overlap validate = verify ∷ start ∷ prepare ∷ recheck ∷ []
behind overlap commit = validate ∷ verify ∷ start ∷ prepare ∷ recheck ∷ []
behind overlap retire = commit ∷ validate ∷ verify ∷ start ∷ prepare ∷ recheck ∷ []
behind exclusive start = drain ∷ prepare ∷ recheck ∷ []
behind exclusive verify = start ∷ drain ∷ prepare ∷ recheck ∷ []
behind exclusive validate = verify ∷ start ∷ drain ∷ prepare ∷ recheck ∷ []
behind exclusive commit = validate ∷ verify ∷ start ∷ drain ∷ prepare ∷ recheck ∷ []
behind exclusive retire = []

-- The steps that a mode has.
abbrev pub belongs : Mode → Step → Bool
belongs overlap drain = false
belongs exclusive retire = false
belongs _ _ = true

-- A machine between two turns, with the steps that are done, the last first.
pub record IsOrdered (m : Machine) (dones : List Step) : Type 0 where
  pub member : belongs m.mode m.step ≡ true
  pub sequence : dones ≡ behind m.mode m.step
  pub selected : m.committed ≡ same_step m.step retire

pub new-IsOrdered : (mode : Mode) → IsOrdered (new mode) []
unfolding new
new-IsOrdered mode = ground arith

-- The steps done after an answer.
abbrev pub record_answer : Step → Progress → List Step → List Step
record_answer s done dones = s ∷ dones
record_answer s _ dones = dones

-- What a machine's result says of the steps that are done.
abbrev pub Justifies :
    {E : Type 0} → Machine → List Step → Result (Failure E) (Option Outcome) → Type 0
Justifies m dones (ok none) = IsOrdered m dones
Justifies m dones (ok (some Outcome.unchanged)) =
    (m.step ≡ recheck) × (dones ≡ []) × (m.committed ≡ false)
Justifies m dones (ok (some complete)) = (dones ≡ plan m.mode) × (m.committed ≡ true)
Justifies m dones (ok (some retirement_pending)) =
    (m.mode ≡ overlap) × (retire ∷ dones ≡ plan overlap) × (m.committed ≡ true)
Justifies m dones (err f) =
    IsOrdered m dones × (f.step ≡ m.step) × (f.committed ≡ contains commit dones)

module _ (E : Type 0) where
  pub advance-Justifies :
      (m : Machine) (p : Progress) (dones : List Step)
      → IsOrdered m dones
      → Justifies {E = E}
          (advance {E = E} m p).0
          (record_answer m.step p dones)
          (advance {E = E} m p).1
  unfolding advance
  advance-Justifies m p dones o = ground arith
