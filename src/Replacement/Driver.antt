-- ===== src/Replacement/Driver.antt =====
-- `run` of src/replacement.rs: the blocking loop that asks the application for each step.
-- Instants and durations are nanoseconds.
use kunobi_daemon.Common.{
  ◌||◌, ℕ, zero, suc, ◌+◌, ◌-◌, min, Bool, false, ◌&&◌, not, Option, none, some, List, [], ◌∷◌,
  Result, ok, err, leb, ◌==◌, if◌then◌else◌,
}
use kunobi_daemon.Replacement.{
  Mode, Step, recheck, prepare, drain, start, verify, validate, commit, retire, Progress, Outcome,
  Failure, deadline, adapter, Machine, new, failure, advance,
}

-- What `run` calls: the clock, the application's adapter, sleeping, and the warming of the
-- application's paths, over one state of everything outside.
pub record World (W E : Type 0) : Type 0 where
  pub now : W → W × ℕ
  pub perform : W → Step → Option ℕ → W × Result E Progress
  pub sleep : W → ℕ → W
  pub prefault : W → W

pub record Budgets : Type 0 where
  pub setup : ℕ
  pub drain : Option ℕ

-- `readiness::POLL_INTERVAL`, 25 ms.
abbrev pub poll_interval : ℕ
poll_interval = 25_000_000

abbrev pub number : Step → ℕ
number recheck = 0
number prepare = 1
number drain = 2
number start = 3
number verify = 4
number validate = 5
number commit = 6
number retire = 7

abbrev pub same_step : Step → Step → Bool
same_step a b = number a == number b

-- What the adapter was asked and what it answered, the last first. The loop only writes it: it is
-- there for the theorems.
abbrev pub Log : Type 0 → Type 0
Log E = List (Step × Result E Progress)

-- One turn of the loop returns, or goes on with a new machine and deadline.
pub data Turn (W E : Type 0) : Type 0 where
  returns : W → Log E → Result (Failure E) Outcome → Turn W E
  continues : Machine → Option ℕ → W → Log E → Turn W E

module _ {W E : Type 0} (world : World W E) where
  -- `deadline.is_some_and(|limit| Instant::now() >= limit)`.
  unfoldable pub expired : Option ℕ → W → W × Bool
  expired none w = (w, false)
  expired (some limit) w = let (w', t) = world.now w in (w', leb limit t)

  -- The same after an answer: `step != Step::Commit && …`.
  unfoldable pub expired_after : Step → Option ℕ → W → W × Bool
  unfolding expired
  expired_after commit limit w = (w, false)
  expired_after _ limit w = expired limit w

  -- `Some(Instant::now() + budget)`.
  abbrev from_now : ℕ → W → W × Option ℕ
  from_now budget w = let (w', t) = world.now w in (w', some (t + budget))

  drain_deadline : Option ℕ → W → W × Option ℕ
  drain_deadline none w = (w, none)
  drain_deadline (some budget) w = from_now budget w

  -- The deadline of the phase that starts with `next`, after the step `last`.
  unfoldable pub next_deadline : Budgets → Step → Step → Option ℕ → W → W × Option ℕ
  unfolding drain_deadline
  next_deadline budgets last next limit w =
      if same_step next drain || same_step next retire
      then drain_deadline budgets.drain w
      else if same_step last drain
      then from_now budgets.setup w
      else (w, limit)

  -- The pause before a pending step is asked again.
  unfoldable pub pause : Option ℕ → W → W
  pause none w = world.sleep w poll_interval
  pause (some limit) w = let (w', t) = world.now w in world.sleep w' (min poll_interval (limit - t))

  unfoldable pub warm : Machine → Machine → W → W
  warm before after w = if after.committed && not before.committed then world.prefault w else w

  -- After `advance` went on: a new phase, or a pause.
  unfoldable pub go_on : Budgets → Step → Machine → Option ℕ → W → Log E → Turn W E
  unfolding next_deadline pause
  go_on budgets last m limit w log =
      if not (same_step m.step last)
      then (let (w', limit') = next_deadline budgets last m.step limit w in
          continues m limit' w' log)
      else continues m limit (pause limit w) log

  unfoldable pub advanced :
      Budgets
      → Machine
      → Option ℕ
      → W
      → Log E
      → Machine × Result (Failure E) (Option Outcome)
      → Turn W E
  unfolding go_on warm
  advanced budgets m limit w log (m', err f) = returns w log (err f)
  advanced budgets m limit w log (m', ok (some outcome)) = returns (warm m m' w) log (ok outcome)
  advanced budgets m limit w log (m', ok none) = go_on budgets m.step m' limit (warm m m' w) log

  unfoldable pub answered : Budgets → Machine → Option ℕ → Log E → W × Result E Progress → Turn W E
  unfolding advanced expired_after
  answered budgets m limit log (w, err e) =
      returns w ((m.step, err e) ∷ log) (err (failure m (adapter e)))
  answered budgets m limit log (w, ok progress) =
      let (w', late) = expired_after m.step limit w in
      if late
      then returns w' ((m.step, ok progress) ∷ log) (err (failure m deadline))
      else advanced budgets m limit w' ((m.step, ok progress) ∷ log) (advance m progress)

  unfoldable pub turn : Budgets → Machine → Option ℕ → W → Log E → Turn W E
  unfolding answered expired
  turn budgets m limit w log =
      let (w', late) = expired limit w in
      if late
      then returns w' log (err (failure m deadline))
      else answered budgets m limit log (world.perform w' m.step limit)

  -- `none`: the fuel ran out.
  unfoldable pub loop :
      ℕ → Budgets → Machine → Option ℕ → W → Log E → Option (W × Log E × Result (Failure E) Outcome)
  loop zero budgets m limit w log = none
  loop (suc fuel) budgets m limit w log = elim (turn budgets m limit w log) [
    | returns w' log' result ↦ some (w', log', result)
    | continues m' limit' w' log' ↦ loop fuel budgets m' limit' w' log'
  ]

  unfoldable pub run : ℕ → Mode → Budgets → W → Option (W × Log E × Result (Failure E) Outcome)
  unfolding loop
  run fuel mode budgets w =
      let (w', t) = world.now w in loop fuel budgets (new mode) (some (t + budgets.setup)) w' []
