-- ===== src/Selection/Waiting.antt =====
-- `await_selection` of src/selection.rs: the loop over the rounds.
use kunobi_daemon.Common.{
  is_some, ℕ, zero, suc, ◌+◌, ◌-◌, Bool, Option, none, some, List, [], ◌∷◌, Result, ok, err, ltb,
  if◌then◌else◌,
}
use kunobi_daemon.Selection.{Budget, Decision, Watch, new, until, note, decide}

-- What the loop calls: the clock and the evidence, over one state of everything outside.
pub record World (W E P : Type 0) : Type 0 where
  pub now : W → W × ℕ
  pub committed : W → W × Result E Bool
  pub probe : W → ℕ → W × Result E (Option P)
  pub wait : W → ℕ → W

pub data Selection (P : Type 0) : Type 0 where
  current : P → Selection P
  committed not_committed : Selection P

-- A finished round: what it read, and the proof that it accepted. The loop only writes it: it is
-- there for the theorems.
pub record Round (P : Type 0) : Type 0 where
  pub read : Bool
  pub proof : Option P

pub data Turn (W E P : Type 0) : Type 0 where
  returns : W → List (Round P) → Result E (Selection P) → Turn W E P
  continues : Watch → W → List (Round P) → Turn W E P

module _ {W E P : Type 0} (world : World W E P) where
  -- `.filter(|_| Instant::now() < until)`: the clock is read only for a proof.
  unfoldable pub in_time : Option P → ℕ → W → W × Option P
  in_time none limit w = (w, none)
  in_time (some p) limit w = let (w', t) = world.now w in (w', if ltb t limit then some p else none)

  -- The match on the decision; `proof.expect("proven above")` has a proof.
  unfoldable pub decided : Decision → Option P → ℕ → Watch → W → List (Round P) → Turn W E P
  decided Decision.current (some p) start watch w log = returns w log (ok (current p))
  decided Decision.current none start watch w log = continues watch w log
  decided Decision.committed proof start watch w log = returns w log (ok committed)
  decided Decision.not_committed proof start watch w log = returns w log (ok not_committed)
  decided Decision.wait proof start watch w log =
      continues watch (world.wait w (start + until watch)) log

  unfoldable pub probed : ℕ → Watch → Bool → List (Round P) → W × Result E (Option P) → Turn W E P
  unfolding decided
  probed start watch is_committed log (w, err e) = returns w log (err e)
  probed start watch is_committed log (w, ok found) =
      let (w', proof) = in_time found (start + until watch) w in
      let (w'', t) = world.now w' in
      decided (decide watch (t - start) (is_some proof)) proof start watch w''
        (record { read = is_committed; proof = proof } ∷ log)

  unfoldable pub read_record : ℕ → Watch → List (Round P) → W × Result E Bool → Turn W E P
  read_record start watch log (w, err e) = returns w log (err e)
  read_record start watch log (w, ok is_committed) =
      let (w', t) = world.now w in
      let noted : Watch = note watch (t - start) is_committed in
      probed start noted is_committed log (world.probe w' (start + until noted))

  unfoldable pub turn : ℕ → Watch → W → List (Round P) → Turn W E P
  turn start watch w log = read_record start watch log (world.committed w)

  -- `none`: the fuel ran out.
  unfoldable pub loop :
      ℕ → ℕ → Watch → W → List (Round P) → Option (W × List (Round P) × Result E (Selection P))
  loop zero start watch w log = none
  loop (suc fuel) start watch w log = elim (turn start watch w log) [
    | returns w' log' r ↦ some (w', log', r)
    | continues watch' w' log' ↦ loop fuel start watch' w' log'
  ]

  unfoldable pub await_selection :
      ℕ → Budget → W → Option (W × List (Round P) × Result E (Selection P))
  await_selection fuel budget w =
      let (w', start) = world.now w in loop fuel start (new budget) w' []
