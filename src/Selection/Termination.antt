-- ===== src/Selection/Termination.antt =====
-- The wait of src/selection.rs ends by its commit budget, under a clock that does not run backwards.
use kunobi_daemon.Common.{
  is_some, ℕ, zero, suc, ◌+◌, ◌-◌, ◌≤◌, ◌<◌, ◌≡◌, refl, ◌∙◌, Bool, true, Option, none, some, List,
  [], arith, Result, ok, err,
}
use kunobi_daemon.Selection.{Budget, Decision, wait, Watch, new, until, note, decide}
use kunobi_daemon.Selection.Waiting.{
  World, Selection, Round, Turn, returns, continues, in_time, decided, probed, read_record, turn,
  loop, await_selection,
}
use kunobi_daemon.Selection.Rounds.{Explains, await_selection-Explains}

-- What the loop relies on: the clock does not run backwards, and the evidence's wait lets some
-- time pass, as the default sleep does before its deadline.
pub record Clock {W E P : Type 0} (world : World W E P) : Type 0 where
  pub time : W → ℕ
  pub now_reads : (w : W) → (time w ≤ (world.now w).1) × ((world.now w).1 ≡ time (world.now w).0)
  pub committed_keeps : (w : W) → time w ≤ time (world.committed w).0
  pub probe_keeps : (w : W) (limit : ℕ) → time w ≤ time (world.probe w limit).0
  pub wait_advances : (w : W) (limit : ℕ) → time w < limit → time w < time (world.wait w limit)

-- Every round must end by the commit budget.
until-le : (watch : Watch) → until watch ≤ watch.budget.commit
unfolding until
until-le watch = ground arith

note_budget :
    (watch : Watch) (elapsed : ℕ) (b : Bool) → (note watch elapsed b).budget ≡ watch.budget
unfolding note
note_budget watch elapsed b = refl

wait_early :
    (watch : Watch) (elapsed : ℕ) (proven : Bool)
    → decide watch elapsed proven ≡ wait
    → elapsed < until watch
unfolding decide
wait_early watch elapsed proven h = ground arith

current_proven :
    (watch : Watch) (elapsed : ℕ) (proven : Bool)
    → decide watch elapsed proven ≡ Decision.current
    → proven ≡ true
unfolding decide
current_proven watch elapsed proven h = ground arith

module _ {W E P : Type 0} (world : World W E P) (clock : Clock world) (start : ℕ)
    (budget : Budget) where
  open clock use {time, now_reads, committed_keeps, probe_keeps, wait_advances}

  -- A turn that goes on brings the end nearer.
  abbrev Falls : ℕ → Turn W E P → Type 0
  Falls t (returns w log r) = Unit {0}
  Falls t (continues watch w log) =
      (watch.budget ≡ budget)
      × (start ≤ time w)
      × (start + budget.commit - time w < start + budget.commit - t)

  in_time_keeps : (o : Option P) (limit : ℕ) (w : W) → time w ≤ time (in_time world o limit w).0
  unfolding in_time
  in_time_keeps none limit w = omega arith
  in_time_keeps (some p) limit w = omega (arith, now_reads w)

  decided-Falls :
      (d : Decision) (proof : Option P) (watch : Watch) (w : W) (log : List (Round P)) (t : ℕ)
      → (d ≡ wait → time w - start < until watch)
      → (d ≡ Decision.current → is_some proof ≡ true)
      → watch.budget ≡ budget
      → t ≤ time w
      → start ≤ time w
      → Falls t (decided world d proof start watch w log)
  unfolding decided
  decided-Falls Decision.current (some p) watch w log t h k b c s = tt
  decided-Falls Decision.current none watch w log t h k b c s = absurd (ground (arith, k refl))
  decided-Falls Decision.committed proof watch w log t h k b c s = tt
  decided-Falls Decision.not_committed proof watch w log t h k b c s = tt
  decided-Falls Decision.wait proof watch w log t h k b c s =
      let limit : until watch ≤ budget.commit = rw (← b) (until-le watch) in
      let ahead : time w < time (world.wait w (start + until watch)) =
        wait_advances w (start + until watch) (omega (arith, h refl)) in
      (b, omega arith, omega (arith, h refl))

  probed-Falls :
      (watch : Watch) (b : Bool) (log : List (Round P)) (w : W) (a : Result E (Option P)) (t : ℕ)
      → watch.budget ≡ budget
      → t ≤ time w
      → start ≤ time w
      → Falls t (probed world start watch b log (w, a))
  unfolding probed
  probed-Falls watch b log w (err e) t h k s = tt
  probed-Falls watch b log w (ok found) t h k s =
      let limit : ℕ = start + until watch in
      let w' : W = (in_time world found limit w).0 in
      let later : time w ≤ time w' = in_time_keeps found limit w in
      decided-Falls _ _ watch (world.now w').0 _ t
        (λ e. rw (now_reads w').1 at (wait_early watch ((world.now w').1 - start) _ e))
        (current_proven watch _ _) h (omega (arith, now_reads w')) (omega (arith, now_reads w'))

  read_record-Falls :
      (watch : Watch) (log : List (Round P)) (w : W) (a : Result E Bool) (t : ℕ)
      → watch.budget ≡ budget
      → t ≤ time w
      → start ≤ time w
      → Falls t (read_record world start watch log (w, a))
  unfolding read_record
  read_record-Falls watch log w (err e) t h k s = tt
  read_record-Falls watch log w (ok b) t h k s =
      let w' : W = (world.now w).0 in
      let noted : Watch = note watch ((world.now w).1 - start) b in
      let limit : ℕ = start + until noted in
      probed-Falls noted b log (world.probe w' limit).0 (world.probe w' limit).1 t
        (note_budget watch _ b ∙ h) (omega (arith, now_reads w, probe_keeps w' limit))
        (omega (arith, now_reads w, probe_keeps w' limit))

  turn-Falls :
      (watch : Watch) (w : W) (log : List (Round P))
      → watch.budget ≡ budget
      → start ≤ time w
      → Falls (time w) (turn world start watch w log)
  unfolding turn
  turn-Falls watch w log h s =
      read_record-Falls watch log (world.committed w).0 (world.committed w).1 (time w) h
        (committed_keeps w) (omega (arith, committed_keeps w))

  loop_ends :
      (fuel : ℕ) (watch : Watch) (w : W) (log : List (Round P))
      → watch.budget ≡ budget
      → start ≤ time w
      → start + budget.commit - time w < fuel
      → (r : W × List (Round P) × Result E (Selection P)) × (loop world fuel start watch w log
          ≡ some r)
  unfolding loop
  loop_ends zero watch w log h s k = absurd (omega arith)
  loop_ends (suc fuel) watch w log h s k =
      after (loop_ends fuel) (turn world start watch w log) (turn-Falls watch w log h s)
    where
      after :
          ((v : Watch) (w' : W) (l : List (Round P))
            → v.budget ≡ budget
            → start ≤ time w'
            → start + budget.commit - time w' < fuel
            → (r : W × List (Round P) × Result E (Selection P)) × (loop world fuel start v w' l
                ≡ some r))
          → (t : Turn W E P) → Falls (time w) t
          → (r : W × List (Round P) × Result E (Selection P)) × ((elim t [
            | returns w' l r' ↦ some (w', l, r')
            | continues v w' l ↦ loop world fuel start v w' l
          ])
              ≡ some r)
      after rest (returns w' l r) g = ((w', l, r), refl)
      after rest (continues v w' l) g = rest v w' l g.0 g.1 (omega (arith, g.2))

-- Under such a clock a wait ends, within one round more than its commit budget has nanoseconds, and
-- its result is explained by what its rounds saw.
pub await_selection_total :
    {W E P : Type 0} (world : World W E P) (clock : Clock world) (budget : Budget) (w : W)
    → (r : W × List (Round P) × Result E (Selection P)) × (await_selection world
          (budget.commit + 1)
          budget
          w
        ≡ some r)
      × Explains r.1 r.2
unfolding await_selection new
await_selection_total world clock budget w =
    let (r, e) =
      loop_ends world clock (world.now w).1 budget (budget.commit + 1) (new budget) (world.now w).0
        [] refl (omega (arith, clock.now_reads w)) (omega (arith, clock.now_reads w)) in
    (r, e, await_selection-Explains world (budget.commit + 1) budget w r.0 r.1 r.2 e)
