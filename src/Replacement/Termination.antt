-- ===== src/Replacement/Termination.antt =====
-- The loop of src/replacement.rs ends, under a clock that does not run backwards and a bounded
-- drain budget.
use kunobi_daemon.Common.{
  ◌||◌, ℕ, zero, suc, ◌+◌, ◌-◌, ◌*◌, ◌≤◌, ◌<◌, min, max, ◌≡◌, refl, ◌⊎◌, inl, inr, true, false,
  Option, none, some, [], arith, Result, ok, err, ==_iff, Bool-cases,
}
use native.Mathlib.Nat.{mul-le-mul_right}
use kunobi_daemon.Replacement.{
  Mode, Step, drain, commit, retire, Progress, Outcome, Failure, Machine, new, advance,
}
use kunobi_daemon.Replacement.Driver.{
  World, Budgets, Log, Turn, returns, continues, same_step, number, expired, expired_after,
  next_deadline, pause, go_on, advanced, answered, turn, loop, run, warm,
}
use kunobi_daemon.Replacement.Runs.{Explains, run-Explains}

-- What the loop relies on: `Instant::now` never runs backwards, and `thread::sleep` sleeps at
-- least as long as it is told.
pub record Clock {W E : Type 0} (world : World W E) : Type 0 where
  pub time : W → ℕ
  pub now_reads : (w : W) → (time w ≤ (world.now w).1) × ((world.now w).1 ≡ time (world.now w).0)
  pub perform_keeps : (w : W) (s : Step) (l : Option ℕ) → time w ≤ time (world.perform w s l).0
  pub sleep_waits : (w : W) (d : ℕ) → time w + d ≤ time (world.sleep w d)
  pub prefault_keeps : (w : W) → time w ≤ time (world.prefault w)

-- A machine that goes on either asks the same step again or a later one.
advance_forward :
    (E : Type 0) (m : Machine) (p : Progress)
    → (advance {E = E} m p).1 ≡ ok none
    → (same_step (advance {E = E} m p).0.step m.step ≡ true)
      ⊎ ((same_step (advance {E = E} m p).0.step m.step ≡ false)
          × (number m.step < number (advance {E = E} m p).0.step))
unfolding advance
advance_forward E m p h = ground arith

number-lt : (s : Step) → number s < 8
number-lt s = ground arith

module _ {W E : Type 0} (world : World W E) (clock : Clock world) (budgets : Budgets) (d : ℕ)
    (bounded : budgets.drain ≡ some d) where
  open clock use {time, now_reads, perform_keeps, sleep_waits, prefault_keeps}

  abbrev longest : ℕ
  longest = max budgets.setup d

  -- What is left to do at most: later steps count more than any wait for this one.
  measure : Step → ℕ → ℕ → ℕ
  measure s limit t = (8 - number s) * (longest + 2) + (limit - t)

  abbrev Falls : ℕ → Turn W E → Type 0
  Falls n (returns w log r) = Unit {0}
  Falls n (continues m limit w log) =
      (l : ℕ) × (limit ≡ some l) × (l ≤ time w + longest) × (measure m.step l (time w) < n)

  measure_step :
      (s s' : Step) (l l' t t' : ℕ)
      → number s < number s'
      → l' ≤ t' + longest
      → measure s' l' t' < measure s l t
  unfolding measure
  measure_step s s' l l' t t' h b = omega (
    arith,
    number-lt s',
    mul-le-mul_right {m = 8 - number s' + 1} {n = 8 - number s} (longest + 2)
        (omega (arith, number-lt s')),
  )

  measure_wait :
      (s s' : Step) (l t t' : ℕ)
      → same_step s s' ≡ true
      → l - t' < l - t
      → measure s l t' < measure s' l t
  unfolding measure
  measure_wait s s' l t t' e h = rw ((==_iff _ _).0 e) (omega arith)

  -- A pause that starts before the deadline brings it nearer.
  pause_falls :
      (l t : ℕ) (w : W)
      → t ≤ time w
      → t < l
      → (l - time (pause world (some l) w) < l - t) × (time w ≤ time (pause world (some l) w))
  unfolding pause
  pause_falls l t w h k =
      omega (arith, now_reads w, sleep_waits (world.now w).0 (min 25_000_000 (l - (world.now w).1)))

  next_deadline_lem :
      (last next : Step) (l t : ℕ) (w : W)
      → l ≤ t + longest
      → t ≤ time w
      → (l' : ℕ) × ((next_deadline world budgets last next (some l) w).1 ≡ some l')
        × (l' ≤ time (next_deadline world budgets last next (some l) w).0 + longest)
  unfolding next_deadline
  next_deadline_lem last next l t w h k =
      elim (Bool-cases (same_step next drain || same_step next retire)) [
        | inl new_drain ↦
            rw (new_drain, bounded) ((world.now w).1 + d, refl, omega (arith, now_reads w))
        | inr other ↦ rw other (elim (Bool-cases (same_step last drain)) [
          | inl drained ↦
              rw drained ((world.now w).1 + budgets.setup, refl, omega (arith, now_reads w))
          | inr same ↦ rw same (l, refl, omega arith)
        ])
      ]

  go_on-Falls :
      (last : Step) (m : Machine) (l t : ℕ) (w : W) (log : Log E)
      → (same_step m.step last ≡ true)
        ⊎ ((same_step m.step last ≡ false) × (number last < number m.step))
      → l ≤ t + longest
      → t ≤ time w
      → t < l
      → Falls (measure last l t) (go_on world budgets last m (some l) w log)
  unfolding go_on
  go_on-Falls last m l t w log (inl same) h k b = rw same (
    l,
    refl,
    omega (arith, pause_falls l t w k b),
    measure_wait m.step last l t _ same (pause_falls l t w k b).0,
  )
  go_on-Falls last m l t w log (inr (other, later)) h k b = rw other (
      let (l', e, bound) = next_deadline_lem last m.step l t w h k in
      (l', e, bound, measure_step last m.step l l' t _ later bound))

  -- Time does not run backwards across the calls of a turn.
  expired_keeps : (l : ℕ) (w : W) → time w ≤ time (expired world (some l) w).0
  unfolding expired
  expired_keeps l w = omega (arith, now_reads w)

  expired_early :
      (l : ℕ) (w : W) → (expired world (some l) w).1 ≡ false → time (expired world (some l) w).0 < l
  unfolding expired
  expired_early l w h = ground (arith, now_reads w)

  expired_after_keeps :
      (s : Step) (l : ℕ) (w : W) → time w ≤ time (expired_after world s (some l) w).0
  unfolding expired_after
  expired_after_keeps commit l w = omega arith
  expired_after_keeps _ l w = omega (arith, now_reads w)

  warm_keeps : (m m' : Machine) (w : W) → time w ≤ time (warm world m m' w)
  unfolding warm
  warm_keeps m m' w = ground (arith, prefault_keeps w)

  advanced-Falls :
      (m : Machine) (l t : ℕ) (w : W) (log : Log E)
      (a : Machine × Result (Failure E) (Option Outcome))
      → (a.1 ≡ ok none
          → (same_step a.0.step m.step ≡ true)
            ⊎ ((same_step a.0.step m.step ≡ false) × (number m.step < number a.0.step)))
      → l ≤ t + longest
      → t ≤ time w
      → t < l
      → Falls (measure m.step l t) (advanced world budgets m (some l) w log a)
  unfolding advanced
  advanced-Falls m l t w log (m', err f) f' h k b = tt
  advanced-Falls m l t w log (m', ok (some o)) f' h k b = tt
  advanced-Falls m l t w log (m', ok none) f' h k b =
      go_on-Falls m.step m' l t (warm world m m' w) log (f' refl) h
        (omega (arith, warm_keeps m m' w)) b

  answered-Falls :
      (m : Machine) (l t : ℕ) (log : Log E) (w : W) (a : Result E Progress)
      → l ≤ t + longest
      → t ≤ time w
      → t < l
      → Falls (measure m.step l t) (answered world budgets m (some l) log (w, a))
  unfolding answered
  answered-Falls m l t log w (err e) h k b = tt
  answered-Falls m l t log w (ok p) h k b =
      elim (Bool-cases (expired_after world m.step (some l) w).1) [
        | inl late ↦ rw late tt
        | inr early ↦ rw early (
            advanced-Falls m l t _ _ (advance m p) (advance_forward E m p) h
              (omega (arith, expired_after_keeps m.step l w)) b)
      ]

  turn-Falls :
      (m : Machine) (l : ℕ) (w : W) (log : Log E)
      → l ≤ time w + longest
      → Falls (measure m.step l (time w)) (turn world budgets m (some l) w log)
  unfolding turn
  turn-Falls m l w log h = elim (Bool-cases (expired world (some l) w).1) [
    | inl late ↦ rw late tt
    | inr early ↦ rw early (
        let w' : W = (expired world (some l) w).0 in
        answered-Falls m l (time w) log (world.perform w' m.step (some l)).0
          (world.perform w' m.step (some l)).1 h
          (omega (arith, expired_keeps l w, perform_keeps w' m.step (some l)))
          (omega (arith, expired_keeps l w, expired_early l w early)))
  ]

  loop_ends :
      (fuel : ℕ) (m : Machine) (l : ℕ) (w : W) (log : Log E)
      → l ≤ time w + longest
      → measure m.step l (time w) < fuel
      → (r : W × Log E × Result (Failure E) Outcome) × (loop world fuel budgets m (some l) w log
          ≡ some r)
  unfolding loop
  loop_ends zero m l w log h k = absurd (omega arith)
  loop_ends (suc fuel) m l w log h k =
      after (loop_ends fuel) (turn world budgets m (some l) w log) (turn-Falls m l w log h)
    where
      after :
          ((n : Machine) (l' : ℕ) (w' : W) (log' : Log E)
            → l' ≤ time w' + longest
            → measure n.step l' (time w') < fuel
            → (r : W × Log E × Result (Failure E) Outcome) × (loop world fuel budgets n
                  (some l')
                  w'
                  log'
                ≡ some r))
          → (t : Turn W E) → Falls (measure m.step l (time w)) t
          → (r : W × Log E × Result (Failure E) Outcome) × ((elim t [
            | returns w' log' r' ↦ some (w', log', r')
            | continues n limit' w' log' ↦ loop world fuel budgets n limit' w' log'
          ])
              ≡ some r)
      after rest (returns w' log' r) g = ((w', log', r), refl)
      after rest (continues n limit' w' log') (l', e, bound, less) =
          rw e (rest n l' w' log' bound (omega arith))

  -- With a drain budget, a run ends within a number of turns that the two budgets bound, and its
  -- result is explained by its log.
  pub run_total :
      (mode : Mode) (w : W)
      → (r : W × Log E × Result (Failure E) Outcome) × (run world
            (9 * (max budgets.setup d + 2))
            mode
            budgets
            w
          ≡ some r)
        × Explains mode r.1 r.2
  unfolding run new
  run_total mode w =
      let (r, e) =
        loop_ends (9 * (longest + 2)) (new mode) ((world.now w).1 + budgets.setup) (world.now w).0
          [] (omega (arith, now_reads w)) (unfold measure in omega (arith, now_reads w)) in
      (r, e, run-Explains world budgets (9 * (longest + 2)) mode w r.0 r.1 r.2 e)
