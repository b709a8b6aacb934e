-- ===== src/Backoff/Polling.antt =====
-- A poll of src/backoff.rs with a deadline ends.
use kunobi_daemon.Common.{
  ℕ, zero, suc, ◌+◌, ◌-◌, ◌*◌, ◌≤◌, ◌<◌, ◌≡◌, refl, min, Bool, true, false, Option, some, Result,
  ok, err, ◌==◌, arith, Bool-cases, inl, inr,
}
use kunobi_daemon.Backoff.{
  World, first, longest, next_pause, overrun, slept, napped, checked, loop, poll,
}

-- What a poll relies on: `Instant::now` never runs backwards, and `thread::sleep` sleeps at least
-- as long as it is told.
pub record Clock {W E : Type 0} (world : World W E) : Type 0 where
  pub time : W → ℕ
  pub now_reads : (w : W) → (time w ≤ (world.now w).1) × ((world.now w).1 ≡ time (world.now w).0)
  pub sleep_waits : (w : W) (d : ℕ) → time w + d ≤ time (world.sleep w d)
  pub done_keeps : (w : W) → time w ≤ time (world.done w).0

module _ {W E : Type 0} (world : World W E) (clock : Clock world) (deadline : ℕ) where
  open clock use {time, now_reads, sleep_waits, done_keeps}

  -- A result is given.
  abbrev IsGiven : Option (W × Result E Bool) → Type 0
  IsGiven o = (r : W × Result E Bool) × (o ≡ some r)

  -- The rest of the loop gives a result at any later time.
  abbrev Finishes : (ℕ → W → Option (W × Result E Bool)) → ℕ → Type 0
  Finishes rest t =
      (pause : ℕ) (w : W) → 0 < pause → t < time w → t < deadline → IsGiven (rest pause w)

  napped-IsGiven :
      (rest : ℕ → W → Option (W × Result E Bool)) (pause t : ℕ) (w : W)
      → Finishes rest t
      → 0 < pause
      → t ≤ time w
      → IsGiven (napped world rest (some deadline) (next_pause world pause (some deadline) w))
  unfolding napped next_pause overrun slept
  napped-IsGiven rest pause t w f p h =
      let w2 : W = (world.now w).0 in
      let nap : ℕ = min (deadline - (world.now w).1) pause in
      let w3 : W = world.sleep w2 nap in
      elim (Bool-cases (deadline - (world.now w).1 == 0)) [
        | inl passed ↦ rw passed (_, refl)
        | inr left ↦ rw left (elim (Bool-cases (deadline - (world.now w3).1 == 0)) [
          | inl late ↦ rw late (_, refl)
          | inr early ↦ rw early (
              f (min longest (pause * 2)) (world.now w3).0 (omega arith)
                (ground (arith, now_reads w, now_reads w3, sleep_waits w2 nap, left))
                (ground (arith, now_reads w, left)))
        ])
      ]

  checked-IsGiven :
      (rest : ℕ → W → Option (W × Result E Bool)) (pause t : ℕ) (a : W × Result E Bool)
      → Finishes rest t
      → 0 < pause
      → t ≤ time a.0
      → IsGiven (checked world rest pause (some deadline) a)
  unfolding checked
  checked-IsGiven rest pause t (w, err e) f p h = (_, refl)
  checked-IsGiven rest pause t (w, ok true) f p h = (_, refl)
  checked-IsGiven rest pause t (w, ok false) f p h = napped-IsGiven rest pause t w f p h

  loop-IsGiven :
      (fuel pause : ℕ) (w : W)
      → 0 < pause
      → deadline - time w < fuel
      → IsGiven (loop world fuel pause (some deadline) w)
  unfolding loop
  loop-IsGiven zero pause w p h = absurd (omega arith)
  loop-IsGiven (suc fuel) pause w p h =
      checked-IsGiven _ pause (time w) (world.done w)
        (λ next w' q later before. loop-IsGiven fuel next w' q (omega arith)) p (done_keeps w)

-- A poll with a deadline ends, whatever its check answers, under a clock that does not run
-- backwards and a sleep that lasts: within one check more than the deadline has nanoseconds ahead.
pub poll_total :
    {W E : Type 0} (world : World W E) (clock : Clock world) (deadline : ℕ) (w : W)
    → (r : W × Result E Bool) × (poll world (deadline - clock.time w + 1) (some deadline) w
        ≡ some r)
unfolding poll
poll_total world clock deadline w =
    loop-IsGiven world clock deadline (deadline - clock.time w + 1) first w (omega arith)
      (omega arith)
