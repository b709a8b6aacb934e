-- ===== src/Backoff.antt =====
-- src/backoff.rs: a check repeated with a growing pause. The clock, the sleep and the check are one
-- parameter. Instants and durations are nanoseconds; doubling a pause of at most 50 ms cannot
-- overflow a Duration.
pub mod Polling
mod Examples
use kunobi_daemon.Common.{
  ℕ, zero, suc, ◌-◌, ◌*◌, min, Bool, true, false, Option, none, some, Result, ok, err, ◌==◌,
  if◌then◌else◌,
}

abbrev pub first : ℕ
first = 1_000_000

abbrev pub longest : ℕ
longest = 50_000_000

pub record World (W E : Type 0) : Type 0 where
  pub now : W → W × ℕ
  pub sleep : W → ℕ → W
  pub done : W → W × Result E Bool

abbrev grown : ℕ → ℕ
grown pause = min longest (pause * 2)

module _ {W E : Type 0} (world : World W E) where
  -- The world, the next pause, and the nap.
  unfoldable pub next_pause : ℕ → Option ℕ → W → W × ℕ × Option ℕ
  next_pause pause none w = (w, grown pause, some pause)
  next_pause pause (some deadline) w =
      let (w', t) = world.now w in
      if deadline - t == 0
      then (w', pause, none)
      else (w', grown pause, some (min (deadline - t) pause))

  -- After the sleep: whether the deadline has come.
  unfoldable pub overrun : Option ℕ → W → W × Bool
  overrun none w = (w, false)
  overrun (some deadline) w = let (w', t) = world.now w in (w', deadline - t == 0)

  -- After the sleep, with the rest of the loop.
  unfoldable pub slept :
      (ℕ → W → Option (W × Result E Bool)) → ℕ → W × Bool → Option (W × Result E Bool)
  slept rest pause (w, true) = some (w, ok false)
  slept rest pause (w, false) = rest pause w

  unfoldable pub napped :
      (ℕ → W → Option (W × Result E Bool))
      → Option ℕ
      → W × ℕ × Option ℕ
      → Option (W × Result E Bool)
  napped rest deadline (w, pause, none) = some (w, ok false)
  napped rest deadline (w, pause, some nap) =
      slept rest pause (overrun deadline (world.sleep w nap))

  unfoldable pub checked :
      (ℕ → W → Option (W × Result E Bool))
      → ℕ
      → Option ℕ
      → W × Result E Bool
      → Option (W × Result E Bool)
  checked rest pause deadline (w, err e) = some (w, err e)
  checked rest pause deadline (w, ok true) = some (w, ok true)
  checked rest pause deadline (w, ok false) = napped rest deadline (next_pause pause deadline w)

  -- `none`: the fuel ran out.
  unfoldable pub loop : ℕ → ℕ → Option ℕ → W → Option (W × Result E Bool)
  loop zero pause deadline w = none
  loop (suc fuel) pause deadline w =
      checked (λ next w'. loop fuel next deadline w') pause deadline (world.done w)

  unfoldable pub poll : ℕ → Option ℕ → W → Option (W × Result E Bool)
  poll fuel deadline w = loop fuel first deadline w
