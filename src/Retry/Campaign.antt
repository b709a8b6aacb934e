-- ===== src/Retry/Campaign.antt =====
-- A consumer's use of the budget in src/retry.rs: it reserves only when an attempt is allowed.
use kunobi_daemon.Common.{
  ℕ, zero, suc, ◌+◌, ◌-◌, ◌≤◌, max, ◌≡◌, false, none, some, List, [], ◌∷◌, arith, leb,
  if◌then◌else◌,
}
use kunobi_daemon.Common.Words.{u64_max}
use kunobi_daemon.Retry.{Policy, State, allowed, reserve, exhaust, next}

-- One question at one time; the second part counts the attempts made.
attempt : State → Policy → ℕ → State × ℕ
attempt s policy now = if allowed s policy now then (reserve s policy now, 1) else (s, 0)

-- The consumer asks at each of the times, in any order.
unfoldable pub campaign : State → Policy → List ℕ → State × ℕ
unfolding attempt
campaign s policy [] = (s, 0)
campaign s policy (now ∷ later) =
    let (t, spent) = attempt s policy now in
    let (u, more) = campaign t policy later in (u, spent + more)

-- The consumer waits for the time that `next` names, at most so many times.
unfoldable pub patient : State → Policy → ℕ → State × ℕ
patient s policy zero = (s, 0)
patient s policy (suc rounds) = elim (next s policy) [
  | none ↦ (s, 0)
  | some at ↦ let (t, spent) = patient (reserve s policy at) policy rounds in (t, suc spent)
]

-- The two readings that a consumer may act on give the same answer: an attempt is allowed exactly
-- when `next` names a time that has come.
pub allowed-next :
    (s : State) (policy : Policy) (now : ℕ)
    → allowed s policy now ≡ elim (next s policy) [ none ↦ false | some at ↦ leb at now ]
unfolding allowed next
allowed-next s policy now = ground arith

attempt_spends :
    (s : State) (policy : Policy) (now : ℕ)
    → policy.limit ≤ u64_max
    → ((attempt s policy now).0.attempts ≡ s.attempts + (attempt s policy now).1)
      × ((attempt s policy now).0.attempts ≤ max policy.limit s.attempts)
unfolding attempt allowed reserve
attempt_spends s policy now h = ground arith

-- Whatever the times at which it is asked, a campaign from a state within the limit never spends
-- more attempts than are left, counts each one, and stays within the limit.
pub campaign_bounded :
    (s : State) (policy : Policy) (times : List ℕ)
    → policy.limit ≤ u64_max
    → s.attempts ≤ policy.limit
    → ((campaign s policy times).0.attempts ≡ s.attempts + (campaign s policy times).1)
      × ((campaign s policy times).1 ≤ policy.limit - s.attempts)
unfolding campaign
campaign_bounded s policy [] h k = omega arith
campaign_bounded s policy (now ∷ later) h k = omega (
  arith,
  attempt_spends s policy now h,
  campaign_bounded (attempt s policy now).0 policy later h
      (omega (arith, attempt_spends s policy now h)),
)

-- A consumer that waits as told gets every attempt that is left, and then no further time.
pub patient_exact :
    (s : State) (policy : Policy) (rounds : ℕ)
    → policy.limit ≤ u64_max
    → s.attempts + rounds ≡ policy.limit
    → ((patient s policy rounds).1 ≡ rounds) × (next (patient s policy rounds).0 policy ≡ none)
unfolding patient next
patient_exact s policy zero h k = ground arith
patient_exact s policy (suc rounds) h k =
    ground (arith, step, patient_exact (reserve s policy s.next_attempt) policy rounds h)
  where
    step : (reserve s policy s.next_attempt).attempts ≡ s.attempts + 1
    step = unfold reserve in omega arith

-- An exhausted campaign allows nothing at any later time, asks for nothing, and spends nothing.
pub exhaust_final :
    (s : State) (policy : Policy) (times : List ℕ)
    → (next (exhaust s policy) policy ≡ none)
      × (campaign (exhaust s policy) policy times ≡ (exhaust s policy, 0))
unfolding campaign exhaust next allowed
exhaust_final s policy [] = ground arith
exhaust_final s policy (now ∷ later) = ground (arith, exhaust_final s policy later)
