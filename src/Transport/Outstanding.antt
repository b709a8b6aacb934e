-- ===== src/Transport/Outstanding.antt =====
-- `Outstanding` of src/transport.rs: the requests in flight, and the callers that wait for them to
-- be settled. A map from keys to counts is an association list; the epoch, a u64 that no run fills,
-- is a number. A guard is the obligation to drop it, which `end_failing` and `end_transition` are.
pub mod Counts
pub mod Epochs
pub mod Ledger
pub mod Wakeups
use kunobi_daemon.Common.{
  ℕ, zero, suc, ◌+◌, ◌-◌, Bool, true, false, ◌&&◌, not, Option, none, some, List, [], ◌∷◌, ◌++◌,
  ltb, ◌==◌, if◌then◌else◌, replicate,
}
use kunobi_daemon.Transport.{Key}

pub record Requests (K : Type 0) : Type 0 where
  pub keys : List (K × ℕ)
  pub tracked : ℕ
  pub epoch : ℕ
  pub overflowed : Bool
  pub failing : ℕ
  pub transitions : ℕ
  pub waiters : ℕ

-- The state under the mutex, the callers blocked on the condition variable, and the callers that it
-- woke and that have not locked the mutex again.
pub record Outstanding (K : Type 0) : Type 0 where
  pub state : Requests K
  pub asleep : ℕ
  pub woken : ℕ

abbrev pub no_keys : {K : Type 0} → List (K × ℕ) → Bool
no_keys [] = true
no_keys (_ ∷ _) = false

unfoldable pub settled : {K : Type 0} → Requests K → Bool
settled s = not s.overflowed && (s.failing == 0 && (s.transitions == 0 && no_keys s.keys))

unfoldable pub must_wake : {K : Type 0} → Requests K → Bool
must_wake s = ltb 0 s.waiters && settled s

-- `notify_all` under the test.
unfoldable pub wake_if_settled : {K : Type 0} → Outstanding K → Outstanding K
wake_if_settled o =
    if must_wake o.state then record o { asleep = 0; woken = o.woken + o.asleep } else o

abbrev pub fresh : {K : Type 0} → Outstanding K
fresh = record {
  state = record {
    keys = [];
    tracked = 0;
    epoch = 0;
    overflowed = false;
    failing = 0;
    transitions = 0;
    waiters = 0;
  };
  asleep = 0;
  woken = 0;
}

unfoldable pub clear : {K : Type 0} → Outstanding K → Outstanding K
clear o =
    let s = o.state in
    wake_if_settled (record o {
      state = record s { keys = []; tracked = 0; epoch = s.epoch + 1; overflowed = false };
    })

-- With the keys that the guard holds.
unfoldable pub fail : {K : Type 0} → Outstanding K → Outstanding K × List (K × ℕ)
fail o =
    let s = o.state in
    (
      record o {
        state = record s {
          keys = [];
          tracked = 0;
          epoch = s.epoch + 1;
          overflowed = false;
          failing = s.failing + 1;
        };
      },
      s.keys,
    )

-- `Failing::keys`.
unfoldable pub failed_keys : {K : Type 0} → List (K × ℕ) → List K
failed_keys [] = []
failed_keys ((key, count) ∷ keys) = replicate count key ++ failed_keys keys

unfoldable pub end_failing : {K : Type 0} → Outstanding K → Outstanding K
end_failing o =
    let s = o.state in wake_if_settled (record o { state = record s { failing = s.failing - 1 } })

unfoldable pub transition : {K : Type 0} → Outstanding K → Outstanding K
transition o = let s = o.state in record o { state = record s { transitions = s.transitions + 1 } }

unfoldable pub end_transition : {K : Type 0} → Outstanding K → Outstanding K
end_transition o =
    let s = o.state in
    wake_if_settled (record o { state = record s { transitions = s.transitions - 1 } })

-- The loop's test, by a caller that holds the mutex and is counted in `waiters`: it returns, or it
-- blocks.
unfoldable pub check_settled : {K : Type 0} → Outstanding K → Outstanding K
check_settled o =
    let s = o.state in
    if settled s
    then record o { state = record s { waiters = s.waiters - 1 } }
    else record o { asleep = o.asleep + 1 }

-- `wait_settled`, to its return or to where it blocks.
unfoldable pub wait_settled : {K : Type 0} → Outstanding K → Outstanding K
wait_settled o =
    let s = o.state in check_settled (record o { state = record s { waiters = s.waiters + 1 } })

-- A woken caller, if there is one, has the mutex again.
unfoldable pub next_woken : {K : Type 0} → ℕ → Outstanding K → Outstanding K
next_woken zero o = o
next_woken (suc n) o = check_settled (record o { woken = n })

unfoldable pub wake_up : {K : Type 0} → Outstanding K → Outstanding K
wake_up o = next_woken o.woken o

unfoldable pub next_asleep : {K : Type 0} → ℕ → Outstanding K → Outstanding K
next_asleep zero o = o
next_asleep (suc n) o = record o { asleep = n; woken = suc o.woken }

-- A condition variable may wake a caller that nobody notified.
unfoldable pub spurious : {K : Type 0} → Outstanding K → Outstanding K
spurious o = next_asleep o.asleep o

-- What happens to the set: a request, a reply, and so on; a caller that waits, one that was woken,
-- and one that nobody woke.
pub data Op (K : Type 0) : Type 0 where
  begins : K → Op K
  settles : (epoch : ℕ) → K → Op K
  clears fails reported moves moved waits wakes stirs : Op K

module _ {K : Type 0} ⦃key : Key K⦄ where
  -- `*keys.entry(key).or_insert(0) += 1`.
  unfoldable pub raise : K → List (K × ℕ) → List (K × ℕ)
  raise k [] = (k, 1) ∷ []
  raise k ((j, n) ∷ keys) = if key.same k j then (j, n + 1) ∷ keys else (j, n) ∷ raise k keys

  unfoldable pub get_count : K → List (K × ℕ) → Option ℕ
  get_count k [] = none
  get_count k ((j, n) ∷ keys) = if key.same k j then some n else get_count k keys

  -- The count falls by one, and the key goes with its last request.
  unfoldable pub lower : K → List (K × ℕ) → List (K × ℕ)
  lower k [] = []
  lower k ((j, n) ∷ keys) =
      if key.same k j
      then (if n - 1 == 0 then keys else (j, n - 1) ∷ keys)
      else (j, n) ∷ lower k keys

  unfoldable pub begin : ℕ → K → Outstanding K → Outstanding K
  begin capacity k o =
      let s = o.state in
      if ltb s.tracked capacity
      then record o { state = record s { keys = raise k s.keys; tracked = s.tracked + 1 } }
      else record o { state = record s { overflowed = true } }

  -- What the lookup of the key found.
  unfoldable pub settle_found : K → Option ℕ → Outstanding K → Outstanding K
  settle_found k none o = o
  settle_found k (some count) o =
      let s = o.state in
      wake_if_settled
        (record o { state = record s { keys = lower k s.keys; tracked = s.tracked - 1 } })

  unfoldable pub settle : ℕ → K → Outstanding K → Outstanding K
  settle epoch k o =
      if epoch == o.state.epoch then settle_found k (get_count k o.state.keys) o else o

  unfoldable pub act : ℕ → Op K → Outstanding K → Outstanding K
  act capacity (begins k) o = begin capacity k o
  act capacity (settles epoch k) o = settle epoch k o
  act capacity clears o = clear o
  act capacity fails o = (fail o).0
  act capacity reported o = end_failing o
  act capacity moves o = transition o
  act capacity moved o = end_transition o
  act capacity waits o = wait_settled o
  act capacity wakes o = wake_up o
  act capacity stirs o = spurious o

  unfoldable pub run : ℕ → List (Op K) → Outstanding K → Outstanding K
  run capacity [] o = o
  run capacity (op ∷ ops) o = run capacity ops (act capacity op o)
