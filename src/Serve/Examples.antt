-- ===== src/Serve/Examples.antt =====
-- The accept loop of src/serve.rs on a concrete run.
use kunobi_daemon.Common.{ℕ, ◌≤◌, ◌≡◌, refl, true, false, none, some, List, [], ◌∷◌, arith}
use kunobi_daemon.Common.Words.{u64_max}
use kunobi_daemon.Admission.{Limits, Pool, handshake, capacity, try_acquire, new}
use kunobi_daemon.Admission.Budgets.{held_in, limit_of}
use kunobi_daemon.Lifecycle
use kunobi_daemon.Lifecycle.{accepting_calls}
use kunobi_daemon.Peer.{Credentials, Policy, connection, same_user, authenticate}
use kunobi_daemon.Serve.{
  accept, accepts, admit, drain_meanwhile, Event, fails, finish, greet, is_descriptor_exhaustion,
  serve, Serving, turn, turn_away,
}
use kunobi_daemon.Serve.Accounts.{AllGranted, answered, opened, pools, serve_counted, serve_safe}

abbrev limits : Limits
limits = record { handshakes = 1; application = 1; control = 1 }

limits_small : (p : Pool) → limit_of limits p ≤ u64_max
limits_small handshake = omega arith
limits_small Pool.application = omega arith
limits_small Pool.control = omega arith

abbrev own : Credentials
own = record { pid = none; same_user = true; user_evidence = connection }

abbrev user : Policy (Unit {0})
user = same_user

abbrev pool_for : Unit {0} → Pool
pool_for u = Pool.application

-- A peer that is served, one too many, one of another user, a full descriptor table, and a drain.
abbrev events : List (Event ℕ)
events =
    accepts 1 (some own) none
    ∷ accepts 2 (some own) none
    ∷ accepts 3 (some (record own { same_user = false })) none
    ∷ fails 24
    ∷ []

abbrev state : Serving ℕ (Unit {0})
state = serve user pool_for events (opened limits)

serve_safe_example :
    AllGranted user pool_for state.handlers
    × ((p : Pool)
        → ((capacity state.admission p).active ≡ held_in p (pools state.handlers))
          × ((capacity state.admission p).active ≤ limit_of limits p)
          × ((capacity (finish (true ∷ []) state).admission p).active ≡ 0))
serve_safe_example = serve_safe limits user pool_for limits_small events (true ∷ [])

state_open : state.stopped ≡ none
unfolding serve turn accept greet admit authenticate same_user try_acquire new turn_away
    drain_meanwhile is_descriptor_exhaustion accepting_calls Lifecycle.new
state_open = refl

serve_counted_example : answered state.served ≡ 3
serve_counted_example = serve_counted limits user pool_for limits_small events state_open
