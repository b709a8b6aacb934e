-- ===== src/Serve.antt =====
-- src/serve.rs: the accept loop, which composes the gate, the budgets and a peer policy. The loop is
-- a run over what happens to it; a handler holds its permit until it ends. Descriptor numbers are
-- those of Unix.
pub mod Accounts
mod Examples
use kunobi_daemon.Common.{
  ◌||◌, ℕ, zero, suc, ◌+◌, Bool, ◌&&◌, is_none, Option, none, some, List, [], ◌∷◌, Result, ok, err,
  ◌==◌, if◌then◌else◌,
}
use kunobi_daemon.Admission.{Pool, Admission, try_acquire, release}
use kunobi_daemon.Lifecycle.{Lifecycle, rejected, observe, accepting_calls, start_drain}
use kunobi_daemon.Peer.{Credentials, Rejected, Policy, Authenticated, authenticate}

pub record Served : Type 0 where
  pub admitted : ℕ
  pub unauthenticated : ℕ
  pub over_capacity : ℕ
  pub aborted : ℕ

abbrev pub nobody : Served
nobody = record { admitted = 0; unauthenticated = 0; over_capacity = 0; aborted = 0 }

-- By the raw error number: ENFILE and EMFILE.
unfoldable pub is_descriptor_exhaustion : ℕ → Bool
is_descriptor_exhaustion n = n == 23 || n == 24

-- A running handler, with its connection and the pool of its permit.
pub record Handler (C G : Type 0) : Type 0 where
  pub peer : Authenticated C G
  pub pool : Pool

-- The loop's state, and how it ended: by a drain, or by an error of the listener.
pub record Serving (C G : Type 0) : Type 0 where
  pub lifecycle : Lifecycle
  pub admission : Admission
  pub served : Served
  pub handlers : List (Handler C G)
  pub stopped : Option (Result ℕ (Unit {0}))

-- What happens to the loop. A connection comes with its credentials, if they can be read, and with
-- the time of a drain that starts while the peer is checked, if one does.
pub data Event (C : Type 0) : Type 0 where
  drains : (now : ℕ) → Event C
  joins : (position : ℕ) → Event C
  accepts : C → Option Credentials → (meanwhile : Option ℕ) → Event C
  fails : (error : ℕ) → Event C

abbrev behind :
    {C G : Type 0}
    → Handler C G
    → Option (Handler C G × List (Handler C G))
    → Option (Handler C G × List (Handler C G))
behind h none = none
behind h (some (found, rest)) = some (found, h ∷ rest)

-- `join_next` gives any handler that has ended.
unfoldable pub nth_handler :
    {C G : Type 0} → ℕ → List (Handler C G) → Option (Handler C G × List (Handler C G))
nth_handler n [] = none
nth_handler zero (h ∷ handlers) = some (h, handlers)
nth_handler (suc n) (h ∷ handlers) = behind h (nth_handler n handlers)

unfoldable pub joined :
    {C G : Type 0} → Option (Handler C G × List (Handler C G)) → Serving C G → Serving C G
joined none s = s
joined (some (h, rest)) s = record s { admission = release s.admission h.pool; handlers = rest }

unfoldable pub drain_meanwhile : Option ℕ → Lifecycle → Lifecycle
drain_meanwhile none g = g
drain_meanwhile (some now) g = (start_drain g now).0

-- A peer without evidence, or one that the policy rejects.
unfoldable pub turn_away : {C G : Type 0} → Option ℕ → Serving C G → Serving C G
turn_away meanwhile s = record s {
  served = record s.served { unauthenticated = s.served.unauthenticated + 1 };
  lifecycle = observe rejected (drain_meanwhile meanwhile s.lifecycle);
}

-- With the permit, or without one, and the admission that counts that.
unfoldable pub admit :
    {C G : Type 0}
    → Option ℕ
    → Authenticated C G
    → Admission × Option Pool
    → Serving C G
    → Serving C G
admit meanwhile a (admission, none) s = record s {
  admission = admission;
  served = record s.served { over_capacity = s.served.over_capacity + 1 };
  lifecycle = drain_meanwhile meanwhile s.lifecycle;
}
admit meanwhile a (admission, some pool) s =
    let gate = drain_meanwhile meanwhile s.lifecycle in
    if accepting_calls gate
    then record s {
      admission = admission;
      served = record s.served { admitted = s.served.admitted + 1 };
      lifecycle = gate;
      handlers = record { peer = a; pool = pool } ∷ s.handlers;
    }
    else record s { admission = release admission pool; lifecycle = gate; stopped = some (ok tt) }

unfoldable pub greet :
    {C G : Type 0}
    → (G → Pool)
    → Option ℕ
    → Result Rejected (Authenticated C G)
    → Serving C G
    → Serving C G
greet pool meanwhile (err reason) s = turn_away meanwhile s
greet pool meanwhile (ok a) s = admit meanwhile a (try_acquire s.admission (pool a.grant)) s

unfoldable pub accept :
    {C G : Type 0}
    → Policy G
    → (G → Pool)
    → C
    → Option Credentials
    → Option ℕ
    → Serving C G
    → Serving C G
accept policy pool connection none meanwhile s = turn_away meanwhile s
accept policy pool connection (some evidence) meanwhile s =
    greet pool meanwhile (authenticate connection evidence policy) s

-- The arms of the `select!`, and a drain that someone starts.
unfoldable pub turn : {C G : Type 0} → Policy G → (G → Pool) → Event C → Serving C G → Serving C G
turn policy pool (drains now) s = record s { lifecycle = (start_drain s.lifecycle now).0 }
turn policy pool (joins position) s = joined (nth_handler position s.handlers) s
turn policy pool (accepts connection evidence meanwhile) s =
    accept policy pool connection evidence meanwhile s
turn policy pool (fails error) s =
    if is_descriptor_exhaustion error then s else record s { stopped = some (err error) }

-- A drain is looked for before each turn.
abbrev pub goes_on : {C G : Type 0} → Serving C G → Bool
goes_on s = is_none s.stopped && accepting_calls s.lifecycle

abbrev pub outcome : Option (Result ℕ (Unit {0})) → Result ℕ (Unit {0})
outcome none = ok tt
outcome (some why) = why

-- The loop of `Serve::run`, up to its break.
unfoldable pub serve :
    {C G : Type 0} → Policy G → (G → Pool) → List (Event C) → Serving C G → Serving C G
serve policy pool [] s = s
serve policy pool (e ∷ events) s =
    let later = serve policy pool events (turn policy pool e s) in
    if goes_on s then later else record s { stopped = some (outcome s.stopped) }

-- `finish`: for each handler, whether it is cancelled at the end of the budget. All have ended when
-- it returns, and their permits are dropped.
unfoldable pub finish_all :
    {C G : Type 0} → List (Handler C G) → List Bool → Admission × ℕ → Admission × ℕ
finish_all [] fates (admission, aborted) = (admission, aborted)
finish_all (h ∷ handlers) [] (admission, aborted) =
    finish_all handlers [] (release admission h.pool, aborted)
finish_all (h ∷ handlers) (cancelled ∷ fates) (admission, aborted) =
    finish_all handlers fates (release admission h.pool, if cancelled then aborted + 1 else aborted)

unfoldable pub finish : {C G : Type 0} → List Bool → Serving C G → Serving C G
finish fates s =
    let (admission, aborted) = finish_all s.handlers fates (s.admission, 0) in
    record s {
      admission = admission;
      served = record s.served { aborted = aborted };
      handlers = [];
    }
