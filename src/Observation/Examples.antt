-- ===== src/Observation/Examples.antt =====
-- A queue of one event of src/observation.rs.
use kunobi_daemon.Common.{◌≡◌, refl, true, false, List, [], ◌∷◌, arith, ok, err}
use kunobi_daemon.Observation.Adapter.{Balanced, Call, calls, wrap-Balanced, reads, writes}
use kunobi_daemon.Observation.{
  ErrorKind, new, wrap, connected, disconnected, rejected, record_event, take_events,
}
use kunobi_daemon.Observation.Queue.{
  Accounts, offered, Op, opened, opened-Accounts, records, run, takes,
}

-- One event fits, one meets a full queue, one a reader.
abbrev ops : List Op
ops =
    records false 1 connected
    ∷ records false 2 rejected
    ∷ takes
    ∷ records true 3 rejected
    ∷ records false 4 disconnected
    ∷ []

two_lost : (run ops (opened 1)).observations.lost_events ≡ 2
unfolding record_event take_events
two_lost = refl

opened-Accounts_example : Accounts 1 (offered ops) (run ops (opened 1))
opened-Accounts_example = opened-Accounts 1 ops (omega arith) (omega arith)

abbrev traffic : List Call
traffic =
    reads false 16 1 2 (ok 5)
    ∷ writes true 3 4 (err (ErrorKind.other 32))
    ∷ reads false 16 5 6 (ok 0)
    ∷ []

wrap-Balanced_example : Balanced 0 0 5 0 (calls traffic (wrap false 0 (new 4))).observations
wrap-Balanced_example = wrap-Balanced 4 0 false traffic
