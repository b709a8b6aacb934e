-- ===== src/Transport/Examples.antt =====
-- The transport of src/transport.rs at concrete inputs: a writer that takes up to eight bytes, and
-- keys that are numbers.
use kunobi_daemon.Common.{
  ℕ, ◌+◌, ◌≡◌, refl, Bool, true, false, some, List, [], ◌∷◌, ◌++◌, arith, length, leb,
  if◌then◌else◌, inl, inr, ◌==◌, ==_iff, Bool-cases,
}
use kunobi_daemon.Transport.{Key, WriteHalf}
use kunobi_daemon.Transport.Outstanding.{
  fresh, settled, fail, failed_keys, begin, raise, settle, settle_found, get_count, lower,
  wait_settled, check_settled, wake_if_settled, must_wake, spurious, next_asleep, end_failing, Op,
  begins, settles, fails, reported, waits, stirs, act, run,
}
use kunobi_daemon.Transport.Outstanding.Counts.{count, erase}
use kunobi_daemon.Transport.Outstanding.Ledger.{all_settled, blank, follow_all, run-Ledger}
use kunobi_daemon.Transport.Outstanding.Epochs.{settle_stale}
use kunobi_daemon.Transport.Outstanding.Wakeups.{wake_times, run-all_return}
use kunobi_daemon.Transport.Writer.{
  Slot, parked, ends_line, try_pause, resume, resume_call, write_observed, write_window,
  write_flush, count_window, replace_paused,
}
use kunobi_daemon.Transport.Writer
use kunobi_daemon.Transport.Writer.Boundary.{
  Faithful, goes_on, happen, pauses, replaces, resumes, started, try_pause-Boundary,
}
use kunobi_daemon.Transport.Pump.{
  Received, got, interrupted, broken, pump_downstream, pump_upstream,
}
use kunobi_daemon.Transport.Pump.Delivered.{
  IsGiven, IsPumped, pump_downstream-IsGiven, pump_upstream-IsPumped,
}

instance abbrev numbers : Key ℕ
numbers = record { same = λ a b. a == b; same_iff = ==_iff }

-- Two requests with one key, a caller that waits, a failure, and a newer request with the key.
abbrev history : List (Op ℕ)
history = begins 7 ∷ begins 7 ∷ waits ∷ settles 0 7 ∷ []

run-Ledger_example :
    (settled (run 4 history fresh).state ≡ all_settled (follow_all 4 history blank))
    × ((run 4 history fresh).state.tracked ≡ 1)
    × ((k : ℕ) → count k (failed_keys (fail (run 4 history fresh)).1) ≡ count k (7 ∷ []))
unfolding count erase
run-Ledger_example = run-Ledger 4 history

settle_stale_example :
    settle 0 7 (run 4 (begins 7 ∷ []) (act 4 fails (run 4 history fresh)))
    ≡ run 4 (begins 7 ∷ []) (act 4 fails (run 4 history fresh))
unfolding run act begin settle settle_found get_count lower raise wait_settled check_settled settled
    fail wake_if_settled must_wake
settle_stale_example = settle_stale 4 history (begins 7 ∷ []) fails 7 (inr refl)

abbrev whole_history : List (Op ℕ)
whole_history = history ++ (stirs ∷ fails ∷ reported ∷ [])

settled_now : settled (run 4 whole_history fresh).state ≡ true
unfolding run act begin settle settle_found get_count lower raise wait_settled check_settled settled
    fail wake_if_settled must_wake spurious next_asleep end_failing
settled_now = refl

run-all_return_example :
    ((run 4 whole_history fresh).asleep ≡ 0)
    × ((wake_times (run 4 whole_history fresh).woken (run 4 whole_history fresh)).state.waiters ≡ 0)
run-all_return_example = run-all_return 4 whole_history settled_now

-- A connection and whether it takes more.
record Sink : Type 0 where
  bytes : List ℕ
  shut : Bool

instance abbrev sinks : WriteHalf Sink
sinks = record {
  write_all = λ w bytes.
      if leb (length (w.bytes ++ bytes)) 8
      then (record w { bytes = w.bytes ++ bytes }, true)
      else (w, false);
  flush = λ w. (w, true);
  shutdown_write = λ w. (record w { shut = true }, true);
}

takes_whole :
    (w : Sink) (bytes : List ℕ)
    → (sinks.write_all w bytes).1 ≡ true
    → (sinks.write_all w bytes).0.bytes ≡ w.bytes ++ bytes
takes_whole w bytes h = elim (Bool-cases (leb (length (w.bytes ++ bytes)) 8)) [
  | inl e ↦ rw e refl
  | inr e ↦ absurd (ground (arith, h, e))
]

abbrev faithful : Faithful Sink
faithful = record {
  taken = λ w. w.bytes;
  whole = takes_whole;
  flushed = λ w. refl;
  shut = λ w. refl;
}

abbrev sink : Sink
sink = record { bytes = []; shut = false }

abbrev reads : List Received
reads = got (1 ∷ 2 ∷ []) ∷ interrupted ∷ got (3 ∷ []) ∷ got [] ∷ []

pump_upstream-IsPumped_example : IsPumped faithful reads sink (pump_upstream reads sink)
pump_upstream-IsPumped_example = pump_upstream-IsPumped faithful reads sink

pump_downstream-IsGiven_example :
    IsGiven faithful
      (got (1 ∷ 2 ∷ []) ∷ broken ∷ [])
      sink
      (pump_downstream (got (1 ∷ 2 ∷ []) ∷ broken ∷ []) sink)
pump_downstream-IsGiven_example =
    pump_downstream-IsGiven faithful (got (1 ∷ 2 ∷ []) ∷ broken ∷ []) sink

-- One window that ends its line, and a newer connection that has taken three bytes already.
abbrev moves_on : List (Writer.Boundary.Op Sink)
moves_on =
    goes_on (1 ∷ b'\n' ∷ []) parked
    ∷ replaces (record { bytes = 5 ∷ 6 ∷ 7 ∷ []; shut = false }) 3
    ∷ resumes
    ∷ goes_on (2 ∷ b'\n' ∷ []) parked
    ∷ []

paused_there : (try_pause false (happen faithful moves_on (started faithful sink)).slot).1 ≡ some 5
unfolding try_pause resume resume_call write_observed write_window write_flush count_window
    replace_paused ends_line
paused_there = refl

try_pause-Boundary_example :
    let v = happen faithful moves_on (started faithful sink) in
    (v.slot.failed ≡ false)
    × (v.slot.ended ≡ false)
    × (v.slot.closed ≡ false)
    × ((rest : List ℕ) × (v.slot.writer.bytes ≡ v.start ++ rest)
        × (5 ≡ v.offset + length rest)
        × (ends_line rest ≡ true))
try_pause-Boundary_example =
    try_pause-Boundary faithful sink moves_on false 5 (omega arith, (omega arith, tt)) paused_there
