-- ===== src/Readiness/Reading.antt =====
-- The reading thread of src/readiness/channel.rs, and the waiter. A byte stands with the time at
-- which it is handled.
use kunobi_daemon.Common.{ℕ, Bool, true, false, Option, none, some, List, [], ◌∷◌, Result, ok, err}
use kunobi_daemon.Readiness.{
  Message, NotReady, Step, more, message, Event, closed, Inner, push, post, decide, Decision,
  not_ready, wait,
}

-- What a read gives; `Ok(0)` is the end of the stream.
pub data ReadResult : Type 0 where
  bytes : List (ℕ × ℕ) → ReadResult
  end_of_stream : ReadResult
  failed : (interrupted : Bool) → ReadResult

-- A read that returned at some time, and whether the launcher had dropped its channel by then.
pub record Read : Type 0 where
  pub at : ℕ
  pub dropped : Bool
  pub result : ReadResult

-- The reader goes on with what its decoder holds, or it has returned.
pub record Reader : Type 0 where
  pub line : Option (List ℕ)
  pub inner : Inner

-- The match on the step that a byte completes.
unfoldable pub stepped : Inner → ℕ → List ℕ × Step → Reader
stepped inner at (line, more) = record { line = some line; inner = inner }
stepped inner at (line, message (Message.progress detail)) = record {
  line = some line;
  inner = post inner at Event.progress detail;
}
stepped inner at (line, message Message.ready) = record {
  line = none;
  inner = post inner at Event.ready none;
}
stepped inner at (line, Step.malformed) = record {
  line = none;
  inner = post inner at Event.malformed none;
}

-- The loop over the bytes of one read.
unfoldable pub take_bytes : Reader → List (ℕ × ℕ) → Reader
take_bytes r [] = r
take_bytes r ((at, byte) ∷ rest) = elim r.line [
  | none ↦ r
  | some line ↦ take_bytes (stepped r.inner at (push line byte)) rest
]

unfoldable pub take_result : List ℕ → Inner → ℕ → ReadResult → Reader
take_result line inner at (bytes bs) = take_bytes (record { line = some line; inner = inner }) bs
take_result line inner at end_of_stream = record { line = none; inner = post inner at closed none }
take_result line inner at (failed true) = record { line = some line; inner = inner }
take_result line inner at (failed false) = record { line = none; inner = post inner at closed none }

-- `read_messages`, on the reads that it makes.
unfoldable pub read_messages : Reader → List Read → Reader
read_messages r [] = r
read_messages r (read ∷ reads) = elim r.line [
  | none ↦ r
  | some line ↦ elim read.dropped [
    | true ↦ record r { line = none }
    | false ↦ read_messages (take_result line r.inner read.at read.result) reads
  ]
]

-- `Channel::wait`: at each turn of its loop the waiter sees the state at a time. `none`: it still
-- waits.
unfoldable pub wait_ready : ℕ → List (Inner × ℕ) → Option (Result NotReady (Unit {0}))
wait_ready silence [] = none
wait_ready silence ((inner, now) ∷ later) = elim (decide inner.tracker now silence) [
  | Decision.ready ↦ some (ok tt)
  | not_ready reason ↦ some (err reason)
  | wait remaining ↦ wait_ready silence later
]
