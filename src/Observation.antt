-- ===== src/Observation.antt =====
-- src/observation.rs: counters and a bounded queue of events, and the blocking adapter that keeps
-- them. An atomic update is one step; times are nanoseconds since the construction.
pub mod Adapter
pub mod Queue
mod Examples
use kunobi_daemon.Common.{
  ℕ, ◌+◌, ◌-◌, ◌%◌, Bool, true, false, ◌&&◌, not, Option, none, some, List, [], ◌∷◌, ◌++◌, Result,
  ok, err, ltb, ◌==◌, if◌then◌else◌, length, min, max,
}
use kunobi_daemon.Common.Words.{u64_max}

pub data Direction : Type 0 where
  inward outward : Direction

-- The error categories that the adapter tells apart.
pub data ErrorKind : Type 0 where
  interrupted would_block : ErrorKind
  other : ℕ → ErrorKind

pub data Event : Type 0 where
  connected disconnected read_closed rejected : Event
  io_failed : Direction → ErrorKind → Event
  drain_started drain_completed drain_timed_out : Event
  handoff_started handoff_completed handoff_aborted : Event

pub record TimedEvent : Type 0 where
  pub elapsed : ℕ
  pub event : Event

pub record Progress : Type 0 where
  pub bytes : ℕ
  pub pending : ℕ
  pub busy_since : ℕ
  pub last_progress : ℕ
  pub errors : ℕ

pub record ProgressSnapshot : Type 0 where
  pub bytes : ℕ
  pub pending : ℕ
  pub busy_for : Option ℕ
  pub since_progress : Option ℕ
  pub errors : ℕ

pub record Snapshot : Type 0 where
  pub connections : ℕ
  pub read : ProgressSnapshot
  pub write : ProgressSnapshot
  pub lost_events : ℕ

pub record Observations : Type 0 where
  pub read : Progress
  pub write : Progress
  pub connections : ℕ
  pub events : List TimedEvent
  pub event_capacity : ℕ
  pub lost_events : ℕ

abbrev pub idle : Progress
idle = record { bytes = 0; pending = 0; busy_since = 0; last_progress = 0; errors = 0 }

abbrev pub new : ℕ → Observations
new event_capacity = record {
  read = idle;
  write = idle;
  connections = 0;
  events = [];
  event_capacity = event_capacity;
  lost_events = 0;
}

-- `fetch_add` and `fetch_sub` on 64-bit atomics wrap.
abbrev pub add_wrapping : ℕ → ℕ → ℕ
add_wrapping n k = (n + k) % (u64_max + 1)

abbrev pub sub_one : ℕ → ℕ
sub_one n = (n + u64_max) % (u64_max + 1)

-- `contended`: another thread holds the queue's mutex.
unfoldable pub record_event : Bool → ℕ → Event → Observations → Observations
record_event contended now event o =
    if o.event_capacity == 0
    then o
    else if not contended && ltb (length o.events) o.event_capacity
    then record o { events = o.events ++ record { elapsed = now; event = event } ∷ [] }
    else record o { lost_events = add_wrapping o.lost_events 1 }

unfoldable pub take_events : Observations → Observations × List TimedEvent
take_events o = (record o { events = [] }, o.events)

unfoldable pub progress_snapshot : ℕ → Progress → ProgressSnapshot
progress_snapshot now p = record {
  bytes = p.bytes;
  pending = p.pending;
  busy_for = if p.pending == 0 then none else some (now - p.busy_since);
  since_progress = if p.last_progress == 0 then none else some (now - (p.last_progress - 1));
  errors = p.errors;
}

unfoldable pub snapshot : ℕ → Observations → Snapshot
snapshot now o = record {
  connections = o.connections;
  read = progress_snapshot now o.read;
  write = progress_snapshot now o.write;
  lost_events = o.lost_events;
}

abbrev pub progress : Direction → Observations → Progress
progress inward o = o.read
progress outward o = o.write

abbrev pub update : Direction → (Progress → Progress) → Observations → Observations
update inward f o = record o { read = f o.read }
update outward f o = record o { write = f o.write }

unfoldable pub start : Direction → ℕ → Observations → Observations
start direction now o =
    update direction
      (λ p. record p {
        pending = add_wrapping p.pending 1;
        busy_since = if p.pending == 0 then min now u64_max else p.busy_since;
      })
      o

-- `Drop for Pending`.
unfoldable pub end_pending : Direction → Observations → Observations
end_pending direction o = update direction (λ p. record p { pending = sub_one p.pending }) o

unfoldable pub transferred : Direction → ℕ → ℕ → Observations → Observations
transferred direction now bytes o =
    if bytes == 0
    then o
    else update direction
        (λ p. record p {
          bytes = add_wrapping p.bytes bytes;
          last_progress = max p.last_progress (min now (u64_max - 1) + 1);
        })
        o

abbrev pub is_transient : ErrorKind → Bool
is_transient interrupted = true
is_transient would_block = true
is_transient (other n) = false

unfoldable pub failed : Direction → Bool → ℕ → ErrorKind → Observations → Observations
failed direction contended now kind o =
    if is_transient kind
    then o
    else record_event contended now (io_failed direction kind)
        (update direction (λ p. record p { errors = add_wrapping p.errors 1 }) o)

-- `ObservedIo`, as far as it is not the inner transport.
pub record ObservedIo : Type 0 where
  pub observations : Observations
  pub read_closed : Bool

unfoldable pub wrap : Bool → ℕ → Observations → ObservedIo
wrap contended now o = record {
  observations =
      record_event contended now connected
        (record o { connections = add_wrapping o.connections 1 });
  read_closed = false;
}

unfoldable pub unwrap : Bool → ℕ → ObservedIo → Observations
unwrap contended now io =
    let o = io.observations in
    record_event contended now disconnected (record o { connections = sub_one o.connections })

-- What the inner read gives, for a buffer of a size, between two times.
unfoldable pub observe_read : Bool → ℕ → ℕ → Result ErrorKind ℕ → ObservedIo → ObservedIo
observe_read contended size now (err kind) io = record io {
  observations = failed inward contended now kind io.observations;
}
observe_read contended size now (ok n) io =
    if n == 0 && (not (size == 0) && not io.read_closed)
    then record {
      observations = record_event contended now read_closed io.observations;
      read_closed = true;
    }
    else record io { observations = transferred inward now n io.observations }

unfoldable pub read : Bool → ℕ → ℕ → ℕ → Result ErrorKind ℕ → ObservedIo → ObservedIo
read contended size began now result io =
    let busy : ObservedIo = record io { observations = start inward began io.observations } in
    let seen : ObservedIo = observe_read contended size now result busy in
    record seen { observations = end_pending inward seen.observations }

unfoldable pub observe_write : Bool → ℕ → Result ErrorKind ℕ → Observations → Observations
observe_write contended now (err kind) o = failed outward contended now kind o
observe_write contended now (ok n) o = transferred outward now n o

unfoldable pub write : Bool → ℕ → ℕ → Result ErrorKind ℕ → ObservedIo → ObservedIo
write contended began now result io = record io {
  observations =
      end_pending outward
        (observe_write contended now result (start outward began io.observations));
}

unfoldable pub observe_flush : Bool → ℕ → Result ErrorKind (Unit {0}) → Observations → Observations
observe_flush contended now (err kind) o = failed outward contended now kind o
observe_flush contended now (ok u) o = o

unfoldable pub flush : Bool → ℕ → ℕ → Result ErrorKind (Unit {0}) → ObservedIo → ObservedIo
flush contended began now result io = record io {
  observations =
      end_pending outward
        (observe_flush contended now result (start outward began io.observations));
}
