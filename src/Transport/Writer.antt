-- ===== src/Transport/Writer.antt =====
-- `WriterSlot` of src/transport.rs: the peer's writer, which the coordinator replaces under the
-- thread that writes the client's requests. The locks are steps on the state; the calls that block
-- are parked, and go on when they are woken.
pub mod Boundary
use kunobi_daemon.Common.{
  ◌||◌, ℕ, ◌+◌, ◌%◌, ◌^◌, Bool, true, false, ◌&&◌, not, Option, none, some, List, [], ◌∷◌, ltb,
  ◌==◌, if◌then◌else◌, length,
}
use kunobi_daemon.Transport.{WriteHalf}

pub record Slot (W : Type 0) : Type 0 where
  pub generation : ℕ
  pub writer : W
  pub paused : Bool
  pub at_boundary : Bool
  pub written : ℕ
  pub failed : Bool
  pub ended : Bool
  pub closed : Bool

-- Where a call of `write_observed` stands: it waits for `resume`, or for a writer after the given
-- generation; or it has returned, before its window was observed or after.
pub data Call : Type 0 where
  parked : Call
  stuck : ℕ → Call
  unsent : Call
  returned : Call

-- `bytes.last().is_none_or(|byte| *byte == b'\n')`
unfoldable pub ends_line : List ℕ → Bool
ends_line [] = true
ends_line (b ∷ []) = b == b'\n'
ends_line (b ∷ c ∷ bs) = ends_line (c ∷ bs)

abbrev pub new : {W : Type 0} → W → Slot W
new writer = record {
  generation = 0;
  writer = writer;
  paused = false;
  at_boundary = true;
  written = 0;
  failed = false;
  ended = false;
  closed = false;
}

unfoldable pub resume : {W : Type 0} → Slot W → Slot W
resume s = record s { paused = false }

-- `locked`: another thread holds the mutex.
unfoldable pub try_pause : {W : Type 0} → Bool → Slot W → Slot W × Option ℕ
try_pause locked s =
    if locked || (s.paused || (s.failed || (s.ended || (s.closed || not s.at_boundary))))
    then (s, none)
    else (record s { paused = true }, some s.written)

module _ {W : Type 0} ⦃io : WriteHalf W⦄ where
  -- With the writer that it shut down, which is the new one if the slot is closed.
  unfoldable pub replace_paused : W → ℕ → Slot W → Slot W × W
  replace_paused writer written s = if s.closed then (s, (io.shutdown_write writer).0) else (
    record s {
      generation = (s.generation + 1) % 2 ^ 64;
      writer = if s.ended then (io.shutdown_write writer).0 else writer;
      paused = true;
      at_boundary = true;
      written = written;
      failed = false;
    },
    (io.shutdown_write s.writer).0,
  )

  unfoldable pub replace_with_offset : W → ℕ → Slot W → Slot W × W
  replace_with_offset writer written s =
      let (replaced, old) = replace_paused writer written s in (resume replaced, old)

  unfoldable pub replace : W → Slot W → Slot W × W
  replace writer s = replace_with_offset writer 0 s

  unfoldable pub shutdown : Slot W → Slot W × Bool
  shutdown s =
      let (writer, told) = io.shutdown_write s.writer in
      (record s { ended = true; writer = writer }, told)

  unfoldable pub close : Slot W → Slot W × Bool
  close s =
      let (writer, told) = io.shutdown_write s.writer in
      (record s { closed = true; writer = writer }, told)

  -- `write_all(..).and_then(|()| flush())`
  unfoldable pub write_flush : W → List ℕ → W × Bool
  write_flush writer bytes =
      let (sent, whole) = io.write_all writer bytes in
      if whole then io.flush sent else (sent, false)

  -- `checked_add` on a u64.
  unfoldable pub count_window : List ℕ → Slot W → Slot W
  count_window bytes s =
      let counted : Slot W =
        if ltb (s.written + length bytes) (2 ^ 64)
        then record s { written = s.written + length bytes }
        else record s { failed = true } in
      record counted { at_boundary = ends_line bytes }

  unfoldable pub write_window : List ℕ → Slot W → Slot W × Call
  write_window bytes s =
      let (writer, ok) = write_flush s.writer bytes in
      if ok
      then (count_window bytes (record s { writer = writer }), returned)
      else (record s { failed = true; writer = (io.shutdown_write writer).0 }, stuck s.generation)

  -- `write_observed`, to its return or to where it blocks.
  unfoldable pub write_observed : List ℕ → Slot W → Slot W × Call
  write_observed bytes s =
      if s.paused && not s.closed
      then (s, parked)
      else if s.closed
      then (s, unsent)
      else write_window bytes s

  -- A blocked call has the mutex again.
  unfoldable pub resume_call : List ℕ → Call → Slot W → Slot W × Call
  resume_call bytes parked s = write_observed bytes s
  resume_call bytes (stuck generation) s =
      if s.generation == generation && not s.closed then (s, stuck generation) else (s, returned)
  resume_call bytes unsent s = (s, unsent)
  resume_call bytes returned s = (s, returned)
