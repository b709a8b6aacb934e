-- ===== src/Observation/Adapter.antt =====
-- The counters that the adapter of src/observation.rs keeps.
use kunobi_daemon.Common.{
  ℕ, ◌+◌, ◌%◌, ◌≡◌, refl, Bool, true, ◌&&◌, not, List, [], ◌∷◌, Result, ok, err, ◌==◌, if_either,
  length, arith, ltb,
}
use mathlib.Core.Path.{subst}
use kunobi_daemon.Common.Words.{u64_max}
use kunobi_daemon.Observation
use kunobi_daemon.Observation.{
  Direction, end_pending, ErrorKind, is_transient, io_failed, connected, Event, failed, flush,
  inward, new, Observations, ObservedIo, observe_flush, observe_read, observe_write, outward,
  Progress, record_event, start, transferred, wrap, write,
}

-- The calls of one owner, each with its times and what the transport gives.
pub data Call : Type 0 where
  reads : (contended : Bool) → (size began now : ℕ) → Result ErrorKind ℕ → Call
  writes : (contended : Bool) → (began now : ℕ) → Result ErrorKind ℕ → Call
  flushes : (contended : Bool) → (began now : ℕ) → Result ErrorKind (Unit {0}) → Call

abbrev pub call : Call → ObservedIo → ObservedIo
call (reads contended size began now result) io =
    Observation.read contended size began now result io
call (writes contended began now result) io = write contended began now result io
call (flushes contended began now result) io = flush contended began now result io

abbrev pub calls : List Call → ObservedIo → ObservedIo
calls [] io = io
calls (c ∷ cs) io = calls cs (call c io)

abbrev pub moved : Result ErrorKind ℕ → ℕ
moved (ok n) = n
moved (err kind) = 0

-- What the transport has read and written.
abbrev pub total_read : List Call → ℕ
total_read [] = 0
total_read (reads contended size began now result ∷ cs) = moved result + total_read cs
total_read (_ ∷ cs) = total_read cs

abbrev pub total_written : List Call → ℕ
total_written [] = 0
total_written (writes contended began now result ∷ cs) = moved result + total_written cs
total_written (_ ∷ cs) = total_written cs

-- The calls in progress and the bytes so far, in each direction.
pub record Balanced (reading writing was_read was_written : ℕ) (o : Observations) : Type 0 where
  pub read_pending : o.read.pending ≡ reading
  pub write_pending : o.write.pending ≡ writing
  pub bytes_read : o.read.bytes ≡ was_read % (u64_max + 1)
  pub bytes_written : o.write.bytes ≡ was_written % (u64_max + 1)

record_event-Balanced :
    (a b r w : ℕ) (contended : Bool) (now : ℕ) (event : Event) (o : Observations)
    → Balanced a b r w o
    → Balanced a b r w (record_event contended now event o)
unfolding record_event
record_event-Balanced a b r w contended now event o h =
    if_either (Balanced a b r w) (o.event_capacity == 0) (λ e. h)
      (λ e.
        if_either (Balanced a b r w) (not contended && ltb (length o.events) o.event_capacity)
          (λ room. record {
            read_pending = h.read_pending;
            write_pending = h.write_pending;
            bytes_read = h.bytes_read;
            bytes_written = h.bytes_written;
          })
          (λ full. record {
            read_pending = h.read_pending;
            write_pending = h.write_pending;
            bytes_read = h.bytes_read;
            bytes_written = h.bytes_written;
          }))

-- The other direction of a call is left alone.
abbrev Busy : Direction → ℕ → ℕ → ℕ → Observations → Type 0
Busy inward pending r w o = Balanced pending 0 r w o
Busy outward pending r w o = Balanced 0 pending r w o

start-Balanced :
    (d : Direction) (now r w : ℕ) (o : Observations) → Busy d 0 r w o → Busy d 1 r w (start d now o)
unfolding start
start-Balanced inward now r w o h = record {
  read_pending = omega (arith, h.read_pending);
  write_pending = h.write_pending;
  bytes_read = h.bytes_read;
  bytes_written = h.bytes_written;
}
start-Balanced outward now r w o h = record {
  read_pending = h.read_pending;
  write_pending = omega (arith, h.write_pending);
  bytes_read = h.bytes_read;
  bytes_written = h.bytes_written;
}

end-Balanced :
    (d : Direction) (r w : ℕ) (o : Observations) → Busy d 1 r w o → Busy d 0 r w (end_pending d o)
unfolding end_pending
end-Balanced inward r w o h = record {
  read_pending = omega (arith, h.read_pending);
  write_pending = h.write_pending;
  bytes_read = h.bytes_read;
  bytes_written = h.bytes_written;
}
end-Balanced outward r w o h = record {
  read_pending = h.read_pending;
  write_pending = omega (arith, h.write_pending);
  bytes_read = h.bytes_read;
  bytes_written = h.bytes_written;
}

failed-Balanced :
    (d : Direction) (contended : Bool) (now r w : ℕ) (kind : ErrorKind) (o : Observations)
    → Busy d 1 r w o
    → Busy d 1 r w (failed d contended now kind o)
unfolding failed
failed-Balanced inward contended now r w kind o h =
    if_either (Balanced 1 0 r w) (is_transient kind) (λ e. h)
      (λ e. record_event-Balanced 1 0 r w contended now (io_failed inward kind) _ (record {
        read_pending = h.read_pending;
        write_pending = h.write_pending;
        bytes_read = h.bytes_read;
        bytes_written = h.bytes_written;
      }))
failed-Balanced outward contended now r w kind o h =
    if_either (Balanced 0 1 r w) (is_transient kind) (λ e. h)
      (λ e. record_event-Balanced 0 1 r w contended now (io_failed outward kind) _ (record {
        read_pending = h.read_pending;
        write_pending = h.write_pending;
        bytes_read = h.bytes_read;
        bytes_written = h.bytes_written;
      }))

added : (n b r : ℕ) → b ≡ r % (u64_max + 1) → (b + n) % (u64_max + 1) ≡ (r + n) % (u64_max + 1)
added n b r h = omega (arith, h)

abbrev BusyAfter : Direction → ℕ → ℕ → ℕ → Observations → Type 0
BusyAfter inward n r w o = Busy inward 1 (r + n) w o
BusyAfter outward n r w o = Busy outward 1 r (w + n) o

none_added : (n r : ℕ) → (n == 0) ≡ true → r ≡ r + n
none_added n r e = ground arith

transferred-Balanced :
    (d : Direction) (now n r w : ℕ) (o : Observations)
    → Busy d 1 r w o
    → BusyAfter d n r w (transferred d now n o)
unfolding transferred
transferred-Balanced inward now n r w o h =
    if_either (Balanced 1 0 (r + n) w) (n == 0)
      (λ e. subst (λ k. Balanced 1 0 k w o) (none_added n r e) h)
      (λ e. record {
        read_pending = h.read_pending;
        write_pending = h.write_pending;
        bytes_read = added n o.read.bytes r h.bytes_read;
        bytes_written = h.bytes_written;
      })
transferred-Balanced outward now n r w o h =
    if_either (Balanced 0 1 r (w + n)) (n == 0)
      (λ e. subst (λ k. Balanced 0 1 r k o) (none_added n w e) h)
      (λ e. record {
        read_pending = h.read_pending;
        write_pending = h.write_pending;
        bytes_read = h.bytes_read;
        bytes_written = added n o.write.bytes w h.bytes_written;
      })

plus_none : (r : ℕ) → r ≡ r + 0
plus_none r = omega arith

zero_read : (n r : ℕ) (more : Bool) → (n == 0 && more) ≡ true → r ≡ r + n
zero_read n r more e = ground arith

observe_read-Balanced :
    (r w : ℕ) (contended : Bool) (size now : ℕ) (result : Result ErrorKind ℕ) (io : ObservedIo)
    → Busy inward 1 r w io.observations
    → Busy inward 1 (r + moved result) w (observe_read contended size now result io).observations
unfolding observe_read
observe_read-Balanced r w contended size now (ok n) io h =
    if_either (λ (i : ObservedIo). Balanced 1 0 (r + n) w i.observations)
      (n == 0 && (not (size == 0) && not io.read_closed))
      (λ e.
        subst
          (λ k.
            Balanced 1 0 k w (record_event contended now Observation.read_closed io.observations))
          (zero_read n r _ e)
          (record_event-Balanced 1 0 r w contended now Observation.read_closed io.observations h))
      (λ e. transferred-Balanced inward now n r w io.observations h)
observe_read-Balanced r w contended size now (err kind) io h =
    subst (λ k. Balanced 1 0 k w (failed inward contended now kind io.observations)) (plus_none r)
      (failed-Balanced inward contended now r w kind io.observations h)

observe_write-Balanced :
    (r w : ℕ) (contended : Bool) (now : ℕ) (result : Result ErrorKind ℕ) (o : Observations)
    → Busy outward 1 r w o
    → Busy outward 1 r (w + moved result) (observe_write contended now result o)
unfolding observe_write
observe_write-Balanced r w contended now (ok n) o h = transferred-Balanced outward now n r w o h
observe_write-Balanced r w contended now (err kind) o h =
    subst (λ k. Balanced 0 1 r k (failed outward contended now kind o)) (plus_none w)
      (failed-Balanced outward contended now r w kind o h)

observe_flush-Balanced :
    (r w : ℕ) (contended : Bool) (now : ℕ) (result : Result ErrorKind (Unit {0})) (o : Observations)
    → Busy outward 1 r w o
    → Busy outward 1 r w (observe_flush contended now result o)
unfolding observe_flush
observe_flush-Balanced r w contended now (ok u) o h = h
observe_flush-Balanced r w contended now (err kind) o h =
    failed-Balanced outward contended now r w kind o h

-- What one call moves.
abbrev read_by : Call → ℕ
read_by (reads contended size began now result) = moved result
read_by (writes contended began now result) = 0
read_by (flushes contended began now result) = 0

abbrev written_by : Call → ℕ
written_by (reads contended size began now result) = 0
written_by (writes contended began now result) = moved result
written_by (flushes contended began now result) = 0

none_written : (r w : ℕ) (o : Observations) → Balanced 0 0 r w o → Balanced 0 0 r (w + 0) o
none_written r w o h = subst (λ k. Balanced 0 0 r k o) (plus_none w) h

none_read : (r w : ℕ) (o : Observations) → Balanced 0 0 r w o → Balanced 0 0 (r + 0) w o
none_read r w o h = subst (λ k. Balanced 0 0 k w o) (plus_none r) h

call-Balanced :
    (c : Call) (r w : ℕ) (io : ObservedIo)
    → Balanced 0 0 r w io.observations
    → Balanced 0 0 (r + read_by c) (w + written_by c) (call c io).observations
unfolding Observation.read write flush
call-Balanced (reads contended size began now result) r w io h =
    let seen : ObservedIo =
      observe_read contended size now result
        (record io { observations = start inward began io.observations }) in
    none_written (r + moved result) w (end_pending inward seen.observations) (
      end-Balanced inward (r + moved result) w seen.observations (
        observe_read-Balanced r w contended size now result
          (record io { observations = start inward began io.observations })
          (start-Balanced inward began r w io.observations h)))
call-Balanced (writes contended began now result) r w io h =
    let seen : Observations =
      observe_write contended now result (start outward began io.observations) in
    none_read r (w + moved result) (end_pending outward seen) (
      end-Balanced outward r (w + moved result) seen (
        observe_write-Balanced r w contended now result (start outward began io.observations)
          (start-Balanced outward began r w io.observations h)))
call-Balanced (flushes contended began now result) r w io h =
    let seen : Observations =
      observe_flush contended now result (start outward began io.observations) in
    none_read r (w + 0) (end_pending outward seen) (
      none_written r w (end_pending outward seen) (
        end-Balanced outward r w seen (
          observe_flush-Balanced r w contended now result (start outward began io.observations)
            (start-Balanced outward began r w io.observations h))))

calls-Balanced :
    (cs : List Call) (r w : ℕ) (io : ObservedIo)
    → Balanced 0 0 r w io.observations
    → Balanced 0 0 (r + total_read cs) (w + total_written cs) (calls cs io).observations
calls-Balanced [] r w io h =
    none_written (r + 0) w io.observations (none_read r w io.observations h)
calls-Balanced (c ∷ cs) r w io h =
    let (more_read, more_written) = totals c cs r w in
    subst (λ k. Balanced 0 0 (r + total_read (c ∷ cs)) k (calls cs (call c io)).observations)
      more_written
      (subst
        (λ k.
          Balanced 0 0 k (w + written_by c + total_written cs) (calls cs (call c io)).observations)
        more_read
        (calls-Balanced cs (r + read_by c) (w + written_by c) (call c io)
          (call-Balanced c r w io h)))
  where
    totals :
        (c : Call) (cs : List Call) (r w : ℕ)
        → (r + read_by c + total_read cs ≡ r + total_read (c ∷ cs))
          × (w + written_by c + total_written cs ≡ w + total_written (c ∷ cs))
    totals (reads contended size began now result) cs r w = (omega arith, omega arith)
    totals (writes contended began now result) cs r w = (omega arith, omega arith)
    totals (flushes contended began now result) cs r w = (omega arith, omega arith)

-- Whatever calls the owner of an adapter makes, and whatever the transport answers: between calls no
-- direction is busy, and the counters are what the transport has read and written since, modulo
-- 2^64.
pub wrap-Balanced :
    (capacity at : ℕ) (contended : Bool) (cs : List Call)
    → Balanced 0 0
        (total_read cs)
        (total_written cs)
        (calls cs (wrap contended at (new capacity))).observations
unfolding wrap
wrap-Balanced capacity at contended cs =
    let opened = wrap contended at (new capacity) in
    subst (λ k. Balanced 0 0 (total_read cs) k (calls cs opened).observations) (omega arith)
      (subst (λ k. Balanced 0 0 k (0 + total_written cs) (calls cs opened).observations)
        (omega arith)
        (calls-Balanced cs 0 0 opened (
          record_event-Balanced 0 0 0 0 contended at connected _ (record {
            read_pending = refl;
            write_pending = refl;
            bytes_read = omega arith;
            bytes_written = omega arith;
          }))))
