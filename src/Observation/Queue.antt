-- ===== src/Observation/Queue.antt =====
-- The event queue of src/observation.rs: its bound, its order, and what it loses.
use kunobi_daemon.Common.{
  ℕ, ◌+◌, ◌≤◌, ◌<◌, ◌≡◌, refl, sym, ap, Bool, ◌&&◌, not, List, [], ◌∷◌, ◌++◌, ltb, ◌==◌, if_either,
  length, length-append, arith,
}
use mathlib.Core.Path.{subst}
use mathlib.Core.List.{append_assoc, append-nil}
use kunobi_daemon.Common.Words.{u64_max}
use kunobi_daemon.Observation.{
  Event, TimedEvent, Observations, add_wrapping, new, record_event, take_events,
}

-- Producers record, and consumers take what is queued.
pub data Op : Type 0 where
  records : (contended : Bool) → (now : ℕ) → Event → Op
  takes : Op

-- With all the events that consumers have got, in order.
pub record Queued : Type 0 where
  pub observations : Observations
  pub taken : List TimedEvent

abbrev pub step : Op → Queued → Queued
step (records contended now event) q = record q {
  observations = record_event contended now event q.observations;
}
step takes q = record {
  observations = (take_events q.observations).0;
  taken = q.taken ++ (take_events q.observations).1;
}

abbrev pub run : List Op → Queued → Queued
run [] q = q
run (op ∷ ops) q = run ops (step op q)

-- All that was to be recorded.
abbrev pub offered : List Op → List TimedEvent
offered [] = []
offered (records contended now event ∷ ops) = record { elapsed = now; event = event } ∷ offered ops
offered (takes ∷ ops) = offered ops

-- The first list is the second one with some of its elements left out.
pub data IsPart : List TimedEvent → List TimedEvent → Type 0 where
  nothing : IsPart [] []
  kept : {e : TimedEvent} {es fs : List TimedEvent} → IsPart es fs → IsPart (e ∷ es) (e ∷ fs)
  lost : {e : TimedEvent} {es fs : List TimedEvent} → IsPart es fs → IsPart es (e ∷ fs)

IsPart-kept :
    {es fs : List TimedEvent} (e : TimedEvent) → IsPart es fs → IsPart (es ++ e ∷ []) (fs ++ e ∷ [])
IsPart-kept e nothing = kept nothing
IsPart-kept e (kept p) = kept (IsPart-kept e p)
IsPart-kept e (lost p) = lost (IsPart-kept e p)

IsPart-lost : {es fs : List TimedEvent} (e : TimedEvent) → IsPart es fs → IsPart es (fs ++ e ∷ [])
IsPart-lost e nothing = lost nothing
IsPart-lost e (kept p) = kept (IsPart-lost e p)
IsPart-lost e (lost p) = lost (IsPart-lost e p)

-- What consumers have, and what waits for them.
abbrev pub held : Queued → List TimedEvent
held q = q.taken ++ q.observations.events

-- The queue after some events were offered.
pub record Accounts (capacity : ℕ) (so_far : List TimedEvent) (q : Queued) : Type 0 where
  pub bound : q.observations.event_capacity ≡ capacity
  pub room : length q.observations.events ≤ capacity
  pub part : IsPart (held q) so_far
  pub whole : length (held q) + q.observations.lost_events ≡ length so_far

abbrev event_at : ℕ → Event → TimedEvent
event_at now event = record { elapsed = now; event = event }

queued-Accounts :
    (capacity now : ℕ) (event : Event) (so_far : List TimedEvent) (q : Queued)
    → length q.observations.events < capacity
    → Accounts capacity so_far q
    → Accounts capacity (so_far ++ event_at now event ∷ []) (record q {
      observations = record q.observations {
        events = q.observations.events ++ event_at now event ∷ [];
      };
    })
queued-Accounts capacity now event so_far q r h = record {
  bound = h.bound;
  room = omega (arith, length-append q.observations.events (event_at now event ∷ []), r);
  part =
      subst (λ es. IsPart es (so_far ++ event_at now event ∷ []))
        (append_assoc q.taken q.observations.events (event_at now event ∷ []))
        (IsPart-kept (event_at now event) h.part);
  whole = omega (
    arith,
    h.whole,
    ap length (append_assoc q.taken q.observations.events (event_at now event ∷ [])),
    length-append (held q) (event_at now event ∷ []),
    length-append so_far (event_at now event ∷ []),
  );
}

lost-Accounts :
    (capacity now : ℕ) (event : Event) (so_far : List TimedEvent) (q : Queued)
    → length so_far < u64_max
    → Accounts capacity so_far q
    → Accounts capacity (so_far ++ event_at now event ∷ []) (record q {
      observations = record q.observations {
        lost_events = add_wrapping q.observations.lost_events 1;
      };
    })
lost-Accounts capacity now event so_far q small h = record {
  bound = h.bound;
  room = h.room;
  part = IsPart-lost (event_at now event) h.part;
  whole = omega (arith, h.whole, small, length-append so_far (event_at now event ∷ []));
}

records-Accounts :
    (capacity : ℕ) (contended : Bool) (now : ℕ) (event : Event) (so_far : List TimedEvent)
    (q : Queued)
    → 0 < capacity
    → length so_far < u64_max
    → Accounts capacity so_far q
    → Accounts capacity (so_far ++ event_at now event ∷ []) (step (records contended now event) q)
unfolding record_event
records-Accounts capacity contended now event so_far q some_room small h =
    if_either
      (λ (o : Observations).
        Accounts capacity (so_far ++ event_at now event ∷ []) (record q { observations = o }))
      (q.observations.event_capacity == 0)
      (λ none. absurd (ground (arith, none, h.bound, some_room)))
      (λ e.
        if_either
          (λ (o : Observations).
            Accounts capacity (so_far ++ event_at now event ∷ []) (record q { observations = o }))
          (not contended && ltb (length q.observations.events) q.observations.event_capacity)
          (λ r. queued-Accounts capacity now event so_far q (ground (arith, r, h.bound)) h)
          (λ r. lost-Accounts capacity now event so_far q small h))

takes-Accounts :
    (capacity : ℕ) (so_far : List TimedEvent) (q : Queued)
    → Accounts capacity so_far q
    → Accounts capacity so_far (step takes q)
unfolding take_events
takes-Accounts capacity so_far q h = record {
  bound = h.bound;
  room = omega arith;
  part = subst (λ es. IsPart es so_far) (sym (append-nil (held q))) h.part;
  whole = omega (arith, h.whole, ap length (append-nil (held q)));
}

run-Accounts :
    (capacity : ℕ) (ops : List Op) (so_far : List TimedEvent) (q : Queued)
    → 0 < capacity
    → length so_far + length (offered ops) ≤ u64_max
    → Accounts capacity so_far q
    → Accounts capacity (so_far ++ offered ops) (run ops q)
run-Accounts capacity [] so_far q r s h =
    subst (λ es. Accounts capacity es q) (sym (append-nil so_far)) h
run-Accounts capacity (records contended now event ∷ ops) so_far q r s h =
    subst (λ es. Accounts capacity es (run ops (step (records contended now event) q)))
      (append_assoc so_far (event_at now event ∷ []) (offered ops))
      (run-Accounts capacity ops (so_far ++ event_at now event ∷ [])
        (step (records contended now event) q) r
        (omega (arith, s, length-append so_far (event_at now event ∷ [])))
        (records-Accounts capacity contended now event so_far q r (omega (arith, s)) h))
run-Accounts capacity (takes ∷ ops) so_far q r s h =
    run-Accounts capacity ops so_far (step takes q) r s (takes-Accounts capacity so_far q h)

abbrev pub opened : ℕ → Queued
opened capacity = record { observations = new capacity; taken = [] }

-- A queue with room for some event never holds more than its capacity; and whatever producers record
-- and consumers take, in any order and with any contention, up to 2^64 - 1 events: what consumers
-- have got and what is queued are, in order, events that were recorded, and all the others are
-- counted as lost.
pub opened-Accounts :
    (capacity : ℕ) (ops : List Op)
    → 0 < capacity
    → length (offered ops) ≤ u64_max
    → Accounts capacity (offered ops) (run ops (opened capacity))
opened-Accounts capacity ops r s =
    run-Accounts capacity ops [] (opened capacity) r (omega (arith, s))
      (record { bound = refl; room = omega arith; part = nothing; whole = refl })
