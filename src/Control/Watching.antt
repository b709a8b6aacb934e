-- ===== src/Control/Watching.antt =====
-- The two sides of a WATCH subscription in src/control/watch.rs: the rounds of the server and the
-- checks of the client.
use kunobi_daemon.Common.{
  ◌||◌, same_bytes, is_none, ◌&&◌, ℕ, ◌+◌, Bool, true, false, not, Option, none, some, List, [],
  ◌∷◌, Result, ok, err, ◌==◌, if◌then◌else◌, ◌>>=◌, ◌>>◌, guard,
}
use kunobi_daemon.Common.Words.{u64_max}
use kunobi_daemon.Lifecycle.{start_drain}
use kunobi_daemon.Wire.{Control, MessageKind, lifecycle, max_frame}
use kunobi_daemon.Identity.{is_empty}
use kunobi_daemon.Wire.Framing.{Codec}
use kunobi_daemon.Control.{
  ControlService, ControlError, unexpected_response, undecodable, invalid_state, not_a_snapshot,
  watch_failed, inconsistent_event, mark_ready, selection_committed, mark_retiring, same_option,
  less_option, LifecycleChange, snapshot, ready, draining, selection_changed, retiring,
  LifecycleEvent, sample, change_since,
}

-- What other tasks do to the service.
pub data Call : Type 0 where
  becomes_ready : Call
  commits : ℕ → List ℕ → Call
  drains retires : ℕ → Call

unfoldable pub step : ControlService → Call → ControlService
step s becomes_ready = mark_ready s
step s (commits generation build) = (selection_committed s generation build).0
step s (drains now) = record s { lifecycle = (start_drain s.lifecycle now).0 }
step s (retires now) = mark_retiring s now

unfoldable pub run : ControlService → List Call → ControlService
run s [] = s
run s (c ∷ cs) = run (step s c) cs

-- What happens before the three reads of a round: of the channel, of the gate, and of the
-- readiness.
pub record Round : Type 0 where
  pub before_events : List Call
  pub before_drain : List Call
  pub before_ready : List Call

-- The events that the loop of `serve_watch` sends. A sequence at its end closes the subscription.
unfoldable pub serve_watch :
    ControlService → Option LifecycleEvent → ℕ → List Round → List LifecycleEvent
serve_watch s previous sequence [] = []
serve_watch s previous sequence (r ∷ rounds) =
    let s1 : ControlService = run s r.before_events in
    let s2 : ControlService = run s1 r.before_drain in
    let s3 : ControlService = run s2 r.before_ready in
    let event : LifecycleEvent = sample s1.events s2.lifecycle.draining s3 in
    elim (change_since previous event) [
      | none ↦ serve_watch s3 previous sequence rounds
      | some kind ↦
          (let numbered : LifecycleEvent = record event {
            change = some kind;
            sequence = sequence + 1;
          } in
            elim (sequence == u64_max) [
              | true ↦ []
              | false ↦ numbered ∷ serve_watch s3 (some numbered) (sequence + 1) rounds
            ])
    ]

-- The frame that carries an event.
abbrev pub reply : Codec LifecycleEvent → ℕ → LifecycleEvent → Control
reply codec request_id event = record {
  operation = 8;
  request_id = request_id;
  generation = event.generation;
  token = [];
  offset = none;
  payload = codec.encode event;
  kind = some lifecycle;
}

abbrev is_lifecycle : Option MessageKind → Bool
is_lifecycle (some lifecycle) = true
is_lifecycle _ = false

abbrev is_change : LifecycleChange → LifecycleChange → Bool
is_change snapshot snapshot = true
is_change ready ready = true
is_change draining draining = true
is_change selection_changed selection_changed = true
is_change retiring retiring = true
is_change _ _ = false

abbrev says : LifecycleChange → Option LifecycleChange → Bool
says kind none = false
says kind (some other) = is_change kind other

-- The conditions of `decode_event` on the event.
unfoldable pub bad_state : LifecycleEvent → ℕ → Bool
bad_state event generation =
    is_none event.change
    || event.process_id == 0
    || not (event.generation == generation)
    || (is_none event.selected && not (is_empty event.selected_build))
    || (same_option event.selected (some event.generation)
        && not (same_bytes event.selected_build event.build))
    || (says selection_changed event.change && is_none event.selected)
    || (event.ready && event.draining)
    || (event.retiring && not event.draining)
    || (says ready event.change && not event.ready)
    || (says draining event.change && not event.draining)
    || (says retiring event.change && not event.retiring)

or_undecodable : {A : Type 0} → Option A → Result ControlError A
or_undecodable none = err undecodable
or_undecodable (some a) = ok a

unfoldable pub decode_event :
    Codec LifecycleEvent → Control → ℕ → Result ControlError LifecycleEvent
unfolding or_undecodable
decode_event codec message request_id = do
  guard
      (is_lifecycle message.kind
        && message.operation == 8
        && message.request_id == request_id
        && is_empty message.token
        && is_none message.offset)
      unexpected_response
  event ← or_undecodable (codec.decode message.payload max_frame)
  guard (not (bad_state event message.generation)) invalid_state
  ok event

pub record WatchClient : Type 0 where
  pub request_id : ℕ
  pub latest : LifecycleEvent
  pub failed : Bool

-- The end of `WatchClient::connect`, on the first frame.
unfoldable pub first_event : Codec LifecycleEvent → ℕ → Control → Result ControlError WatchClient
first_event codec request_id message = do
  latest ← decode_event codec message request_id
  guard (latest.sequence == 1 && says snapshot latest.change) not_a_snapshot
  ok (record { request_id = request_id; latest = latest; failed = false })

unfoldable pub inconsistent : LifecycleEvent → LifecycleEvent → Bool
inconsistent latest event =
    latest.sequence == u64_max
    || not (event.sequence == latest.sequence + 1)
    || not (event.process_id == latest.process_id)
    || not (event.generation == latest.generation)
    || not (same_bytes event.build latest.build)
    || less_option event.selected latest.selected
    || (same_option event.selected latest.selected
        && not (same_bytes event.selected_build latest.selected_build))
    || (latest.draining && not event.draining)
    || (latest.retiring && not event.retiring)

accepted :
    WatchClient → Result ControlError LifecycleEvent → WatchClient × Result ControlError (Unit {0})
accepted client (err e) = (record client { failed = true }, err e)
accepted client (ok event) =
    if inconsistent client.latest event
    then (record client { failed = true }, err inconsistent_event)
    else (record client { latest = event; failed = false }, ok tt)

-- `WatchClient::changed`, on the next frame.
unfoldable pub changed :
    Codec LifecycleEvent → WatchClient → Control → WatchClient × Result ControlError (Unit {0})
unfolding accepted
changed codec client message =
    if client.failed
    then (client, err watch_failed)
    else accepted client (decode_event codec message client.request_id)
