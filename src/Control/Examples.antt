-- ===== src/Control/Examples.antt =====
-- A subscription of src/control/watch.rs, and the theorems at concrete inputs.
use kunobi_daemon.Common.{
  ℕ, ◌≡◌, refl, true, false, Option, none, some, List, [], ◌∷◌, ok, map, arith, ◌==◌, if◌then◌else◌,
}
use kunobi_daemon.Lifecycle
use kunobi_daemon.Lifecycle.{Lifecycle, start_drain}
use kunobi_daemon.Wire.Framing.{Codec}
use kunobi_daemon.Control.{
  ControlService, new, mark_ready, publish_selection, selection_committed, mark_retiring, snapshot,
  ready, draining, retiring, selection_changed, LifecycleEvent, sample, kinds,
}
use kunobi_daemon.Control.Watching.{
  Call, becomes_ready, commits, retires, step, run, Round, serve_watch, reply,
}
use kunobi_daemon.Control.Replies.{AllTravel}
use kunobi_daemon.Control.Accepted.{subscribe, last_seen, watch_accepted}

abbrev service : ControlService
service = new Lifecycle.new 3 (b'c' ∷ []) 1 77

-- The incumbent was announced before.
abbrev earlier : List Call
earlier = commits 2 (b'b' ∷ []) ∷ []

-- It becomes ready; nothing happens; it is selected; and it retires between two reads.
abbrev rounds : List Round
rounds =
    record { before_events = []; before_drain = []; before_ready = [] }
    ∷ record { before_events = becomes_ready ∷ []; before_drain = []; before_ready = [] }
    ∷ record { before_events = []; before_drain = []; before_ready = [] }
    ∷ record { before_events = commits 3 (b'c' ∷ []) ∷ []; before_drain = []; before_ready = [] }
    ∷ record { before_events = []; before_drain = retires 9 ∷ []; before_ready = [] }
    ∷ record { before_events = []; before_drain = []; before_ready = [] }
    ∷ []

abbrev first : LifecycleEvent
first = record {
  change = some snapshot;
  sequence = 1;
  process_id = 77;
  generation = 3;
  build = b'c' ∷ [];
  ready = false;
  draining = false;
  selected = some 2;
  selected_build = b'b' ∷ [];
  retiring = false;
}

abbrev second : LifecycleEvent
second = record first { change = some ready; sequence = 2; ready = true }

abbrev third : LifecycleEvent
third = record second {
  change = some selection_changed;
  sequence = 3;
  selected = some 3;
  selected_build = b'c' ∷ [];
}

-- The drain is seen before the retirement.
abbrev fourth : LifecycleEvent
fourth = record third { change = some draining; sequence = 4; ready = false; draining = true }

abbrev fifth : LifecycleEvent
fifth = record fourth { change = some retiring; sequence = 5; retiring = true }

abbrev events : List LifecycleEvent
events = first ∷ second ∷ third ∷ fourth ∷ fifth ∷ []

rounds-events : serve_watch (run service earlier) none 0 rounds ≡ events
unfolding serve_watch run step new mark_ready selection_committed publish_selection mark_retiring
    sample kinds start_drain Lifecycle.new
rounds-events = refl

abbrev numbered : ℕ → Option LifecycleEvent
numbered n =
    if n == 1
    then some first
    else if n == 2
    then some second
    else if n == 3
    then some third
    else if n == 4
    then some fourth
    else some fifth

abbrev numbers : Codec LifecycleEvent
numbers = record {
  encode = λ e. e.sequence ∷ [];
  decode = λ bytes limit. elim bytes [ [] ↦ none | n ∷ _ ↦ numbered n ];
}

events_travel : AllTravel numbers (serve_watch (run service earlier) none 0 rounds)
unfolding serve_watch run step new mark_ready selection_committed publish_selection mark_retiring
    sample kinds start_drain Lifecycle.new
events_travel = (refl, (refl, (refl, (refl, (refl, tt)))))

watch_accepted_example :
    subscribe numbers 5 (map (reply numbers 5) (serve_watch (run service earlier) none 0 rounds))
    ≡ (last_seen 5 (serve_watch (run service earlier) none 0 rounds), ok tt)
watch_accepted_example =
    watch_accepted numbers 5 Lifecycle.new 3 (b'c' ∷ []) 1 77 earlier rounds (λ e. omega (arith, e))
      events_travel
