-- ===== src/Control.antt =====
-- src/control.rs and src/control/watch.rs: the state that a daemon announces to its watchers, how
-- an event is built from it, and what a watching client accepts. A text is the list of its bytes.
pub mod Watching
pub mod Announced
pub mod Sampled
pub mod Replies
pub mod Accepted
mod Examples
use kunobi_daemon.Common.{
  ◌||◌, same_bytes, ◌&&◌, ℕ, Bool, true, false, not, Option, none, some, List, [], ◌∷◌, Result, ok,
  err, ltb, ◌==◌, if◌then◌else◌,
}
use kunobi_daemon.Common.Words.{u64_max}
use kunobi_daemon.Lifecycle
use kunobi_daemon.Lifecycle.{Lifecycle, start_drain}

pub record Published : Type 0 where
  pub selected : Option ℕ
  pub selected_build : List ℕ
  pub retiring : Bool

-- The watch channel `events` is the state that is published.
pub record ControlService : Type 0 where
  pub lifecycle : Lifecycle
  pub ready : Bool
  pub events : Published
  pub process_id : ℕ
  pub generation : ℕ
  pub build : List ℕ
  pub revision : ℕ

pub data ControlError : Type 0 where
  wrong_build not_monotone unexpected_response undecodable invalid_state : ControlError
  not_a_snapshot watch_failed inconsistent_event : ControlError

unfoldable pub new : Lifecycle → ℕ → List ℕ → ℕ → ℕ → ControlService
new lifecycle generation build revision process_id = record {
  lifecycle = lifecycle;
  ready = false;
  events = record { selected = none; selected_build = []; retiring = false };
  process_id = process_id;
  generation = generation;
  build = build;
  revision = revision;
}

unfoldable pub mark_ready : ControlService → ControlService
mark_ready s = record s { ready = true }

-- `generation < previous` for the selection that was announced, if there was one.
abbrev pub goes_back : ℕ → Option ℕ → Bool
goes_back generation none = false
goes_back generation (some previous) = ltb generation previous

-- `==` on `Option<u64>`.
abbrev pub same_option : Option ℕ → Option ℕ → Bool
same_option none none = true
same_option (some a) (some b) = a == b
same_option _ _ = false

-- `<` on `Option<u64>`.
abbrev pub less_option : Option ℕ → Option ℕ → Bool
less_option none (some b) = true
less_option (some a) (some b) = ltb a b
less_option _ none = false

-- The closure of `send_if_modified` in `selection_committed`.
unfoldable pub publish_selection :
    Published → ℕ → List ℕ → Published × Result ControlError (Unit {0})
publish_selection p generation build =
    if goes_back generation p.selected
      || (same_option (some generation) p.selected && not (same_bytes build p.selected_build))
    then (p, err not_monotone)
    else if same_option (some generation) p.selected
    then (p, ok tt)
    else (record p { selected = some generation; selected_build = build }, ok tt)

unfoldable pub selection_committed :
    ControlService → ℕ → List ℕ → ControlService × Result ControlError (Unit {0})
selection_committed s generation build =
    if generation == s.generation && not (same_bytes build s.build)
    then (s, err wrong_build)
    else (let (p, r) = publish_selection s.events generation build in (record s { events = p }, r))

-- A drain that is started between the two halves is the same as one before both.
unfoldable pub mark_retiring : ControlService → ℕ → ControlService
mark_retiring s now = record s {
  lifecycle = (start_drain s.lifecycle now).0;
  events = record (s.events) { retiring = true };
}

pub data LifecycleChange : Type 0 where
  snapshot ready draining selection_changed retiring : LifecycleChange

pub record LifecycleEvent : Type 0 where
  pub change : Option LifecycleChange
  pub sequence : ℕ
  pub process_id : ℕ
  pub generation : ℕ
  pub build : List ℕ
  pub ready : Bool
  pub draining : Bool
  pub selected : Option ℕ
  pub selected_build : List ℕ
  pub retiring : Bool

-- The event of a round, from what was published, whether it drains, and the service when its
-- readiness is read.
unfoldable pub sample : Published → Bool → ControlService → LifecycleEvent
sample p is_draining s = record {
  change = some snapshot;
  sequence = 0;
  process_id = s.process_id;
  generation = s.generation;
  build = s.build;
  ready = s.ready && not is_draining;
  draining = is_draining;
  selected = p.selected;
  selected_build = p.selected_build;
  retiring = p.retiring;
}

abbrev same_bool : Bool → Bool → Bool
same_bool true b = b
same_bool false b = not b

abbrev keep : Bool → LifecycleChange → List LifecycleChange → List LifecycleChange
keep changed kind kinds = if changed then kind ∷ kinds else kinds

-- The kinds of change from the old event to the new one.
unfoldable pub kinds : LifecycleEvent → LifecycleEvent → List LifecycleChange
kinds old event =
    keep (not (same_bool event.ready old.ready) && event.ready) LifecycleChange.ready (
      keep (not (same_bool event.draining old.draining)) LifecycleChange.draining (
        keep (not (same_option event.selected old.selected)) selection_changed
          (keep (not (same_bool event.retiring old.retiring)) LifecycleChange.retiring [])))

abbrev pub change_of : List LifecycleChange → Option LifecycleChange
change_of [] = none
change_of (kind ∷ []) = some kind
change_of (_ ∷ _ ∷ _) = some snapshot

-- `none`: the round sends nothing and waits for the next change.
abbrev pub change_since : Option LifecycleEvent → LifecycleEvent → Option LifecycleChange
change_since none event = some snapshot
change_since (some old) event = change_of (kinds old event)
