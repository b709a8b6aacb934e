-- ===== src/Control/Sampled.antt =====
-- The events that a round of src/control/watch.rs samples, against the state that is announced.
use kunobi_daemon.Common.{
  same_bytes, same_bytes_refl, is_none, ◌&&◌, ℕ, ◌+◌, ◌≡◌, ◌≢◌, refl, sym, ap, ◌∙◌, Bool, true,
  false, not, Option, none, some, List, [], ok, arith, Bool-cases, inl, inr,
}
use kunobi_daemon.Common.Words.{u64_max}
use kunobi_daemon.Wire.{max_frame}
use kunobi_daemon.Identity.{is_empty}
use kunobi_daemon.Wire.Framing.{Codec}
use kunobi_daemon.Control.{
  Published, ControlService, same_option, LifecycleChange, snapshot, ready, draining,
  selection_changed, retiring, LifecycleEvent, sample, kinds, change_of,
}
use kunobi_daemon.Control.Watching.{reply, bad_state, decode_event, inconsistent}
use kunobi_daemon.Control.Announced.{IsSane, Forward, Later, same_option_equal, Forward-trans}

abbrev pub published : LifecycleEvent → Published
published e = record {
  selected = e.selected;
  selected_build = e.selected_build;
  retiring = e.retiring;
}

-- An event of the same process that goes no step back.
pub record Succeeds (old e : LifecycleEvent) : Type 0 where
  pub same_process : e.process_id ≡ old.process_id
  pub same_generation : e.generation ≡ old.generation
  pub same_build : e.build ≡ old.build
  pub drained : old.draining ≡ true → e.draining ≡ true
  pub forward : Forward (published old) (published e)

-- An event that a service is not behind of.
pub record Covers (old : LifecycleEvent) (s : ControlService) : Type 0 where
  pub same_process : s.process_id ≡ old.process_id
  pub same_generation : s.generation ≡ old.generation
  pub same_build : s.build ≡ old.build
  pub drained : old.draining ≡ true → s.lifecycle.draining ≡ true
  pub forward : Forward (published old) s.events

-- What makes an event's state one that a client accepts.
pub record IsCoherent (e : LifecycleEvent) : Type 0 where
  pub process : e.process_id ≢ 0
  pub unselected : e.selected ≡ none → e.selected_build ≡ []
  pub own : e.selected ≡ some e.generation → e.selected_build ≡ e.build
  pub stops : e.draining ≡ true → e.ready ≡ false
  pub closed : e.retiring ≡ true → e.draining ≡ true

-- The kind of change that an event names has taken place.
abbrev pub suits : LifecycleChange → LifecycleEvent → Bool
suits snapshot e = true
suits ready e = e.ready
suits draining e = e.draining
suits selection_changed e = not (is_none e.selected)
suits retiring e = e.retiring

pub texts_agree :
    (x y : Option ℕ) (b c : List ℕ)
    → (x ≡ y → b ≡ c)
    → (same_option x y && not (same_bytes b c)) ≡ false
texts_agree x y b c h = elim (Bool-cases (same_option x y)) [
  | inl same ↦ rw (same, h (same_option_equal x y same), same_bytes_refl c) refl
  | inr other ↦ rw other refl
]

pub nothing_named :
    (x : Option ℕ) (b : List ℕ) → (x ≡ none → b ≡ []) → (is_none x && not (is_empty b)) ≡ false
nothing_named none b h = rw (h refl) refl
nothing_named (some n) b h = refl

pub change-suits :
    (old e : LifecycleEvent) (k : LifecycleChange)
    → Succeeds old e
    → change_of (kinds old e) ≡ some k
    → suits k e ≡ true
unfolding kinds
change-suits old e k h eq = ground (arith, h.forward.advances, h.forward.kept, h.drained)

pub coherent_state :
    (e : LifecycleEvent) (k : LifecycleChange)
    → IsCoherent e
    → e.change ≡ some k
    → suits k e ≡ true
    → bad_state e e.generation ≡ false
unfolding bad_state
coherent_state e k h c s = ground (
  arith,
  c,
  texts_agree e.selected (some e.generation) e.selected_build e.build h.own,
  nothing_named e.selected e.selected_build h.unselected,
)

pub Succeeds-consistent :
    (old e : LifecycleEvent)
    → Succeeds old e
    → e.sequence ≡ old.sequence + 1
    → old.sequence ≢ u64_max
    → inconsistent old e ≡ false
unfolding inconsistent
Succeeds-consistent old e h n m = ground (
  arith,
  same_bytes_refl old.build,
  h.forward.advances,
  h.forward.kept,
  texts_agree e.selected old.selected e.selected_build old.selected_build h.forward.steady,
)

pub decode_event-reply :
    (codec : Codec LifecycleEvent) (id : ℕ) (e : LifecycleEvent)
    → codec.decode (codec.encode e) max_frame ≡ some e
    → bad_state e e.generation ≡ false
    → decode_event codec (reply codec id e) id ≡ ok e
unfolding decode_event
decode_event-reply codec id e d good = ground (arith, d, good)

-- The event of a round that numbers it, sent with this kind of change.
abbrev pub sent : LifecycleEvent → Option LifecycleChange → ℕ → LifecycleEvent
sent e k n = record e { change = k; sequence = n }

pub sample-IsCoherent :
    (s1 s2 s3 : ControlService) (k : Option LifecycleChange) (n : ℕ)
    → IsSane s1
    → Later s1 s2
    → Later s2 s3
    → s1.process_id ≢ 0
    → IsCoherent (sent (sample s1.events s2.lifecycle.draining s3) k n)
unfolding sample
sample-IsCoherent s1 s2 s3 k n h f g p = record {
  process = λ e. p (sym (g.same_process ∙ f.same_process) ∙ e);
  unselected = h.unselected;
  own = λ e.
      h.own (e ∙ ap (λ (m : ℕ). some m) (g.same_generation ∙ f.same_generation))
      ∙ sym (g.same_build ∙ f.same_build);
  stops = λ e. ground (arith, e);
  closed = λ e. f.drained (h.closed e);
}

pub sample-Succeeds :
    (old : LifecycleEvent) (s s1 s2 s3 : ControlService) (k : Option LifecycleChange) (n : ℕ)
    → Covers old s
    → Later s s1
    → Later s1 s2
    → Later s2 s3
    → Succeeds old (sent (sample s1.events s2.lifecycle.draining s3) k n)
unfolding sample
sample-Succeeds old s s1 s2 s3 k n c f g h = record {
  same_process = h.same_process ∙ g.same_process ∙ f.same_process ∙ c.same_process;
  same_generation = h.same_generation ∙ g.same_generation ∙ f.same_generation ∙ c.same_generation;
  same_build = h.same_build ∙ g.same_build ∙ f.same_build ∙ c.same_build;
  drained = λ e. g.drained (f.drained (c.drained e));
  forward = Forward-trans (published old) s.events s1.events c.forward f.forward;
}

pub sample-Covers :
    (s1 s2 s3 : ControlService) (k : Option LifecycleChange) (n : ℕ)
    → Later s1 s2
    → Later s2 s3
    → Covers (sent (sample s1.events s2.lifecycle.draining s3) k n) s3
unfolding sample
sample-Covers s1 s2 s3 k n f g = record {
  same_process = refl;
  same_generation = refl;
  same_build = refl;
  drained = g.drained;
  forward = Forward-trans s1.events s2.events s3.events f.forward g.forward;
}

pub Covers-Later :
    (old : LifecycleEvent) (s t : ControlService) → Covers old s → Later s t → Covers old t
Covers-Later old s t c f = record {
  same_process = f.same_process ∙ c.same_process;
  same_generation = f.same_generation ∙ c.same_generation;
  same_build = f.same_build ∙ c.same_build;
  drained = λ e. f.drained (c.drained e);
  forward = Forward-trans (published old) s.events t.events c.forward f.forward;
}
