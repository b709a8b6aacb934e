-- ===== src/Control/Announced.antt =====
-- What a daemon of src/control.rs announces only moves forward.
use kunobi_daemon.Common.{
  same_bytes_equal, ℕ, ◌≡◌, refl, sym, ap, ◌∙◌, true, false, Option, none, some, List, [], ◌∷◌,
  arith, Option-cases,
}
use kunobi_daemon.Lifecycle.{Lifecycle, start_drain}
use kunobi_daemon.Control.{
  Published, ControlService, new, mark_ready, publish_selection, selection_committed, mark_retiring,
  same_option, less_option,
}
use kunobi_daemon.Control.Watching.{Call, becomes_ready, commits, drains, retires, step, run}

-- What a published state promises to a process of this generation and build.
pub record IsSane (s : ControlService) : Type 0 where
  pub unselected : s.events.selected ≡ none → s.events.selected_build ≡ []
  pub own : s.events.selected ≡ some s.generation → s.events.selected_build ≡ s.build
  pub closed : s.events.retiring ≡ true → s.lifecycle.draining ≡ true

-- The selection is the same or a later one, and retirement is kept.
pub record Forward (p q : Published) : Type 0 where
  pub advances : less_option q.selected p.selected ≡ false
  pub steady : q.selected ≡ p.selected → q.selected_build ≡ p.selected_build
  pub kept : p.retiring ≡ true → q.retiring ≡ true

pub record Later (s t : ControlService) : Type 0 where
  pub same_process : t.process_id ≡ s.process_id
  pub same_generation : t.generation ≡ s.generation
  pub same_build : t.build ≡ s.build
  pub drained : s.lifecycle.draining ≡ true → t.lifecycle.draining ≡ true
  pub forward : Forward s.events t.events

less_option_irrefl : (a : Option ℕ) → less_option a a ≡ false
less_option_irrefl none = refl
less_option_irrefl (some n) = ground arith

pub same_option_equal : (a b : Option ℕ) → same_option a b ≡ true → a ≡ b
same_option_equal none none h = refl
same_option_equal (some m) (some n) h = ap (λ (k : ℕ). some k) (ground arith)
same_option_equal none (some n) h = cc
same_option_equal (some m) none h = cc

less_option_trans :
    (a b c : Option ℕ) → less_option b a ≡ false → less_option c b ≡ false → less_option c a ≡ false
less_option_trans none b none h k = refl
less_option_trans none b (some l) h k = refl
less_option_trans (some m) none c h k = cc
less_option_trans (some m) (some n) none h k = cc
less_option_trans (some m) (some n) (some l) h k = ground arith

less_option_antisymm : (a b : Option ℕ) → less_option b a ≡ false → less_option a b ≡ false → a ≡ b
less_option_antisymm none none h k = refl
less_option_antisymm none (some n) h k = cc
less_option_antisymm (some m) none h k = cc
less_option_antisymm (some m) (some n) h k = ap (λ (l : ℕ). some l) (ground arith)

pub Forward-refl : (p : Published) → Forward p p
Forward-refl p = record {
  advances = less_option_irrefl p.selected;
  steady = λ e. refl;
  kept = λ e. e;
}

pub Forward-trans : (p q r : Published) → Forward p q → Forward q r → Forward p r
Forward-trans p q r f g = record {
  advances = less_option_trans p.selected q.selected r.selected f.advances g.advances;
  steady = λ e.
      let m : r.selected ≡ q.selected =
        less_option_antisymm r.selected q.selected (rw e f.advances) g.advances in
      g.steady m ∙ f.steady (sym m ∙ e);
  kept = λ e. g.kept (f.kept e);
}

publish_selection-Forward :
    (p : Published) (n : ℕ) (build : List ℕ) → Forward p (publish_selection p n build).0
unfolding publish_selection
publish_selection-Forward p n build = ground (
  arith,
  less_option_irrefl p.selected,
  same_bytes_equal build p.selected_build,
  Option-cases p.selected,
)

step-Later : (s : ControlService) (c : Call) → Later s (step s c)
unfolding step mark_ready selection_committed mark_retiring start_drain
step-Later s becomes_ready = ground (arith, Forward-refl s.events)
step-Later s (commits n build) =
    ground (arith, Forward-refl s.events, publish_selection-Forward s.events n build)
step-Later s (drains now) = ground (arith, Forward-refl s.events)
step-Later s (retires now) = ground (arith, Forward-refl s.events)

step-IsSane : (s : ControlService) (c : Call) → IsSane s → IsSane (step s c)
unfolding step mark_ready selection_committed publish_selection mark_retiring start_drain
step-IsSane s becomes_ready h = ground arith
step-IsSane s (commits n build) h = ground (arith, same_bytes_equal build s.build)
step-IsSane s (drains now) h = ground arith
step-IsSane s (retires now) h = ground arith

Later-trans : (s t u : ControlService) → Later s t → Later t u → Later s u
Later-trans s t u f g = record {
  same_process = g.same_process ∙ f.same_process;
  same_generation = g.same_generation ∙ f.same_generation;
  same_build = g.same_build ∙ f.same_build;
  drained = λ e. g.drained (f.drained e);
  forward = Forward-trans s.events t.events u.events f.forward g.forward;
}

-- Whatever calls follow, the process stays what it is, a drain and a retirement stay, and the
-- announced selection is the same one, with the same build, or a later one.
pub run-Later : (s : ControlService) (cs : List Call) → Later s (run s cs)
unfolding run
run-Later s [] = record {
  same_process = refl;
  same_generation = refl;
  same_build = refl;
  drained = λ e. e;
  forward = Forward-refl s.events;
}
run-Later s (c ∷ cs) =
    Later-trans s (step s c) (run (step s c) cs) (step-Later s c) (run-Later (step s c) cs)

pub run-IsSane : (s : ControlService) (cs : List Call) → IsSane s → IsSane (run s cs)
unfolding run
run-IsSane s [] h = h
run-IsSane s (c ∷ cs) h = run-IsSane (step s c) cs (step-IsSane s c h)

pub new-IsSane :
    (l : Lifecycle) (generation : ℕ) (build : List ℕ) (revision process_id : ℕ)
    → IsSane (new l generation build revision process_id)
unfolding new
new-IsSane l generation build revision process_id = record {
  unselected = λ e. refl;
  own = λ e. cc;
  closed = λ e. cc;
}
