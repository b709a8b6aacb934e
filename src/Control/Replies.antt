-- ===== src/Control/Replies.antt =====
-- One frame of a subscription of src/control/watch.rs: a client accepts the event that follows.
use kunobi_daemon.Common.{
  ℕ, ◌+◌, ◌≡◌, ◌≢◌, refl, sym, ◌∙◌, true, false, Option, none, some, List, [], ◌∷◌, Result, ok, err,
  ◌==◌, arith,
}
use kunobi_daemon.Common.Words.{u64_max}
use kunobi_daemon.Wire.{Control, max_frame}
use kunobi_daemon.Wire.Framing.{Codec}
use kunobi_daemon.Control.{
  ControlService, ControlError, LifecycleChange, LifecycleEvent, sample, kinds, change_since,
}
use kunobi_daemon.Control.Watching.{run, Round, serve_watch, reply, WatchClient, changed}
use kunobi_daemon.Control.Announced.{IsSane, run-Later, run-IsSane}
use kunobi_daemon.Control.Sampled.{
  Succeeds, Covers, IsCoherent, suits, change-suits, coherent_state, Succeeds-consistent,
  decode_event-reply, sent, sample-IsCoherent, sample-Succeeds, sample-Covers, Covers-Later,
}

-- A client that calls `changed` for each frame until one is refused.
abbrev pub resume :
    (WatchClient → WatchClient × Result ControlError (Unit {0}))
    → WatchClient × Result ControlError (Unit {0})
    → WatchClient × Result ControlError (Unit {0})
resume rest (client, ok _) = rest client
resume rest (client, err e) = (client, err e)

unfoldable pub watch_all :
    Codec LifecycleEvent → List Control → WatchClient → WatchClient × Result ControlError (Unit {0})
watch_all codec [] client = (client, ok tt)
watch_all codec (m ∷ ms) client = resume (watch_all codec ms) (changed codec client m)

abbrev pub latest_of : LifecycleEvent → List LifecycleEvent → LifecycleEvent
latest_of e [] = e
latest_of e (f ∷ es) = latest_of f es

abbrev pub AllTravel : Codec LifecycleEvent → List LifecycleEvent → Type 0
AllTravel codec [] = Unit {0}
AllTravel codec (e ∷ es) = (codec.decode (codec.encode e) max_frame ≡ some e) × AllTravel codec es

abbrev pub watching : ℕ → LifecycleEvent → WatchClient
watching id e = record { request_id = id; latest = e; failed = false }

pub changed-reply :
    (codec : Codec LifecycleEvent) (id : ℕ) (old e : LifecycleEvent) (k : LifecycleChange)
    → codec.decode (codec.encode e) max_frame ≡ some e
    → IsCoherent e
    → Succeeds old e
    → e.change ≡ some k
    → suits k e ≡ true
    → e.sequence ≡ old.sequence + 1
    → old.sequence ≢ u64_max
    → changed codec (watching id old) (reply codec id e) ≡ (watching id e, ok tt)
unfolding changed
changed-reply codec id old e k d c s kind fits next more =
    rw
      (
        decode_event-reply codec id e d (coherent_state e k c kind fits),
        Succeeds-consistent old e s next more,
      )
      refl

-- The service at the end of a round, and the event that the round samples.
abbrev pub after_round : ControlService → Round → ControlService
after_round s r = run (run (run s r.before_events) r.before_drain) r.before_ready

abbrev pub seen : ControlService → Round → LifecycleEvent
seen s r =
    sample (run s r.before_events).events
      (run (run s r.before_events) r.before_drain).lifecycle.draining (after_round s r)

pub differs : (a b : ℕ) → (a == b) ≡ false → a ≢ b
differs a b h e = ground arith

pub serve_watch_nil :
    (s : ControlService) (previous : Option LifecycleEvent) (n : ℕ)
    → serve_watch s previous n [] ≡ []
unfolding serve_watch
serve_watch_nil s previous n = refl

pub serve_watch-quiet :
    (s : ControlService) (previous : Option LifecycleEvent) (n : ℕ) (r : Round)
    (rounds : List Round)
    → change_since previous (seen s r) ≡ none
    → serve_watch s previous n (r ∷ rounds) ≡ serve_watch (after_round s r) previous n rounds
unfolding serve_watch
serve_watch-quiet s previous n r rounds e = rw (e, serve_watch) refl

pub serve_watch-full :
    (s : ControlService) (previous : Option LifecycleEvent) (n : ℕ) (r : Round)
    (rounds : List Round) (k : LifecycleChange)
    → change_since previous (seen s r) ≡ some k
    → (n == u64_max) ≡ true
    → serve_watch s previous n (r ∷ rounds) ≡ []
unfolding serve_watch
serve_watch-full s previous n r rounds k e f = rw (e, f, serve_watch) refl

pub serve_watch-sends :
    (s : ControlService) (previous : Option LifecycleEvent) (n : ℕ) (r : Round)
    (rounds : List Round) (k : LifecycleChange)
    → change_since previous (seen s r) ≡ some k
    → (n == u64_max) ≡ false
    → serve_watch s previous n (r ∷ rounds)
      ≡ sent (seen s r) (some k) (n + 1)
        ∷ serve_watch (after_round s r) (some (sent (seen s r) (some k) (n + 1))) (n + 1) rounds
unfolding serve_watch
serve_watch-sends s previous n r rounds k e f = rw (e, f, serve_watch) refl

pub after_round-IsSane : (s : ControlService) (r : Round) → IsSane s → IsSane (after_round s r)
after_round-IsSane s r h =
    run-IsSane _ r.before_ready (run-IsSane _ r.before_drain (run-IsSane s r.before_events h))

pub after_round-process :
    (s : ControlService) (r : Round) → (after_round s r).process_id ≡ s.process_id
after_round-process s r =
    (run-Later (run (run s r.before_events) r.before_drain) r.before_ready).same_process
    ∙ (run-Later (run s r.before_events) r.before_drain).same_process
    ∙ (run-Later s r.before_events).same_process

pub after_round-Covers :
    (s : ControlService) (r : Round) (old : LifecycleEvent)
    → Covers old s
    → Covers old (after_round s r)
after_round-Covers s r old c =
    Covers-Later old _ _
      (Covers-Later old _ _ (Covers-Later old s _ c (run-Later s r.before_events))
        (run-Later _ r.before_drain))
      (run-Later _ r.before_ready)

pub seen-Covers :
    (s : ControlService) (r : Round) (k : Option LifecycleChange) (n : ℕ)
    → Covers (sent (seen s r) k n) (after_round s r)
seen-Covers s r k n =
    sample-Covers (run s r.before_events) (run (run s r.before_events) r.before_drain)
      (after_round s r) k n (run-Later _ r.before_drain) (run-Later _ r.before_ready)

pub seen-IsCoherent :
    (s : ControlService) (r : Round) (k : Option LifecycleChange) (n : ℕ)
    → IsSane s
    → s.process_id ≢ 0
    → IsCoherent (sent (seen s r) k n)
seen-IsCoherent s r k n h p =
    sample-IsCoherent (run s r.before_events) (run (run s r.before_events) r.before_drain)
      (after_round s r) k n (run-IsSane s r.before_events h) (run-Later _ r.before_drain)
      (run-Later _ r.before_ready) (λ e. p (sym (run-Later s r.before_events).same_process ∙ e))

pub seen-Succeeds :
    (s : ControlService) (r : Round) (old : LifecycleEvent) (k : Option LifecycleChange) (n : ℕ)
    → Covers old s
    → Succeeds old (sent (seen s r) k n)
seen-Succeeds s r old k n c =
    sample-Succeeds old s (run s r.before_events) (run (run s r.before_events) r.before_drain)
      (after_round s r) k n c (run-Later s r.before_events) (run-Later _ r.before_drain)
      (run-Later _ r.before_ready)

pub change-fits :
    (s : ControlService) (r : Round) (old : LifecycleEvent) (k : LifecycleChange) (n : ℕ)
    → Covers old s
    → change_since (some old) (seen s r) ≡ some k
    → suits k (sent (seen s r) (some k) n) ≡ true
unfolding sample kinds
change-fits s r old k n c e =
    change-suits old (sent (seen s r) (some k) n) k (seen-Succeeds s r old (some k) n c) e
