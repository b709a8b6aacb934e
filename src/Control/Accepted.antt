-- ===== src/Control/Accepted.antt =====
-- Whatever a daemon of src/control/watch.rs announces, its watching client accepts.
use kunobi_daemon.Common.{
  ℕ, ◌+◌, ◌≡◌, ◌≢◌, refl, sym, ◌∙◌, false, Option, none, some, List, [], ◌∷◌, Result, ok, err, ◌==◌,
  arith, Option-cases, Bool-cases, inl, inr, map,
}
use mathlib.Core.Path.{subst}
use kunobi_daemon.Common.Words.{u64_max}
use kunobi_daemon.Wire.{Control, max_frame}
use kunobi_daemon.Wire.Framing.{Codec}
use kunobi_daemon.Lifecycle.{Lifecycle}
use kunobi_daemon.Control.{
  ControlService, ControlError, new, snapshot, LifecycleEvent, change_since,
}
use kunobi_daemon.Control.Watching.{
  Call, run, Round, serve_watch, reply, bad_state, WatchClient, first_event, changed,
}
use kunobi_daemon.Control.Announced.{IsSane, run-Later, run-IsSane, new-IsSane}
use kunobi_daemon.Control.Sampled.{Covers, IsCoherent, coherent_state, decode_event-reply, sent}
use kunobi_daemon.Control.Replies.{
  watch_all, latest_of, AllTravel, watching, changed-reply, after_round, seen, differs,
  serve_watch_nil, serve_watch-quiet, serve_watch-full, serve_watch-sends, after_round-IsSane,
  after_round-process, after_round-Covers, seen-Covers, seen-IsCoherent, seen-Succeeds, change-fits,
}

module _ (codec : Codec LifecycleEvent) (id : ℕ) where
  -- The client that has the old event accepts all of these.
  abbrev Accepts : LifecycleEvent → List LifecycleEvent → Type 0
  Accepts old es =
      AllTravel codec es
      → watch_all codec (map (reply codec id) es) (watching id old)
        ≡ (watching id (latest_of old es), ok tt)

  Accepts-none : (old : LifecycleEvent) → Accepts old []
  unfolding watch_all
  Accepts-none old t = refl

  Accepts-next :
      (old e : LifecycleEvent) (es : List LifecycleEvent)
      → (codec.decode (codec.encode e) max_frame ≡ some e
          → changed codec (watching id old) (reply codec id e) ≡ (watching id e, ok tt))
      → Accepts e es
      → Accepts old (e ∷ es)
  unfolding watch_all
  Accepts-next old e es first rest t = rw (first t.0) (rest t.1)

  follows :
      (rounds : List Round) (s : ControlService) (old : LifecycleEvent)
      → IsSane s
      → s.process_id ≢ 0
      → Covers old s
      → Accepts old (serve_watch s (some old) old.sequence rounds)
  follows [] s old sane p c =
      subst (Accepts old) (sym (serve_watch_nil s (some old) old.sequence)) (Accepts-none old)
  follows (r ∷ rounds) s old sane p c =
      let sane' : IsSane (after_round s r) = after_round-IsSane s r sane in
      let p' : (after_round s r).process_id ≢ 0 = λ e. p (sym (after_round-process s r) ∙ e) in
      elim (Option-cases (change_since (some old) (seen s r))) [
        | inl quiet ↦
            subst (Accepts old) (sym (serve_watch-quiet s (some old) old.sequence r rounds quiet))
              (follows rounds (after_round s r) old sane' p' (after_round-Covers s r old c))
        | inr (k, loud) ↦ elim (Bool-cases (old.sequence == u64_max)) [
          | inl full ↦
              subst (Accepts old)
                (sym (serve_watch-full s (some old) old.sequence r rounds k loud full))
                (Accepts-none old)
          | inr more ↦
              let e : LifecycleEvent = sent (seen s r) (some k) (old.sequence + 1) in
              subst (Accepts old)
                (sym (serve_watch-sends s (some old) old.sequence r rounds k loud more))
                (Accepts-next old e _
                  (λ d.
                    changed-reply codec id old e k d
                      (seen-IsCoherent s r (some k) (old.sequence + 1) sane p)
                      (seen-Succeeds s r old (some k) (old.sequence + 1) c) refl
                      (change-fits s r old k (old.sequence + 1) c loud) refl
                      (differs old.sequence u64_max more))
                  (follows rounds (after_round s r) e sane' p' (seen-Covers s r (some k) _)))
        ]
      ]

abbrev pub watched :
    (WatchClient → WatchClient × Result ControlError (Unit {0}))
    → Result ControlError WatchClient
    → Option WatchClient × Result ControlError (Unit {0})
watched rest (err e) = (none, err e)
watched rest (ok client) = (some (rest client).0, (rest client).1)

-- A subscription: the first frame connects, and each further one is a change.
unfoldable pub subscribe :
    Codec LifecycleEvent → ℕ → List Control → Option WatchClient × Result ControlError (Unit {0})
subscribe codec id [] = (none, ok tt)
subscribe codec id (m ∷ ms) = watched (watch_all codec ms) (first_event codec id m)

abbrev pub last_seen : ℕ → List LifecycleEvent → Option WatchClient
last_seen id [] = none
last_seen id (e ∷ es) = some (watching id (latest_of e es))

first_event-reply :
    (codec : Codec LifecycleEvent) (id : ℕ) (e : LifecycleEvent)
    → codec.decode (codec.encode e) max_frame ≡ some e
    → bad_state e e.generation ≡ false
    → e.sequence ≡ 1
    → e.change ≡ some snapshot
    → first_event codec id (reply codec id e) ≡ ok (watching id e)
unfolding first_event
first_event-reply codec id e d good n k =
    rw (decode_event-reply codec id e d good) (ground (arith, n, k))

abbrev IsWatched : Codec LifecycleEvent → ℕ → List LifecycleEvent → Type 0
IsWatched codec id es =
    AllTravel codec es → subscribe codec id (map (reply codec id) es) ≡ (last_seen id es, ok tt)

starts-IsWatched :
    (codec : Codec LifecycleEvent) (id : ℕ) (e : LifecycleEvent) (es : List LifecycleEvent)
    → IsCoherent e
    → e.sequence ≡ 1
    → e.change ≡ some snapshot
    → Accepts codec id e es
    → IsWatched codec id (e ∷ es)
unfolding subscribe
starts-IsWatched codec id e es c n k rest t =
    rw (first_event-reply codec id e t.0 (coherent_state e snapshot c k refl) n k, rest t.1) refl

serve_watch-IsWatched :
    (codec : Codec LifecycleEvent) (id : ℕ) (rounds : List Round) (s : ControlService)
    → IsSane s
    → s.process_id ≢ 0
    → IsWatched codec id (serve_watch s none 0 rounds)
unfolding subscribe
serve_watch-IsWatched codec id [] s sane p =
    subst (IsWatched codec id) (sym (serve_watch_nil s none 0)) (λ t. refl)
serve_watch-IsWatched codec id (r ∷ rounds) s sane p =
    subst (IsWatched codec id) (sym (serve_watch-sends s none 0 r rounds snapshot refl refl)) (
      starts-IsWatched codec id e _ (seen-IsCoherent s r (some snapshot) (0 + 1) sane p) refl refl (
        follows codec id rounds (after_round s r) e (after_round-IsSane s r sane)
          (λ z. p (sym (after_round-process s r) ∙ z)) (seen-Covers s r (some snapshot) (0 + 1))))
  where
    e : LifecycleEvent
    e = sent (seen s r) (some snapshot) (0 + 1)

new-process :
    (l : Lifecycle) (generation : ℕ) (build : List ℕ) (revision process_id : ℕ)
    → (new l generation build revision process_id).process_id ≡ process_id
unfolding new
new-process l generation build revision process_id = refl

-- Whatever a daemon announces, and however its announcements, drains and readiness interleave with
-- the reads of a subscription: the watching client accepts every event that is sent, and ends with
-- the last of them as its latest state. The process id is not 0, and the codec decodes these events.
pub watch_accepted :
    (codec : Codec LifecycleEvent) (id : ℕ) (l : Lifecycle) (generation : ℕ) (build : List ℕ)
    (revision process_id : ℕ) (before : List Call) (rounds : List Round)
    → process_id ≢ 0
    → let s = run (new l generation build revision process_id) before in
      let events = serve_watch s none 0 rounds in
      AllTravel codec events
      → subscribe codec id (map (reply codec id) events) ≡ (last_seen id events, ok tt)
watch_accepted codec id l generation build revision process_id before rounds p t =
    let s : ControlService = new l generation build revision process_id in
    serve_watch-IsWatched codec id rounds (run s before)
      (run-IsSane s before (new-IsSane l generation build revision process_id))
      (λ e. p (
        sym (new-process l generation build revision process_id)
        ∙ sym (run-Later s before).same_process
        ∙ e))
      t
