-- ===== src/Readiness/Told.antt =====
-- What src/readiness/channel.rs decides, against everything that the channel posted.
use kunobi_daemon.Common.{
  ℕ, ◌≤◌, ◌≡◌, refl, sym, ap, ◌∙◌, ◌↔◌, ◌+◌, ◌<◌, min, ◌⊎◌, inl, inr, Bool-cases, true, false,
  Option, none, some, List, [], ◌∷◌, arith, leb, ◌≢◌, ◌-◌, leb→le,
}
use mathlib.Core.Path.{subst}
use kunobi_daemon.Selection.{duration_max}
use kunobi_daemon.Readiness.{
  died, malformed, silent, Event, closed, waiting, progressing, Decision, not_ready, wait, Tracker,
  is_final, state_of, note, decide, decide_waiting, saturating_until,
}

-- The first event that ends the channel's story, if one does.
abbrev pub first_final : List (ℕ × Event) → Option Event
first_final [] = none
first_final ((at, Event.progress) ∷ es) = first_final es
first_final ((at, Event.ready) ∷ es) = some Event.ready
first_final ((at, Event.malformed) ∷ es) = some Event.malformed
first_final ((at, closed) ∷ es) = some closed

-- The time of the last event.
abbrev pub last_time : ℕ → List (ℕ × Event) → ℕ
last_time t [] = t
last_time t ((at, e) ∷ es) = last_time at es

-- The times do not fall.
abbrev pub Ascends : ℕ → List (ℕ × Event) → Type 0
Ascends t [] = Unit {0}
Ascends t ((at, e) ∷ es) = (t ≤ at) × Ascends at es

unfoldable pub heard : Tracker → List (ℕ × Event) → Tracker
heard t [] = t
heard t ((at, e) ∷ es) = heard (note t at e) es

abbrev pub opened : Tracker
opened = record { state = waiting; last_message = 0 }

-- The silence since the last message has lasted as long as is allowed, or the clock has come to the
-- end of what a duration holds.
abbrev pub HasLasted : ℕ → ℕ → ℕ → Type 0
HasLasted last silence now = (last + silence ≤ now) ⊎ (duration_max ≤ now)

-- What the decision must be, by the first final event and the time of the last message. Without a
-- final event it is silence if that has lasted, and otherwise a wait that ends at the first time at
-- which it will have lasted.
abbrev pub IsDecided : Option Event → ℕ → ℕ → ℕ → Decision → Type 0
IsDecided (some Event.ready) last silence now d = d ≡ Decision.ready
IsDecided (some Event.malformed) last silence now d = d ≡ not_ready malformed
IsDecided (some closed) last silence now d = d ≡ not_ready died
IsDecided (some Event.progress) last silence now d = ⊥
IsDecided none last silence now d =
    ((d ≡ not_ready silent) × HasLasted last silence now)
    ⊎ ((until : ℕ) × (now < until)
        × (d ≡ wait (until - now))
        × HasLasted last silence until
        × ((t : ℕ) → t < until → ¬ HasLasted last silence t))

-- The decision in the code's own terms.
abbrev answer : Option Event → ℕ → ℕ → Decision
answer (some Event.ready) until now = Decision.ready
answer (some Event.malformed) until now = not_ready malformed
answer (some closed) until now = not_ready died
answer (some Event.progress) until now = decide_waiting until now
answer none until now = decide_waiting until now

heard_final : (t : Tracker) (es : List (ℕ × Event)) → is_final t.state ≡ true → heard t es ≡ t
unfolding heard note
heard_final t [] h = refl
heard_final t ((at, e) ∷ es) h = rw h (heard_final t es h)

note-open :
    (t : Tracker) (at : ℕ) (e : Event)
    → is_final t.state ≡ false
    → t.last_message ≤ at
    → note t at e ≡ record { state = state_of e; last_message = at }
unfolding note
note-open t at e f h = ground arith

abbrev ended : Event → ℕ → Tracker
ended e at = record { state = state_of e; last_message = at }

heard_ended :
    (t : Tracker) (at : ℕ) (e : Event) (es : List (ℕ × Event)) (now silence : ℕ)
    → is_final t.state ≡ false
    → t.last_message ≤ at
    → is_final (state_of e) ≡ true
    → decide (heard (note t at e) es) now silence ≡ decide (ended e at) now silence
heard_ended t at e es now silence f h last =
    ap (λ u. decide (heard u es) now silence) (note-open t at e f h)
    ∙ ap (λ u. decide u now silence) (heard_final (ended e at) es last)

heard-answer :
    (es : List (ℕ × Event)) (t : Tracker) (now silence : ℕ)
    → is_final t.state ≡ false
    → Ascends t.last_message es
    → decide (heard t es) now silence
      ≡ answer (first_final es) (saturating_until (last_time t.last_message es) silence) now
unfolding heard decide
heard-answer [] t now silence f h = ground (arith, f)
heard-answer ((at, Event.progress) ∷ es) t now silence f h =
    ap (λ u. decide (heard u es) now silence) (note-open t at Event.progress f h.0)
    ∙ heard-answer es (record { state = progressing; last_message = at }) now silence refl h.1
heard-answer ((at, Event.ready) ∷ es) t now silence f h =
    heard_ended t at Event.ready es now silence f h.0 refl
heard-answer ((at, Event.malformed) ∷ es) t now silence f h =
    heard_ended t at Event.malformed es now silence f h.0 refl
heard-answer ((at, closed) ∷ es) t now silence f h =
    heard_ended t at closed es now silence f h.0 refl

until_lasted :
    (last silence cap now : ℕ)
    → (min (last + silence) cap ≤ now) ↔ ((last + silence ≤ now) ⊎ (cap ≤ now))
until_lasted last silence cap now = (ground arith, λ h. ground arith)

late : (until now : ℕ) → leb until now ≡ false → now < until
late until now e = ground arith

waiting-IsDecided :
    (last silence now : ℕ)
    → IsDecided none last silence now (decide_waiting (saturating_until last silence) now)
unfolding saturating_until
waiting-IsDecided last silence now =
    let until : ℕ = min (last + silence) duration_max in
    elim (Bool-cases (leb until now)) [
      | inl e ↦ inl (rw e refl, (until_lasted last silence duration_max now).0 (leb→le _ _ e))
      | inr e ↦ inr (
        until,
        late until now e,
        rw e refl,
        (until_lasted last silence duration_max until).0 (omega arith),
        λ t early lasted. omega (arith, early, (until_lasted last silence duration_max t).1 lasted),
      )
    ]

answer-IsDecided :
    (o : Option Event) (last silence now : ℕ)
    → o ≢ some Event.progress
    → IsDecided o last silence now (answer o (saturating_until last silence) now)
answer-IsDecided (some Event.ready) last silence now h = refl
answer-IsDecided (some Event.malformed) last silence now h = refl
answer-IsDecided (some closed) last silence now h = refl
answer-IsDecided (some Event.progress) last silence now h = h refl
answer-IsDecided none last silence now h = waiting-IsDecided last silence now

first_final-ne-progress : (es : List (ℕ × Event)) → first_final es ≢ some Event.progress
first_final-ne-progress [] e = cc
first_final-ne-progress ((at, Event.progress) ∷ es) e = first_final-ne-progress es e
first_final-ne-progress ((at, Event.ready) ∷ es) e = cc
first_final-ne-progress ((at, Event.malformed) ∷ es) e = cc
first_final-ne-progress ((at, closed) ∷ es) e = cc

-- A launcher learns only what its daemon said: whatever was posted, at times that do not fall, the
-- decision is the first message that is ready, malformed or the end of the channel, if there is one.
-- Otherwise it is silence if as long as is allowed has passed since the last message (or the clock
-- has come to the end of what a duration holds), and else a wait for exactly the time until then.
pub decide-heard :
    (es : List (ℕ × Event)) (now silence : ℕ)
    → Ascends 0 es
    → IsDecided (first_final es) (last_time 0 es) silence now (decide (heard opened es) now silence)
decide-heard es now silence h =
    subst (IsDecided (first_final es) (last_time 0 es) silence now)
      (sym (heard-answer es opened now silence refl h))
      (answer-IsDecided (first_final es) (last_time 0 es) silence now (first_final-ne-progress es))
