-- ===== src/Readiness/Looks.antt =====
-- What the waiter of src/readiness/channel.rs returns, look after look.
use kunobi_daemon.Common.{
  ℕ, zero, suc, ◌≡◌, refl, sym, ◌⊎◌, inl, inr, Option, none, some, List, [], ◌∷◌, Result, ok, err,
  take,
}
use mathlib.Core.Path.{subst}
use kunobi_daemon.Readiness.{
  NotReady, died, malformed, silent, Event, closed, Decision, not_ready, wait, decide, Inner,
}
use kunobi_daemon.Readiness.Reading.{wait_ready}
use kunobi_daemon.Readiness.Told.{
  Ascends, decide-heard, first_final, HasLasted, heard, IsDecided, last_time, opened,
}

Ascends-take : (n t : ℕ) (es : List (ℕ × Event)) → Ascends t es → Ascends t (take n es)
Ascends-take zero t es h = tt
Ascends-take (suc n) t [] h = tt
Ascends-take (suc n) t ((at, e) ∷ es) h = (h.0, Ascends-take n at es h.1)

first_final-take :
    (n : ℕ) (es : List (ℕ × Event)) (e : Event)
    → first_final (take n es) ≡ some e
    → first_final es ≡ some e
first_final-take zero es e h = cc
first_final-take (suc n) [] e h = h
first_final-take (suc n) ((at, Event.progress) ∷ es) e h = first_final-take n es e h
first_final-take (suc n) ((at, Event.ready) ∷ es) e h = h
first_final-take (suc n) ((at, Event.malformed) ∷ es) e h = h
first_final-take (suc n) ((at, closed) ∷ es) e h = h

-- Each time the waiter looks, it sees what was posted so far.
abbrev pub AllSeen : List (ℕ × Event) → List (Inner × ℕ) → Type 0
AllSeen es [] = Unit {0}
AllSeen es ((inner, now) ∷ later) =
    ((n : ℕ) × (inner.tracker ≡ heard opened (take n es))) × AllSeen es later

-- What a look saw: the events posted so far, none of them final, with a silence that had lasted at
-- the time of the look, or had not.
abbrev pub IsSilent : List (ℕ × Event) → ℕ → Inner → ℕ → Type 0
IsSilent es silence inner now =
    (n : ℕ) × (inner.tracker ≡ heard opened (take n es))
    × (first_final (take n es) ≡ none)
    × HasLasted (last_time 0 (take n es)) silence now

abbrev pub IsWaiting : List (ℕ × Event) → ℕ → Inner → ℕ → Type 0
IsWaiting es silence inner now =
    (n : ℕ) × (inner.tracker ≡ heard opened (take n es))
    × (first_final (take n es) ≡ none)
    × (¬ HasLasted (last_time 0 (take n es)) silence now)

-- One of the looks saw a silence that had lasted, and none before it did.
abbrev pub FirstSilent : List (ℕ × Event) → ℕ → List (Inner × ℕ) → Type 0
FirstSilent es silence [] = ⊥
FirstSilent es silence ((inner, now) ∷ later) =
    IsSilent es silence inner now ⊎ (IsWaiting es silence inner now × FirstSilent es silence later)

-- What a result of the wait says of everything that is ever posted, and of the looks.
abbrev pub Returns : List (ℕ × Event) → ℕ → List (Inner × ℕ) → Result NotReady (Unit {0}) → Type 0
Returns es silence seen (ok u) = first_final es ≡ some Event.ready
Returns es silence seen (err died) = first_final es ≡ some closed
Returns es silence seen (err malformed) = first_final es ≡ some Event.malformed
Returns es silence seen (err silent) = FirstSilent es silence seen

-- All the looks saw nothing final and a silence that had not lasted.
abbrev pub AllWaiting : List (ℕ × Event) → ℕ → List (Inner × ℕ) → Type 0
AllWaiting es silence [] = Unit {0}
AllWaiting es silence ((inner, now) ∷ later) =
    IsWaiting es silence inner now × AllWaiting es silence later

abbrev pub Tells :
    List (ℕ × Event) → ℕ → List (Inner × ℕ) → Option (Result NotReady (Unit {0})) → Type 0
Tells es silence seen none = AllWaiting es silence seen
Tells es silence seen (some r) = Returns es silence seen r

abbrev Says : List (ℕ × Event) → ℕ → Inner → ℕ → Decision → Type 0
Says es silence inner now Decision.ready = first_final es ≡ some Event.ready
Says es silence inner now (not_ready died) = first_final es ≡ some closed
Says es silence inner now (not_ready malformed) = first_final es ≡ some Event.malformed
Says es silence inner now (not_ready silent) = IsSilent es silence inner now
Says es silence inner now (wait n) = IsWaiting es silence inner now

decided-Says :
    (es : List (ℕ × Event)) (silence n now : ℕ) (inner : Inner) (o : Option Event) (d : Decision)
    → inner.tracker ≡ heard opened (take n es)
    → first_final (take n es) ≡ o
    → IsDecided o (last_time 0 (take n es)) silence now d
    → Says es silence inner now d
decided-Says es silence n now inner (some Event.ready) d seen h is =
    subst (Says es silence inner now) (sym is) (first_final-take n es Event.ready h)
decided-Says es silence n now inner (some Event.malformed) d seen h is =
    subst (Says es silence inner now) (sym is) (first_final-take n es Event.malformed h)
decided-Says es silence n now inner (some closed) d seen h is =
    subst (Says es silence inner now) (sym is) (first_final-take n es closed h)
decided-Says es silence n now inner (some Event.progress) d seen h is = absurd is
decided-Says es silence n now inner none d seen h (inl (is, lasted)) =
    subst (Says es silence inner now) (sym is) (n, seen, h, lasted)
decided-Says es silence n now inner none d seen h (inr (until, later, is, lasted, early)) =
    subst (Says es silence inner now) (sym is) (n, seen, h, early now later)

look-Says :
    (es : List (ℕ × Event)) (silence n now : ℕ) (inner : Inner)
    → Ascends 0 es
    → inner.tracker ≡ heard opened (take n es)
    → Says es silence inner now (decide inner.tracker now silence)
look-Says es silence n now inner a seen =
    decided-Says es silence n now inner (first_final (take n es)) (decide inner.tracker now silence)
      seen refl
      (subst
        (λ t.
          IsDecided (first_final (take n es)) (last_time 0 (take n es)) silence now
            (decide t now silence))
        (sym seen) (decide-heard (take n es) now silence (Ascends-take n 0 es a)))

abbrev next : ℕ → List (Inner × ℕ) → Decision → Option (Result NotReady (Unit {0}))
next silence later Decision.ready = some (ok tt)
next silence later (not_ready reason) = some (err reason)
next silence later (wait n) = wait_ready silence later

wait_ready-next :
    (silence : ℕ) (inner : Inner) (now : ℕ) (later : List (Inner × ℕ))
    → wait_ready silence ((inner, now) ∷ later)
      ≡ next silence later (decide inner.tracker now silence)
unfolding wait_ready
wait_ready-next silence inner now later = elim (decide inner.tracker now silence) [
  | Decision.ready ↦ refl
  | not_ready reason ↦ refl
  | wait n ↦ refl
]

-- A look that waits leaves the rest to later looks.
waited :
    (es : List (ℕ × Event)) (silence : ℕ) (inner : Inner) (now : ℕ) (later : List (Inner × ℕ))
    (r : Result NotReady (Unit {0}))
    → IsWaiting es silence inner now
    → Returns es silence later r
    → Returns es silence ((inner, now) ∷ later) r
waited es silence inner now later (ok u) quiet tells = tells
waited es silence inner now later (err died) quiet tells = tells
waited es silence inner now later (err malformed) quiet tells = tells
waited es silence inner now later (err silent) quiet tells = inr (quiet, tells)

refused :
    (es : List (ℕ × Event)) (silence : ℕ) (inner : Inner) (now : ℕ) (later : List (Inner × ℕ))
    (reason : NotReady)
    → Says es silence inner now (not_ready reason)
    → Returns es silence ((inner, now) ∷ later) (err reason)
refused es silence inner now later died said = said
refused es silence inner now later malformed said = said
refused es silence inner now later silent said = inl said

goes_on :
    (es : List (ℕ × Event)) (silence : ℕ) (inner : Inner) (now : ℕ) (later : List (Inner × ℕ))
    (o : Option (Result NotReady (Unit {0})))
    → IsWaiting es silence inner now
    → Tells es silence later o
    → Tells es silence ((inner, now) ∷ later) o
goes_on es silence inner now later none quiet tells = (quiet, tells)
goes_on es silence inner now later (some r) quiet tells =
    waited es silence inner now later r quiet tells

looked :
    (es : List (ℕ × Event)) (silence : ℕ) (inner : Inner) (now : ℕ) (later : List (Inner × ℕ))
    (d : Decision)
    → Says es silence inner now d
    → Tells es silence later (wait_ready silence later)
    → Tells es silence ((inner, now) ∷ later) (next silence later d)
looked es silence inner now later Decision.ready said tells = said
looked es silence inner now later (not_ready reason) said tells =
    refused es silence inner now later reason said
looked es silence inner now later (wait remaining) said tells =
    goes_on es silence inner now later (wait_ready silence later) said tells

-- Whatever is ever posted at times that do not fall, and however often the waiter looks at what was
-- posted so far: while it still waits, every look saw nothing final and a silence since the last
-- message that had not lasted yet. When it returns ready, the daemon said ready
-- before anything else that ends its story; when it reports died or malformed, that came first; and
-- when it reports silence, one of its looks saw nothing final and, at its time, a silence that had
-- lasted, while no look before it did.
pub wait_ready-Tells :
    (es : List (ℕ × Event)) (silence : ℕ) (seen : List (Inner × ℕ))
    → Ascends 0 es
    → AllSeen es seen
    → Tells es silence seen (wait_ready silence seen)
wait_ready-Tells es silence [] a s = unfold wait_ready in tt
wait_ready-Tells es silence ((inner, now) ∷ later) a ((n, seen), s) =
    subst (Tells es silence ((inner, now) ∷ later)) (sym (wait_ready-next silence inner now later))
      (looked es silence inner now later (decide inner.tracker now silence)
        (look-Says es silence n now inner a seen) (wait_ready-Tells es silence later a s))
