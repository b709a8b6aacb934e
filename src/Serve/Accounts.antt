-- ===== src/Serve/Accounts.antt =====
-- The accept loop of src/serve.rs over any run: its permits, its grants and its counts.
use kunobi_daemon.Common.{
  some_inj, ℕ, zero, suc, ◌+◌, ◌≤◌, ◌≡◌, refl, sym, ap, ◌∙◌, Bool, true, is_none, Option, none,
  some, List, [], ◌∷◌, Result, ok, err, if◌then◌else◌, if_either, arith, inl, inr, Option-cases,
}
use mathlib.Core.Path.{subst}
use kunobi_daemon.Common.Words.{u64_max}
use kunobi_daemon.Admission.{Pool, Limits, Admission, capacity, new, try_acquire, release}
use kunobi_daemon.Admission.Budgets.{
  Counts, held_in, hold, limit_of, new-Counts, release-Counts, same_pool, try_acquire-Counts,
  try_acquire-pool,
}
use kunobi_daemon.Lifecycle
use kunobi_daemon.Lifecycle.{accepting_calls}
use kunobi_daemon.Peer.{Credentials, Rejected, Policy, Authenticated, authenticate}
use kunobi_daemon.Peer.Policies.{authenticate_iff}
use kunobi_daemon.Serve.{
  Served, nobody, is_descriptor_exhaustion, Handler, Serving, Event, drains, joins, accepts, fails,
  behind, nth_handler, joined, turn_away, drain_meanwhile, admit, greet, accept, turn, goes_on,
  serve, finish_all, finish,
}

abbrev pub pools : {C G : Type 0} → List (Handler C G) → List Pool
pools [] = []
pools (h ∷ handlers) = h.pool ∷ pools handlers

-- Each handler has what the policy grants its own peer, and a permit of the pool for that.
abbrev pub AllGranted : {C G : Type 0} → Policy G → (G → Pool) → List (Handler C G) → Type 0
AllGranted policy pool [] = Unit {0}
AllGranted policy pool (h ∷ handlers) =
    (policy h.peer.credentials ≡ ok h.peer.grant)
    × (h.pool ≡ pool h.peer.grant)
    × AllGranted policy pool handlers

abbrev pub opened : {C G : Type 0} → Limits → Serving C G
opened limits = record {
  lifecycle = Lifecycle.new;
  admission = new limits;
  served = nobody;
  handlers = [];
  stopped = none;
}

abbrev pub is_accept : {C : Type 0} → Event C → ℕ
is_accept (accepts x evidence meanwhile) = 1
is_accept (drains now) = 0
is_accept (joins n) = 0
is_accept (fails error) = 0

-- The connections that were accepted.
abbrev pub accepted : {C : Type 0} → List (Event C) → ℕ
accepted [] = 0
accepted (e ∷ events) = is_accept e + accepted events

-- The connections that were counted.
abbrev pub answered : Served → ℕ
answered v = v.admitted + (v.unauthenticated + v.over_capacity)

none-some : {A : Type 0} {a : A} → none ≡ some a → ⊥
none-some e = cc

module _ {C G : Type 0} (limits : Limits) (policy : Policy G) (pool : G → Pool)
    (small : (p : Pool) → limit_of limits p ≤ u64_max) where
  record IsSafe (s : Serving C G) : Type 0 where
    counted : Counts limits (s.admission, pools s.handlers)
    granted : AllGranted policy pool s.handlers

  -- What is left when one handler has ended.
  Splits : List (Handler C G) → Handler C G × List (Handler C G) → Type 0
  Splits handlers (h, rest) =
      ((q : Pool)
        → held_in q (pools handlers)
          ≡ (if same_pool q h.pool then suc (held_in q (pools rest)) else held_in q (pools rest)))
      × (AllGranted policy pool handlers → AllGranted policy pool rest)

  nth_handler-Splits :
      (n : ℕ) (handlers : List (Handler C G)) (r : Handler C G × List (Handler C G))
      → nth_handler n handlers ≡ some r
      → Splits handlers r
  unfolding nth_handler Splits
  nth_handler-Splits n [] r e = cc
  nth_handler-Splits zero (h ∷ handlers) r e =
      let found : some (h, handlers) ≡ some r = e in
      subst (Splits (h ∷ handlers)) (some_inj found) (λ q. refl, λ g. g.2)
  nth_handler-Splits (suc n) (h ∷ handlers) r e = elim (Option-cases (nth_handler n handlers)) [
    | inl gone ↦ absurd (none-some (sym (ap (behind h) gone) ∙ e))
    | inr (found, m) ↦
        let (less, kept) = nth_handler-Splits n handlers found m in
        subst (Splits (h ∷ handlers)) (some_inj (sym (ap (behind h) m) ∙ e))
          (λ q. ground (arith, less q), λ g. (g.0, g.1, kept g.2))
  ]

  joined-IsSafe :
      (n : ℕ) (s : Serving C G) → IsSafe s → IsSafe (joined (nth_handler n s.handlers) s)
  unfolding joined Splits
  joined-IsSafe n s h = elim (Option-cases (nth_handler n s.handlers)) [
    | inl gone ↦ subst (λ o. IsSafe (joined o s)) (sym gone) h
    | inr (found, m) ↦
        let (less, kept) = nth_handler-Splits n s.handlers found m in
        subst (λ o. IsSafe (joined o s)) (sym m)
          (record {
            counted =
                release-Counts limits s.admission (pools s.handlers) (pools found.1) found.0.pool
                  small less h.counted;
            granted = kept h.granted;
          })
  ]

  admit-IsSafe :
      (meanwhile : Option ℕ) (a : Authenticated C G) (s : Serving C G) (r : Admission × Option Pool)
      → policy a.credentials ≡ ok a.grant
      → try_acquire s.admission (pool a.grant) ≡ r
      → IsSafe s
      → IsSafe (admit meanwhile a r s)
  unfolding admit hold
  admit-IsSafe meanwhile a s (admission, none) g e h =
      let counts =
        subst (λ r. Counts limits (r.0, hold r.1 (pools s.handlers))) e
          (try_acquire-Counts limits s.admission (pools s.handlers) (pool a.grant) h.counted) in
      record { counted = counts; granted = h.granted }
  admit-IsSafe meanwhile a s (admission, some p) g e h =
      let counts =
        subst (λ r. Counts limits (r.0, hold r.1 (pools s.handlers))) e
          (try_acquire-Counts limits s.admission (pools s.handlers) (pool a.grant) h.counted) in
      if_either IsSafe (accepting_calls (drain_meanwhile meanwhile s.lifecycle))
        (λ o. record {
          counted = counts;
          granted = (g, try_acquire-pool s.admission (pool a.grant) p (ap (λ r. r.1) e), h.granted);
        })
        (λ o. record {
          counted =
              release-Counts limits admission (p ∷ pools s.handlers) (pools s.handlers) p small
                (λ q. refl) counts;
          granted = h.granted;
        })

  turn_away-IsSafe :
      (meanwhile : Option ℕ) (s : Serving C G) → IsSafe s → IsSafe (turn_away meanwhile s)
  unfolding turn_away
  turn_away-IsSafe meanwhile s h = record { counted = h.counted; granted = h.granted }

  greet-IsSafe :
      (meanwhile : Option ℕ) (x : C) (c : Credentials) (s : Serving C G)
      (r : Result Rejected (Authenticated C G))
      → authenticate x c policy ≡ r
      → IsSafe s
      → IsSafe (greet pool meanwhile r s)
  unfolding greet
  greet-IsSafe meanwhile x c s (err reason) e h = turn_away-IsSafe meanwhile s h
  greet-IsSafe meanwhile x c s (ok a) e h =
      let (same, own, granted) = (authenticate_iff x c policy a).0 e in
      admit-IsSafe meanwhile a s (try_acquire s.admission (pool a.grant)) (ap policy own ∙ granted)
        refl h

  accept-IsSafe :
      (x : C) (evidence : Option Credentials) (meanwhile : Option ℕ) (s : Serving C G)
      → IsSafe s
      → IsSafe (accept policy pool x evidence meanwhile s)
  unfolding accept
  accept-IsSafe x none meanwhile s h = turn_away-IsSafe meanwhile s h
  accept-IsSafe x (some c) meanwhile s h =
      greet-IsSafe meanwhile x c s (authenticate x c policy) refl h

  turn-IsSafe : (e : Event C) (s : Serving C G) → IsSafe s → IsSafe (turn policy pool e s)
  unfolding turn
  turn-IsSafe (drains now) s h = record { counted = h.counted; granted = h.granted }
  turn-IsSafe (joins n) s h = joined-IsSafe n s h
  turn-IsSafe (accepts x evidence meanwhile) s h = accept-IsSafe x evidence meanwhile s h
  turn-IsSafe (fails error) s h =
      if_either IsSafe (is_descriptor_exhaustion error) (λ e. h)
        (λ e. record { counted = h.counted; granted = h.granted })

  serve-IsSafe :
      (events : List (Event C)) (s : Serving C G) → IsSafe s → IsSafe (serve policy pool events s)
  unfolding serve
  serve-IsSafe [] s h = h
  serve-IsSafe (e ∷ events) s h =
      if_either IsSafe (goes_on s)
        (λ g. serve-IsSafe events (turn policy pool e s) (turn-IsSafe e s h))
        (λ g. record { counted = h.counted; granted = h.granted })

  finish_all-Counts :
      (handlers : List (Handler C G)) (fates : List Bool) (admission : Admission) (aborted : ℕ)
      → Counts limits (admission, pools handlers)
      → Counts limits ((finish_all handlers fates (admission, aborted)).0, [])
  unfolding finish_all
  finish_all-Counts [] fates admission aborted h = h
  finish_all-Counts (k ∷ handlers) [] admission aborted h =
      finish_all-Counts handlers [] (release admission k.pool) aborted (
        release-Counts limits admission (k.pool ∷ pools handlers) (pools handlers) k.pool small
          (λ q. refl) h)
  finish_all-Counts (k ∷ handlers) (cancelled ∷ fates) admission aborted h =
      finish_all-Counts handlers fates (release admission k.pool)
        (if cancelled then aborted + 1 else aborted)
        (release-Counts limits admission (k.pool ∷ pools handlers) (pools handlers) k.pool small
          (λ q. refl) h)

  -- However an accept loop runs, with peers of any kind, handlers that end in any order, drains and
  -- errors: every running handler has exactly what the policy grants its own peer, and a permit of
  -- the pool for that grant; each pool counts exactly the permits of the handlers, within its limit;
  -- and once the loop has finished, whichever handlers had to be cancelled, every permit is back.
  pub serve_safe :
      (events : List (Event C)) (fates : List Bool)
      → let s : Serving C G = serve policy pool events (opened limits) in
        AllGranted policy pool s.handlers
        × ((p : Pool)
            → ((capacity s.admission p).active ≡ held_in p (pools s.handlers))
              × ((capacity s.admission p).active ≤ limit_of limits p)
              × ((capacity (finish fates s).admission p).active ≡ 0))
  unfolding finish
  serve_safe events fates =
      let s : Serving C G = serve policy pool events (opened limits) in
      let h =
        serve-IsSafe events (opened limits)
          (record { counted = new-Counts limits; granted = tt }) in
      (
        h.granted,
        λ p. (
          (h.counted p).1,
          (h.counted p).2,
          (finish_all-Counts s.handlers fates s.admission 0 h.counted p).1,
        ),
      )

  -- Told once, and in one way, unless the loop stops here.
  admit-answered :
      (meanwhile : Option ℕ) (a : Authenticated C G) (s : Serving C G) (r : Admission × Option Pool)
      → is_none (admit meanwhile a r s).stopped ≡ true
      → answered (admit meanwhile a r s).served ≡ answered s.served + 1
  unfolding admit
  admit-answered meanwhile a s (admission, none) e = omega arith
  admit-answered meanwhile a s (admission, some p) e =
      if_either
        (λ (t : Serving C G). is_none t.stopped ≡ true → answered t.served ≡ answered s.served + 1)
        (accepting_calls (drain_meanwhile meanwhile s.lifecycle)) (λ o t. omega arith) (λ o t. cc) e

  greet-answered :
      (meanwhile : Option ℕ) (s : Serving C G) (r : Result Rejected (Authenticated C G))
      → is_none (greet pool meanwhile r s).stopped ≡ true
      → answered (greet pool meanwhile r s).served ≡ answered s.served + 1
  unfolding greet
  greet-answered meanwhile s (err reason) e = unfold turn_away in (omega arith)
  greet-answered meanwhile s (ok a) e =
      admit-answered meanwhile a s (try_acquire s.admission (pool a.grant)) e

  joined-served :
      (n : ℕ) (s : Serving C G) → (joined (nth_handler n s.handlers) s).served ≡ s.served
  unfolding joined
  joined-served n s = elim (Option-cases (nth_handler n s.handlers)) [
    | inl gone ↦ ap (λ o. (joined o s).served) gone
    | inr (found, m) ↦ ap (λ o. (joined o s).served) m
  ]

  turn-answered :
      (e : Event C) (s : Serving C G)
      → is_none (turn policy pool e s).stopped ≡ true
      → answered (turn policy pool e s).served ≡ answered s.served + is_accept e
  unfolding turn accept
  turn-answered (drains now) s h = omega arith
  turn-answered (joins n) s h = ap answered (joined-served n s) ∙ (omega arith)
  turn-answered (accepts x none meanwhile) s h = unfold turn_away in (omega arith)
  turn-answered (accepts x (some c) meanwhile) s h =
      greet-answered meanwhile s (authenticate x c policy) h
  turn-answered (fails error) s h =
      if_either
        (λ (t : Serving C G). is_none t.stopped ≡ true → answered t.served ≡ answered s.served + 0)
        (is_descriptor_exhaustion error) (λ e t. omega arith) (λ e t. cc) h

  -- A loop that has stopped stays so.
  serve_stopped :
      (events : List (Event C)) (s : Serving C G)
      → is_none (serve policy pool events s).stopped ≡ true
      → is_none s.stopped ≡ true
  unfolding serve
  serve_stopped [] s h = h
  serve_stopped (e ∷ events) s h =
      if_either (λ (t : Serving C G). is_none t.stopped ≡ true → is_none s.stopped ≡ true)
        (goes_on s) (λ g t. ground (arith, g)) (λ g t. cc) h

  serve-answered :
      (events : List (Event C)) (s : Serving C G)
      → is_none (serve policy pool events s).stopped ≡ true
      → answered (serve policy pool events s).served ≡ answered s.served + accepted events
  unfolding serve
  serve-answered [] s h = omega arith
  serve-answered (e ∷ events) s h =
      if_either
        (λ (t : Serving C G).
          is_none t.stopped ≡ true
          → answered t.served ≡ answered s.served + (is_accept e + accepted events))
        (goes_on s)
        (λ g t. omega (
          arith,
          serve-answered events (turn policy pool e s) t,
          turn-answered e s (serve_stopped events (turn policy pool e s) t),
        ))
        (λ g t. cc) h

  -- While an accept loop runs, each connection that it accepted is counted once: as admitted, as
  -- unauthenticated or as over capacity.
  pub serve_counted :
      (events : List (Event C))
      → (serve policy pool events (opened limits)).stopped ≡ none
      → answered (serve policy pool events (opened limits)).served ≡ accepted events
  serve_counted events h = serve-answered events (opened limits) (ap is_none h) ∙ (omega arith)
