-- ===== src/Admission/Budgets.antt =====
-- The budgets of src/admission.rs over any history of admissions and releases.
use kunobi_daemon.Common.{
  ℕ, suc, ◌≤◌, ◌≡◌, inl, inr, Bool, true, false, Option, none, some, List, [], ◌∷◌, arith, ltb,
  if◌then◌else◌, Option-cases,
}
use kunobi_daemon.Common.Words.{u64_max}
use kunobi_daemon.Admission.{
  Pool, handshake, application, control, Limits, Admission, new, capacity, try_acquire, release,
  snapshot,
}

-- The permits held, by pool, in any order of release.
pub data Event : Type 0 where
  acquires drops : Pool → Event

abbrev pub same_pool : Pool → Pool → Bool
same_pool handshake handshake = true
same_pool application application = true
same_pool control control = true
same_pool _ _ = false

abbrev pub held_in : Pool → List Pool → ℕ
held_in p [] = 0
held_in p (q ∷ qs) = if same_pool p q then suc (held_in p qs) else held_in p qs

-- A dropped permit is no longer held; nobody can drop one that is not held.
abbrev pub take_permit : Pool → List Pool → Option (List Pool)
take_permit p [] = none
take_permit p (q ∷ qs) =
    if same_pool p q
    then some qs
    else elim (take_permit p qs) [ none ↦ none | some r ↦ some (q ∷ r) ]

unfoldable pub hold : Option Pool → List Pool → List Pool
hold none held = held
hold (some p) held = p ∷ held

drop_held : Option (List Pool) → Pool → Admission → List Pool → Admission × List Pool
drop_held none p a held = (a, held)
drop_held (some rest) p a held = (release a p, rest)

unfoldable pub step : Admission × List Pool → Event → Admission × List Pool
unfolding hold drop_held
step (a, held) (acquires p) = let (b, permit) = try_acquire a p in (b, hold permit held)
step (a, held) (drops p) = drop_held (take_permit p held) p a held

unfoldable pub run : Admission × List Pool → List Event → Admission × List Pool
run s [] = s
run s (e ∷ es) = run (step s e) es

abbrev pub limit_of : Limits → Pool → ℕ
limit_of l handshake = l.handshakes
limit_of l Pool.application = l.application
limit_of l Pool.control = l.control

-- Each pool counts exactly the permits held in it, within its limit.
abbrev pub Counts : Limits → Admission × List Pool → Type 0
Counts l (a, held) =
    (p : Pool)
    → ((capacity a p).limit ≡ limit_of l p)
      × ((capacity a p).active ≡ held_in p held)
      × ((capacity a p).active ≤ limit_of l p)

held_in-take :
    (p q : Pool) (held rest : List Pool)
    → take_permit p held ≡ some rest
    → held_in q held ≡ (if same_pool q p then suc (held_in q rest) else held_in q rest)
held_in-take p q [] rest e = cc
held_in-take p q (r ∷ held) rest e = elim (Option-cases (take_permit p held)) [
  | inl gone ↦ ground (arith, gone)
  | inr (found, m) ↦ ground (arith, held_in-take p q held found m)
]

-- Dropping the permit of one pool.
pub release-Counts :
    (l : Limits) (a : Admission) (held rest : List Pool) (p : Pool)
    → ((q : Pool) → limit_of l q ≤ u64_max)
    → ((q : Pool)
        → held_in q held ≡ (if same_pool q p then suc (held_in q rest) else held_in q rest))
    → Counts l (a, held)
    → Counts l (release a p, rest)
unfolding release
release-Counts l a held rest p b less h q = ground (arith, h q, h p, b q, less q)

-- Taking a permit, and not getting one.
pub try_acquire-Counts :
    (l : Limits) (a : Admission) (held : List Pool) (p : Pool)
    → Counts l (a, held)
    → Counts l ((try_acquire a p).0, hold (try_acquire a p).1 held)
unfolding try_acquire hold
try_acquire-Counts l a held handshake h p = ground (arith, h p, h handshake)
try_acquire-Counts l a held Pool.application h p = ground (arith, h p, h application)
try_acquire-Counts l a held Pool.control h p = ground (arith, h p, h control)

-- A permit is of the pool that was asked for.
pub try_acquire-pool : (a : Admission) (p q : Pool) → (try_acquire a p).1 ≡ some q → q ≡ p
unfolding try_acquire
try_acquire-pool a p q e = ground arith

step-Counts :
    (l : Limits) (s : Admission × List Pool) (e : Event)
    → ((p : Pool) → limit_of l p ≤ u64_max)
    → Counts l s
    → Counts l (step s e)
unfolding step
step-Counts l (a, held) (acquires q) b h p = try_acquire-Counts l a held q h p
step-Counts l (a, held) (drops q) b h p = elim (Option-cases (take_permit q held)) [
  | inl gone ↦ rw gone (h p)
  | inr (rest, m) ↦ rw m (release-Counts l a held rest q b (λ r. held_in-take q r held rest m) h p)
]

pub new-Counts : (l : Limits) → Counts l (new l, [])
unfolding new
new-Counts l handshake = omega arith
new-Counts l Pool.application = omega arith
new-Counts l Pool.control = omega arith

run-Counts :
    (l : Limits) (s : Admission × List Pool) (events : List Event)
    → ((p : Pool) → limit_of l p ≤ u64_max)
    → Counts l s
    → Counts l (run s events)
unfolding run
run-Counts l s [] b h = h
run-Counts l s (e ∷ events) b h = run-Counts l (step s e) events b (step-Counts l s e b h)

-- The state after a history that starts with no permit.
abbrev pub history : Limits → List Event → Admission × List Pool
history l events = run (new l, []) events

-- After any admissions and releases, in any order and of any pools: each pool reports its own
-- limit and exactly the permits held in it, never more than the limit, and it admits the next
-- session exactly if these are fewer than the limit, whatever the other pools hold.
pub history_exact :
    (l : Limits) (events : List Event) (p : Pool)
    → ((q : Pool) → limit_of l q ≤ u64_max)
    → ((snapshot (history l events).0 p).limit ≡ limit_of l p)
      × ((snapshot (history l events).0 p).active ≡ held_in p (history l events).1)
      × (held_in p (history l events).1 ≤ limit_of l p)
      × ((try_acquire (history l events).0 p).1
          ≡ (if ltb (held_in p (history l events).1) (limit_of l p) then some p else none))
unfolding snapshot try_acquire
history_exact l events p b =
    let counts : Counts l (history l events) = run-Counts l (new l, []) events b (new-Counts l) in
    ground (arith, counts p)

-- Dropping a permit gives back exactly its slot: after an admission and its release every pool is
-- as full as before.
pub release-try_acquire :
    (l : Limits) (events : List Event) (p q : Pool)
    → ((r : Pool) → limit_of l r ≤ u64_max)
    → (try_acquire (history l events).0 p).1 ≡ some p
    → (snapshot (release (try_acquire (history l events).0 p).0 p) q)
      ≡ snapshot (history l events).0 q
unfolding snapshot try_acquire release
release-try_acquire l events p q b e =
    let counts : Counts l (history l events) = run-Counts l (new l, []) events b (new-Counts l) in
    ground (arith, counts p, counts q, b p)
