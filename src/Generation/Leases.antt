-- ===== src/Generation/Leases.antt =====
-- The session leases of src/generation.rs over any history of calls.
use kunobi_daemon.Common.{
  is_some, ℕ, zero, suc, ◌≡◌, inl, inr, Bool, true, false, Option, none, some, List, [], ◌∷◌, arith,
  length, ltb, if◌then◌else◌, Option-cases,
}
use kunobi_daemon.Generation.{
  Generation, new, with_drain_limit, select, admit, mark_legacy, drop_lease, try_retire,
}

-- A lease is named by its place in the list of those that are held.
pub data Call : Type 0 where
  selects : ℕ → Call
  admits : Call
  marks drops : ℕ → Call
  retires : ℕ → Bool → Bool → Call
  limits : ℕ → Call

-- A generation and the held leases, each with its own mark.
pub record World : Type 0 where
  pub generation : Generation
  pub leases : List Bool

-- Take a lease out of the list.
abbrev pub pick : ℕ → List Bool → Option (Bool × List Bool)
pick n [] = none
pick zero (b ∷ bs) = some (b, bs)
pick (suc n) (b ∷ bs) = elim (pick n bs) [ none ↦ none | some (c, rest) ↦ some (c, b ∷ rest) ]

admitted : Generation × Bool → List Bool → World
admitted (g, true) leases = record { generation = g; leases = false ∷ leases }
admitted (g, false) leases = record { generation = g; leases = leases }

marked : Generation × Bool → List Bool → World
marked (g, legacy) rest = record { generation = g; leases = legacy ∷ rest }

unfoldable pub step : World → ℕ × Call → World
unfolding admitted marked
step w (now, selects n) = record w { generation = (select w.generation n now).0 }
step w (now, admits) = admitted (admit w.generation) w.leases
step w (now, marks n) = elim (pick n w.leases) [
  | none ↦ w
  | some (legacy, rest) ↦ marked (mark_legacy w.generation legacy) rest
]
step w (now, drops n) = elim (pick n w.leases) [
  | none ↦ w
  | some (legacy, rest) ↦ record { generation = drop_lease w.generation legacy; leases = rest }
]
step w (now, retires lifetime may_idle may_drain) = record w {
  generation = (try_retire w.generation lifetime may_idle may_drain now).0;
}
step w (now, limits limit) = record w { generation = with_drain_limit w.generation limit }

unfoldable pub run : World → List (ℕ × Call) → World
run w [] = w
run w (c ∷ cs) = run (step w c) cs

abbrev pub marked_in : List Bool → ℕ
marked_in [] = 0
marked_in (b ∷ bs) = if b then suc (marked_in bs) else marked_in bs

pub record IsConsistent (w : World) : Type 0 where
  pub counted : w.generation.active ≡ length w.leases
  pub legacy_counted : w.generation.legacy ≡ marked_in w.leases
  pub clock_exact :
      is_some w.generation.superseded_since ≡ ltb w.generation.own w.generation.selected

pub pick-length :
    (n : ℕ) (bs rest : List Bool) (b : Bool)
    → pick n bs ≡ some (b, rest)
    → (length bs ≡ suc (length rest))
      × (marked_in bs ≡ (if b then suc (marked_in rest) else marked_in rest))
pick-length n [] rest b e = cc
pick-length zero (c ∷ bs) rest b e = ground arith
pick-length (suc n) (c ∷ bs) rest b e = elim (Option-cases (pick n bs)) [
  | inl gone ↦ ground (arith, gone)
  | inr ((d, tail), m) ↦ ground (arith, m, pick-length n bs tail d m)
]

pub new-IsConsistent :
    (own selected : ℕ) (staged : Bool) (now : ℕ)
    → IsConsistent (record { generation = new own selected staged now; leases = [] })
unfolding new
new-IsConsistent own selected staged now = ground arith

pub step-IsConsistent : (w : World) (c : ℕ × Call) → IsConsistent w → IsConsistent (step w c)
unfolding step select admit mark_legacy drop_lease try_retire with_drain_limit
step-IsConsistent w (now, selects n) h = ground arith
step-IsConsistent w (now, admits) h = ground arith
step-IsConsistent w (now, marks n) h = elim (Option-cases (pick n w.leases)) [
  | inl gone ↦ rw (gone, step) h
  | inr ((b, rest), m) ↦ rw (m, step) (ground (arith, pick-length n w.leases rest b m))
]
step-IsConsistent w (now, drops n) h = elim (Option-cases (pick n w.leases)) [
  | inl gone ↦ rw (gone, step) h
  | inr ((b, rest), m) ↦ rw (m, step) (ground (arith, pick-length n w.leases rest b m))
]
step-IsConsistent w (now, retires lifetime may_idle may_drain) h = ground arith
step-IsConsistent w (now, limits limit) h = ground arith

pub run-IsConsistent : (w : World) (cs : List (ℕ × Call)) → IsConsistent w → IsConsistent (run w cs)
unfolding run
run-IsConsistent w [] h = h
run-IsConsistent w (c ∷ cs) h = run-IsConsistent (step w c) cs (step-IsConsistent w c h)

abbrev pub opened : ℕ → ℕ → Bool → ℕ → World
opened own selected staged now = record { generation = new own selected staged now; leases = [] }

-- After any calls at any times, a generation counts exactly the leases that are held and those of
-- them that are marked, and its drain clock is set exactly if a newer generation is selected.
pub history-IsConsistent :
    (own selected : ℕ) (staged : Bool) (start : ℕ) (cs : List (ℕ × Call))
    → IsConsistent (run (opened own selected staged start) cs)
history-IsConsistent own selected staged start cs =
    run-IsConsistent (opened own selected staged start) cs
      (new-IsConsistent own selected staged start)
