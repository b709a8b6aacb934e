-- ===== src/Generation/Retiring.antt =====
-- When a generation of src/generation.rs retires, and that it stays retired.
use kunobi_daemon.Common.{
  is_some, ℕ, ◌+◌, ◌-◌, ◌≤◌, ◌<◌, ◌≡◌, refl, sym, ap, ◌∙◌, ◌⊎◌, inl, inr, Bool, true, false, Option,
  none, some, List, [], ◌∷◌, arith, err, length, ltb, ltb→lt, Option-cases,
}
use kunobi_daemon.Generation.{
  Generation, Retirement, idle, drain_expired, with_drain_limit, select, admit, mark_legacy,
  drop_lease, try_retire, retire, limit_passed, moved_backwards,
}
use kunobi_daemon.Generation.Leases.{
  Call, selects, admits, marks, drops, retires, limits, World, pick, step, run, marked_in,
  IsConsistent, opened, history-IsConsistent, pick-length,
}

-- Superseded, or a candidate that was never selected and has outlived its staging.
abbrev pub IsEligible : Generation → ℕ → ℕ → Type 0
IsEligible g lifetime now =
    (g.own < g.selected) ⊎ ((g.staged ≡ true) × (g.selected < g.own) × (lifetime < now - g.started))

-- The drain limit has passed since a newer generation was first selected.
abbrev pub IsExpired : Generation → ℕ → Type 0
IsExpired g now =
    (limit : ℕ) × (since : ℕ) × (g.drain_limit ≡ some limit)
    × (g.superseded_since ≡ some since)
    × (limit ≤ now - since)

IsExpired-of_test :
    (g : Generation) (now : ℕ)
    → limit_passed g.drain_limit g.superseded_since now ≡ true
    → IsExpired g now
IsExpired-of_test g now h = by_fields g.drain_limit g.superseded_since refl refl h
  where
    by_fields :
        (limit since : Option ℕ)
        → g.drain_limit ≡ limit
        → g.superseded_since ≡ since
        → limit_passed limit since now ≡ true
        → IsExpired g now
    by_fields (some limit) (some since) el es t = (limit, since, el, es, ground arith)
    by_fields none since el es t = cc
    by_fields (some limit) none el es t = cc

retire_test :
    (g : Generation) (lifetime now : ℕ) (r : Retirement)
    → (retire g lifetime now).1 ≡ some r
    → IsEligible g lifetime now
      × (((r ≡ idle) × (g.active ≡ 0))
          ⊎ ((r ≡ drain_expired g.active g.legacy)
              × (0 < g.active)
              × (limit_passed g.drain_limit g.superseded_since now ≡ true)))
unfolding retire try_retire
retire_test g lifetime now r e = ground arith

newer_selected :
    (g : Generation) (now : ℕ)
    → is_some g.superseded_since ≡ ltb g.own g.selected
    → IsExpired g now
    → g.own < g.selected
newer_selected g now exact (limit, since, el, es, passed) =
    ltb→lt g.own g.selected (sym exact ∙ ap (λ o. is_some o) es)

-- A generation that a history has led to retires only if it is superseded or was never selected in
-- its staging time; and then either no lease is held, or the drain limit has passed since a newer
-- generation was first selected, and the result says how many leases are held and how many of them
-- are marked.
pub retire_reason :
    (own selected : ℕ) (staged : Bool) (start : ℕ) (cs : List (ℕ × Call)) (lifetime now : ℕ)
    (r : Retirement)
    → let w = run (opened own selected staged start) cs in
      (retire w.generation lifetime now).1 ≡ some r
      → IsEligible w.generation lifetime now
        × (((r ≡ idle) × (w.leases ≡ []))
            ⊎ ((r ≡ drain_expired (length w.leases) (marked_in w.leases))
                × (w.generation.own < w.generation.selected)
                × IsExpired w.generation now))
retire_reason own selected staged start cs lifetime now r e =
    let w : World = run (opened own selected staged start) cs in
    let v : IsConsistent w = history-IsConsistent own selected staged start cs in
    let (eligible, how) = retire_test w.generation lifetime now r e in
    (
      eligible,
      elim how [
        | inl (name, empty) ↦ inl (name, no_leases w.leases (sym v.counted ∙ empty))
        | inr (name, held, passed) ↦
            let expired : IsExpired w.generation now = IsExpired-of_test w.generation now passed in
            inr (
              rw (← v.counted, ← v.legacy_counted) name,
              newer_selected w.generation now v.clock_exact expired,
              expired,
            )
      ],
    )
  where
    no_leases : (l : List Bool) → length l ≡ 0 → l ≡ []
    no_leases [] h = refl
    no_leases (b ∷ l) h = absurd (omega arith)

-- Without a drain limit no retirement happens while a lease is held, whatever the caller asks for.
pub held_keeps :
    (g : Generation) (lifetime now : ℕ) (may_idle may_drain : Bool)
    → g.drain_limit ≡ none
    → 0 < g.active
    → try_retire g lifetime may_idle may_drain now ≡ (g, none)
unfolding try_retire
held_keeps g lifetime now may_idle may_drain no_limit held = ground arith

-- With a limit that has passed, a superseded generation retires whatever leases are held.
pub limit_retires :
    (g : Generation) (lifetime now limit since : ℕ)
    → g.own < g.selected
    → g.drain_limit ≡ some limit
    → g.superseded_since ≡ some since
    → since + limit ≤ now
    → is_some (retire g lifetime now).1 ≡ true
unfolding retire try_retire
limit_retires g lifetime now limit since newer l s passed = ground arith

step_final :
    (w : World) (c : ℕ × Call)
    → w.generation.retired ≡ true
    → ((step w c).generation.retired ≡ true) × (length (step w c).leases ≤ length w.leases)
unfolding step select admit mark_legacy drop_lease try_retire with_drain_limit
step_final w (now, selects n) h = ground arith
step_final w (now, admits) h = ground arith
step_final w (now, marks n) h = elim (Option-cases (pick n w.leases)) [
  | inl gone ↦ rw (gone, step) (h, omega arith)
  | inr ((b, rest), m) ↦ rw (m, step) (ground (arith, pick-length n w.leases rest b m))
]
step_final w (now, drops n) h = elim (Option-cases (pick n w.leases)) [
  | inl gone ↦ rw (gone, step) (h, omega arith)
  | inr ((b, rest), m) ↦ rw (m, step) (ground (arith, pick-length n w.leases rest b m))
]
step_final w (now, retires lifetime may_idle may_drain) h = ground arith
step_final w (now, limits limit) h = ground arith

-- Retirement closes admission for good: after any further calls no lease is given out, and there
-- are no more leases than at the retirement.
pub retired_final :
    (w : World) (cs : List (ℕ × Call))
    → w.generation.retired ≡ true
    → ((admit (run w cs).generation) ≡ ((run w cs).generation, false))
      × (length (run w cs).leases ≤ length w.leases)
unfolding run admit
retired_final w [] h = ground arith
retired_final w (c ∷ cs) h = ground (arith, step_final w c h, retired_final (step w c) cs)

step_forward : (w : World) (c : ℕ × Call) → w.generation.selected ≤ (step w c).generation.selected
unfolding step select admit mark_legacy drop_lease try_retire with_drain_limit
step_forward w (now, selects n) = ground arith
step_forward w (now, admits) = ground arith
step_forward w (now, marks n) = elim (Option-cases (pick n w.leases)) [
  | inl gone ↦ rw (gone, step) (omega arith)
  | inr ((b, rest), m) ↦ rw (m, step) (ground arith)
]
step_forward w (now, drops n) = elim (Option-cases (pick n w.leases)) [
  | inl gone ↦ rw (gone, step) (omega arith)
  | inr ((b, rest), m) ↦ rw (m, step) (ground arith)
]
step_forward w (now, retires lifetime may_idle may_drain) = ground arith
step_forward w (now, limits limit) = omega arith

run_forward :
    (w : World) (cs : List (ℕ × Call)) → w.generation.selected ≤ (run w cs).generation.selected
unfolding run
run_forward w [] = omega arith
run_forward w (c ∷ cs) = omega (arith, step_forward w c, run_forward (step w c) cs)

-- The selection never moves back: after any further calls, an epoch below the one that was selected
-- is refused, and the refusal changes nothing.
pub select_monotone :
    (w : World) (cs : List (ℕ × Call)) (older now : ℕ)
    → older < w.generation.selected
    → (w.generation.selected ≤ (run w cs).generation.selected)
      × (select (run w cs).generation older now ≡ ((run w cs).generation, err moved_backwards))
unfolding select
select_monotone w cs older now h = ground (arith, run_forward w cs)
