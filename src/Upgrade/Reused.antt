-- ===== src/Upgrade/Reused.antt =====
-- What one upgrader of src/upgrade.rs has replaced, the others use.
use kunobi_daemon.Common.{
  ℕ, ◌≡◌, refl, sym, ◌∙◌, Bool, true, false, Option, none, some, List, [], ◌∷◌, Result, ok, err,
  ◌==◌, ==_iff, if◌then◌else◌, if_either, inl, inr, Bool-cases,
}
use mathlib.Core.Path.{subst}
use kunobi_daemon.Upgrade.{
  UpgradeError, probe, replace, lock, deadline, Stage, ended, checking, Outcome, reports,
  probe_fails, tries_lock, lock_fails, replaced, replace_fails, daemon_becomes, expires, World,
  holds, moved, leave, probed, try_lock, act, run, is_probe, is_locking, is_replacing, has_ended,
  next_stage,
}
use kunobi_daemon.Upgrade.Exclusive.{
  IsExclusive, new, one_holder, replacing_critical, run-IsExclusive,
}

clash : true ≡ false → ⊥
clash e = cc

-- A daemon that is up and that every process accepts.
abbrev pub IsFound : {T : Type 0} → (ℕ → T → Bool) → Option T → Type 0
IsFound accepts none = ⊥
IsFound accepts (some d) = (p : ℕ) → accepts p d ≡ true

module _ {T E : Type 0} (accepts : ℕ → T → Bool) where
  -- The daemon stays up: whatever it becomes by itself is one that every process accepts.
  abbrev pub AllLive : List (ℕ × Outcome T E) → Type 0
  AllLive [] = Unit {0}
  AllLive ((p, daemon_becomes d) ∷ steps) = IsFound accepts d × AllLive steps
  AllLive (_ ∷ steps) = AllLive steps

  pub record IsCurrent (w : World T E) : Type 0 where
    pub current : T
    pub live : w.daemon ≡ some current
    pub accepted : (p : ℕ) → accepts p current ≡ true
    pub quiet : (p : ℕ) → is_replacing (w.stage p) ≡ false

  -- A change of one stage, and of the lock.
  moved-IsCurrent :
      (p : ℕ) (s : Stage T E) (holder : Option ℕ) (w : World T E)
      → is_replacing s ≡ false
      → IsCurrent w
      → IsCurrent (moved accepts p s (record w { holder = holder }))
  moved-IsCurrent p s holder w idle h = record {
    current = h.current;
    live = h.live;
    accepted = h.accepted;
    quiet = λ q.
        if_either (λ (t : Stage T E). is_replacing t ≡ false) (q == p) (λ e. idle) (λ e. h.quiet q);
  }

  leave-IsCurrent :
      (p : ℕ) (r : Result (UpgradeError E) T) (w : World T E)
      → IsCurrent w
      → IsCurrent (leave accepts p r w)
  unfolding leave
  leave-IsCurrent p r w h =
      moved-IsCurrent p (ended r) (if holds p w.holder then none else w.holder) w refl h

  probed-IsCurrent :
      (p : ℕ) (next : Stage T E) (w : World T E)
      → IsCurrent w
      → IsCurrent (probed accepts p next w.daemon w)
  unfolding probed
  probed-IsCurrent p next w h =
      subst (λ d. IsCurrent (probed accepts p next d w)) (sym h.live)
        (if_either IsCurrent (accepts p h.current) (λ e. leave-IsCurrent p (ok h.current) w h)
          (λ e. absurd (clash (sym (h.accepted p) ∙ e))))

  try_lock-IsCurrent :
      (p : ℕ) (holder : Option ℕ) (w : World T E)
      → IsCurrent w
      → IsCurrent (try_lock accepts p holder w)
  unfolding try_lock
  try_lock-IsCurrent p none w h = moved-IsCurrent p checking (some p) w refl h
  try_lock-IsCurrent p (some q) w h = h

  act-IsCurrent :
      (p : ℕ) (outcome : Outcome T E) (w : World T E)
      → AllLive ((p, outcome) ∷ [])
      → IsCurrent w
      → IsCurrent (act accepts p (w.stage p) outcome w)
  unfolding act
  act-IsCurrent p reports w l h =
      if_either IsCurrent (is_probe (w.stage p))
        (λ e. probed-IsCurrent p (next_stage (w.stage p)) w h) (λ e. h)
  act-IsCurrent p (probe_fails e) w l h =
      if_either IsCurrent (is_probe (w.stage p)) (λ s. leave-IsCurrent p (err (probe e)) w h)
        (λ s. h)
  act-IsCurrent p tries_lock w l h =
      if_either IsCurrent (is_locking (w.stage p)) (λ s. try_lock-IsCurrent p w.holder w h) (λ s. h)
  act-IsCurrent p (lock_fails e) w l h =
      if_either IsCurrent (is_locking (w.stage p)) (λ s. leave-IsCurrent p (err (lock e)) w h)
        (λ s. h)
  act-IsCurrent p (replaced d) w l h =
      if_either IsCurrent (is_replacing (w.stage p)) (λ s. absurd (clash (sym s ∙ h.quiet p)))
        (λ s. h)
  act-IsCurrent p (replace_fails e) w l h =
      if_either IsCurrent (is_replacing (w.stage p)) (λ s. leave-IsCurrent p (err (replace e)) w h)
        (λ s. h)
  act-IsCurrent p (daemon_becomes none) w l h = absurd l.0
  act-IsCurrent p (daemon_becomes (some d)) w l h = record {
    current = d;
    live = refl;
    accepted = l.0;
    quiet = h.quiet;
  }
  act-IsCurrent p expires w l h =
      if_either IsCurrent (has_ended (w.stage p)) (λ s. h)
        (λ s. leave-IsCurrent p (err deadline) w h)

  first_live :
      (p : ℕ) (o : Outcome T E) (steps : List (ℕ × Outcome T E))
      → AllLive ((p, o) ∷ steps)
      → AllLive ((p, o) ∷ []) × AllLive steps
  first_live p (daemon_becomes d) steps h = ((h.0, tt), h.1)
  first_live p reports steps h = (tt, h)
  first_live p (probe_fails e) steps h = (tt, h)
  first_live p tries_lock steps h = (tt, h)
  first_live p (lock_fails e) steps h = (tt, h)
  first_live p (replaced d) steps h = (tt, h)
  first_live p (replace_fails e) steps h = (tt, h)
  first_live p expires steps h = (tt, h)

  run-IsCurrent :
      (steps : List (ℕ × Outcome T E)) (w : World T E)
      → AllLive steps
      → IsCurrent w
      → IsCurrent (run accepts w steps)
  unfolding run
  run-IsCurrent [] w l h = h
  run-IsCurrent ((p, o) ∷ steps) w l h =
      let (one, others) = first_live p o steps l in
      run-IsCurrent steps (act accepts p (w.stage p) o w) others (act-IsCurrent p o w one h)

  alone :
      (w : World T E)
      → IsExclusive accepts w
      → (p q : ℕ) → is_replacing (w.stage p) ≡ true
      → (q == p) ≡ false
      → is_replacing (w.stage q) ≡ false
  alone w h p q busy other = elim (Bool-cases (is_replacing (w.stage q))) [
    | inl too ↦
        let same : p ≡ q =
          one_holder p q w.holder (sym (h.locked p) ∙ replacing_critical (w.stage p) busy)
            (sym (h.locked q) ∙ replacing_critical (w.stage q) too) in
        absurd (clash (sym ((==_iff q p).1 (sym same)) ∙ other))
    | inr idle ↦ idle
  ]

  -- One replacement is enough while the daemon stays up: wherever an interleaving of calls has led to
  -- a process whose replacement ends with a daemon that is live and that the test of every process
  -- accepts, no process starts or runs another replacement, in whatever way the calls go on, with
  -- failures and deadlines anywhere, as long as the daemon does not exit and whatever it becomes is
  -- accepted by every process too; and the daemon that a probe finds stays such a one.
  pub upgrade_once :
      (daemon : Option T) (before after : List (ℕ × Outcome T E)) (p : ℕ) (d : T)
      → is_replacing ((run accepts (new daemon) before).stage p) ≡ true
      → ((q : ℕ) → accepts q d ≡ true)
      → AllLive after
      → IsCurrent (run accepts (run accepts (new daemon) before) ((p, replaced (some d)) ∷ after))
  unfolding run act
  upgrade_once daemon before after p d busy fine l =
      let w : World T E = run accepts (new daemon) before in
      let h : IsExclusive accepts w =
        run-IsExclusive accepts (new daemon) before
          (record { locked = λ q. refl; fair = λ q. tt }) in
      run-IsCurrent after (act accepts p (w.stage p) (replaced (some d)) w) l (
        if_either IsCurrent (is_replacing (w.stage p))
          (λ e. record {
            current = d;
            live = refl;
            accepted = fine;
            quiet = λ q.
                if_either (λ (t : Stage T E). is_replacing t ≡ false) (q == p) (λ same. refl)
                  (λ other. alone w h p q busy other);
          })
          (λ e. absurd (clash (sym busy ∙ e))))
