-- ===== src/Upgrade/Exclusive.antt =====
-- One upgrade at a time, and none that is not needed, for src/upgrade.rs.
use kunobi_daemon.Common.{
  ℕ, ◌≡◌, refl, sym, ap, ◌∙◌, Bool, true, false, Option, none, some, List, [], ◌∷◌, Result, ok, err,
  ◌==◌, ==_iff, if◌then◌else◌, if_either, arith,
}
use mathlib.Core.Path.{subst}
use kunobi_daemon.Upgrade.{
  UpgradeError, probe, replace, lock, deadline, Stage, probing, locking, checking, replacing,
  polling, ended, Outcome, reports, probe_fails, tries_lock, lock_fails, replaced, replace_fails,
  daemon_becomes, expires, World, holds, moved, leave, probed, try_lock, act, run, is_probe,
  is_locking, is_replacing, has_ended, next_stage,
}

-- Between the lock and the end of the call.
abbrev pub is_critical : {T E : Type 0} → Stage T E → Bool
is_critical probing = false
is_critical locking = false
is_critical checking = true
is_critical replacing = true
is_critical polling = true
is_critical (ended r) = false

abbrev pub new : {T E : Type 0} → Option T → World T E
new daemon = record { daemon = daemon; holder = none; stage = λ p. probing }

holds_dropped :
    (p q : ℕ) (holder : Option ℕ)
    → (q == p) ≡ true
    → holds q (if holds p holder then none else holder) ≡ false
holds_dropped p q none e = refl
holds_dropped p q (some r) e = ground arith

holds_kept :
    (p q : ℕ) (holder : Option ℕ)
    → (q == p) ≡ false
    → holds q (if holds p holder then none else holder) ≡ holds q holder
holds_kept p q none e = refl
holds_kept p q (some r) e = ground arith

pub one_holder :
    (p q : ℕ) (holder : Option ℕ) → holds p holder ≡ true → holds q holder ≡ true → p ≡ q
one_holder p q none a b = cc
one_holder p q (some r) a b = ground arith

next_critical :
    {T E : Type 0} (s : Stage T E) → is_probe s ≡ true → is_critical (next_stage s) ≡ is_critical s
next_critical probing e = refl
next_critical locking e = refl
next_critical checking e = refl
next_critical replacing e = refl
next_critical polling e = refl
next_critical (ended r) e = refl

locking_free : {T E : Type 0} (s : Stage T E) → is_locking s ≡ true → is_critical s ≡ false
locking_free probing e = cc
locking_free locking e = refl
locking_free checking e = cc
locking_free replacing e = cc
locking_free polling e = cc
locking_free (ended r) e = refl

pub replacing_critical :
    {T E : Type 0} (s : Stage T E) → is_replacing s ≡ true → is_critical s ≡ true
replacing_critical probing e = cc
replacing_critical locking e = cc
replacing_critical checking e = refl
replacing_critical replacing e = refl
replacing_critical polling e = refl
replacing_critical (ended r) e = cc

module _ {T E : Type 0} (accepts : ℕ → T → Bool) where
  -- What a call that has ended may say.
  abbrev pub Fair : ℕ → Stage T E → Type 0
  Fair p (ended (ok current)) = accepts p current ≡ true
  Fair p (ended (err e)) = Unit {0}
  Fair p probing = Unit {0}
  Fair p locking = Unit {0}
  Fair p checking = Unit {0}
  Fair p replacing = Unit {0}
  Fair p polling = Unit {0}

  pub record IsExclusive (w : World T E) : Type 0 where
    pub locked : (p : ℕ) → is_critical (w.stage p) ≡ holds p w.holder
    pub fair : (p : ℕ) → Fair p (w.stage p)

  moved-Fair :
      (p : ℕ) (s : Stage T E) (w : World T E)
      → Fair p s
      → ((q : ℕ) → Fair q (w.stage q))
      → (q : ℕ) → Fair q (if q == p then s else w.stage q)
  moved-Fair p s w f h q =
      if_either (Fair q) (q == p) (λ e. subst (λ i. Fair i s) (sym ((==_iff q p).0 e)) f) (λ e. h q)

  -- A call that stays on its side of the lock.
  moved-IsExclusive :
      (p : ℕ) (s : Stage T E) (w : World T E)
      → is_critical s ≡ is_critical (w.stage p)
      → Fair p s
      → IsExclusive w
      → IsExclusive (moved accepts p s w)
  moved-IsExclusive p s w same f h = record {
    locked = λ q.
        if_either (λ (t : Stage T E). is_critical t ≡ holds q w.holder) (q == p)
          (λ e. same ∙ (h.locked p ∙ ap (λ i. holds i w.holder) (sym ((==_iff q p).0 e))))
          (λ e. h.locked q);
    fair = moved-Fair p s w f h.fair;
  }

  leave-IsExclusive :
      (p : ℕ) (r : Result (UpgradeError E) T) (w : World T E)
      → Fair p (ended r)
      → IsExclusive w
      → IsExclusive (leave accepts p r w)
  unfolding leave
  leave-IsExclusive p r w f h = record {
    locked = λ q.
        if_either
          (λ (t : Stage T E). is_critical t ≡ holds q (if holds p w.holder then none else w.holder))
          (q == p) (λ e. sym (holds_dropped p q w.holder e))
          (λ e. h.locked q ∙ sym (holds_kept p q w.holder e));
    fair = moved-Fair p (ended r) w f h.fair;
  }

  next-Fair : (p : ℕ) (s : Stage T E) → is_probe s ≡ true → Fair p (next_stage s)
  next-Fair p probing e = tt
  next-Fair p locking e = tt
  next-Fair p checking e = tt
  next-Fair p replacing e = tt
  next-Fair p polling e = tt
  next-Fair p (ended r) e = absurd cc

  probed-IsExclusive :
      (p : ℕ) (next : Stage T E) (d : Option T) (w : World T E)
      → is_critical next ≡ is_critical (w.stage p)
      → Fair p next
      → IsExclusive w
      → IsExclusive (probed accepts p next d w)
  unfolding probed
  probed-IsExclusive p next none w same f h = moved-IsExclusive p next w same f h
  probed-IsExclusive p next (some current) w same f h =
      if_either IsExclusive (accepts p current) (λ e. leave-IsExclusive p (ok current) w e h)
        (λ e. moved-IsExclusive p next w same f h)

  try_lock-IsExclusive :
      (p : ℕ) (holder : Option ℕ) (w : World T E)
      → w.holder ≡ holder
      → IsExclusive w
      → IsExclusive (try_lock accepts p holder w)
  unfolding try_lock
  try_lock-IsExclusive p none w e h = record {
    locked = λ q.
        if_either (λ (t : Stage T E). is_critical t ≡ (q == p)) (q == p) (λ same. sym same)
          (λ other. h.locked q ∙ (ap (holds q) e ∙ sym other));
    fair = moved-Fair p checking w tt h.fair;
  }
  try_lock-IsExclusive p (some q) w e h = h

  replaced-IsExclusive :
      (p : ℕ) (d : Option T) (w : World T E)
      → is_critical (w.stage p) ≡ true
      → IsExclusive w
      → IsExclusive (moved accepts p polling (record w { daemon = d }))
  replaced-IsExclusive p d w c h =
      moved-IsExclusive p polling (record w { daemon = d }) (sym c) tt
        (record { locked = h.locked; fair = h.fair })

  act-IsExclusive :
      (p : ℕ) (outcome : Outcome T E) (w : World T E)
      → IsExclusive w
      → IsExclusive (act accepts p (w.stage p) outcome w)
  unfolding act
  act-IsExclusive p reports w h =
      if_either IsExclusive (is_probe (w.stage p))
        (λ e.
          probed-IsExclusive p (next_stage (w.stage p)) w.daemon w (next_critical (w.stage p) e)
            (next-Fair p (w.stage p) e) h)
        (λ e. h)
  act-IsExclusive p (probe_fails e) w h =
      if_either IsExclusive (is_probe (w.stage p)) (λ s. leave-IsExclusive p (err (probe e)) w tt h)
        (λ s. h)
  act-IsExclusive p tries_lock w h =
      if_either IsExclusive (is_locking (w.stage p)) (λ s. try_lock-IsExclusive p w.holder w refl h)
        (λ s. h)
  act-IsExclusive p (lock_fails e) w h =
      if_either IsExclusive (is_locking (w.stage p))
        (λ s. leave-IsExclusive p (err (lock e)) w tt h) (λ s. h)
  act-IsExclusive p (replaced d) w h =
      if_either IsExclusive (is_replacing (w.stage p))
        (λ s. replaced-IsExclusive p d w (replacing_critical (w.stage p) s) h) (λ s. h)
  act-IsExclusive p (replace_fails e) w h =
      if_either IsExclusive (is_replacing (w.stage p))
        (λ s. leave-IsExclusive p (err (replace e)) w tt h) (λ s. h)
  act-IsExclusive p (daemon_becomes d) w h = record { locked = h.locked; fair = h.fair }
  act-IsExclusive p expires w h =
      if_either IsExclusive (has_ended (w.stage p)) (λ s. h)
        (λ s. leave-IsExclusive p (err deadline) w tt h)

  pub run-IsExclusive :
      (w : World T E) (steps : List (ℕ × Outcome T E))
      → IsExclusive w
      → IsExclusive (run accepts w steps)
  unfolding run
  run-IsExclusive w [] h = h
  run-IsExclusive w ((p, outcome) ∷ steps) h =
      run-IsExclusive (act accepts p (w.stage p) outcome w) steps (act-IsExclusive p outcome w h)

  -- However the calls of any number of processes interleave, with failures, deadlines and daemons that
  -- come and go anywhere: the lock is held by a process exactly while it is between taking the lock
  -- and the end of its call, where the replacement is; so at most one process is there; and a call
  -- succeeds only with an answer that its own test accepts.
  pub upgrade_exclusive :
      (daemon : Option T) (steps : List (ℕ × Outcome T E))
      → let w : World T E = run accepts (new daemon) steps in
        ((p : ℕ) → is_critical (w.stage p) ≡ holds p w.holder)
        × ((p q : ℕ) → is_critical (w.stage p) ≡ true → is_critical (w.stage q) ≡ true → p ≡ q)
        × ((p : ℕ) → Fair p (w.stage p))
  upgrade_exclusive daemon steps =
      let w : World T E = run accepts (new daemon) steps in
      let h = run-IsExclusive (new daemon) steps (record { locked = λ p. refl; fair = λ p. tt }) in
      (
        h.locked,
        λ p q a b. one_holder p q w.holder (sym (h.locked p) ∙ a) (sym (h.locked q) ∙ b),
        h.fair,
      )
