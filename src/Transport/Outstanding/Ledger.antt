-- ===== src/Transport/Outstanding/Ledger.antt =====
-- What the tracked set of src/transport.rs promises: it stands for the list of the requests that
-- nobody has answered.
use kunobi_daemon.Common.{
  ℕ, zero, suc, ◌+◌, ◌-◌, ◌<◌, ◌≡◌, refl, sym, ap, ◌∙◌, Bool, true, false, ◌&&◌, not, Option, none,
  some, List, [], ◌∷◌, arith, ltb, ◌==◌, if◌then◌else◌, length, inl, inr, Bool-cases,
}
use mathlib.Core.Path.{subst}
use kunobi_daemon.Transport.{Key}
use kunobi_daemon.Transport.Outstanding.{
  Requests, Outstanding, settled, wake_if_settled, fresh, clear, fail, failed_keys, end_failing,
  transition, end_transition, check_settled, wait_settled, next_woken, wake_up, next_asleep,
  spurious, get_count, lower, begin, settle_found, settle, Op, begins, settles, clears, fails,
  reported, moves, moved, waits, wakes, stirs, act, run,
}
use kunobi_daemon.Transport.Outstanding.Counts.{
  none_left, erase, one, count, total, AllPositive, total-raise, raise-AllPositive, get_count-none,
  get_count-some, total-lower, lower-AllPositive, count-erase, erase_missing, length-erase,
  no_keys-none_left, total-failed_keys,
}

-- The abstract view: the unanswered requests themselves, whether one was lost count of, and the
-- failures and moves under way.
pub record Ledger (K : Type 0) : Type 0 where
  pub requests : List K
  pub lost : Bool
  pub epoch : ℕ
  pub reporting : ℕ
  pub moving : ℕ

abbrev pub blank : {K : Type 0} → Ledger K
blank = record { requests = []; lost = false; epoch = 0; reporting = 0; moving = 0 }

-- Every reply has reached the client, as far as the peer can owe one.
abbrev pub all_settled : {K : Type 0} → Ledger K → Bool
all_settled l = not l.lost && (l.reporting == 0 && (l.moving == 0 && none_left l.requests))

module _ {K : Type 0} ⦃key : Key K⦄ where
  abbrev pub follow : ℕ → Op K → Ledger K → Ledger K
  follow capacity (begins k) l =
      if ltb (length l.requests) capacity
      then record l { requests = k ∷ l.requests }
      else record l { lost = true }
  follow capacity (settles epoch k) l =
      if epoch == l.epoch then record l { requests = erase k l.requests } else l
  follow capacity clears l = record l { requests = []; lost = false; epoch = l.epoch + 1 }
  follow capacity fails l = record l {
    requests = [];
    lost = false;
    epoch = l.epoch + 1;
    reporting = l.reporting + 1;
  }
  follow capacity reported l = record l { reporting = l.reporting - 1 }
  follow capacity moves l = record l { moving = l.moving + 1 }
  follow capacity moved l = record l { moving = l.moving - 1 }
  follow capacity waits l = l
  follow capacity wakes l = l
  follow capacity stirs l = l

  abbrev pub follow_all : ℕ → List (Op K) → Ledger K → Ledger K
  follow_all capacity [] l = l
  follow_all capacity (op ∷ ops) l = follow_all capacity ops (follow capacity op l)

  pub record Represents (s : Requests K) (l : Ledger K) : Type 0 where
    pub counts : (k : K) → total k s.keys ≡ count k l.requests
    pub positive : AllPositive s.keys
    pub size : s.tracked ≡ length l.requests
    pub same_epoch : s.epoch ≡ l.epoch
    pub same_lost : s.overflowed ≡ l.lost
    pub same_failing : s.failing ≡ l.reporting
    pub same_transitions : s.transitions ≡ l.moving

  Represents-waiters :
      (s : Requests K) (l : Ledger K) (n : ℕ)
      → Represents s l
      → Represents (record s { waiters = n }) l
  Represents-waiters s l n r = record {
    counts = r.counts;
    positive = r.positive;
    size = r.size;
    same_epoch = r.same_epoch;
    same_lost = r.same_lost;
    same_failing = r.same_failing;
    same_transitions = r.same_transitions;
  }

  check_settled-Represents :
      (o : Outstanding K) (l : Ledger K)
      → Represents o.state l
      → Represents (check_settled o).state l
  unfolding check_settled
  check_settled-Represents o l r = elim (Bool-cases (settled o.state)) [
    | inl h ↦ rw h (Represents-waiters o.state l (o.state.waiters - 1) r)
    | inr h ↦ rw h r
  ]

  wake_if_settled-state : (o : Outstanding K) → (wake_if_settled o).state ≡ o.state
  unfolding wake_if_settled
  wake_if_settled-state o = ground arith

  begin-Represents :
      (capacity : ℕ) (k : K) (o : Outstanding K) (l : Ledger K)
      → Represents o.state l
      → Represents (begin capacity k o).state (follow capacity (begins k) l)
  unfolding begin count
  begin-Represents capacity k o l r = elim (Bool-cases (ltb o.state.tracked capacity)) [
    | inl h ↦
        rw (h, ap (λ n. ltb n capacity) (sym r.size) ∙ h)
          (record {
            counts = λ j. total-raise j k o.state.keys ∙ ap (λ n. one j k + n) (r.counts j);
            positive = raise-AllPositive k o.state.keys r.positive;
            size = omega (arith, r.size);
            same_epoch = r.same_epoch;
            same_lost = r.same_lost;
            same_failing = r.same_failing;
            same_transitions = r.same_transitions;
          })
    | inr h ↦
        rw (h, ap (λ n. ltb n capacity) (sym r.size) ∙ h)
          (record {
            counts = r.counts;
            positive = r.positive;
            size = r.size;
            same_epoch = r.same_epoch;
            same_lost = refl;
            same_failing = r.same_failing;
            same_transitions = r.same_transitions;
          })
  ]

  settle_found-Represents :
      (k : K) (c : Option ℕ) (o : Outstanding K) (l : Ledger K)
      → Represents o.state l
      → get_count k o.state.keys ≡ c
      → Represents (settle_found k c o).state (record l { requests = erase k l.requests })
  unfolding settle_found
  settle_found-Represents k none o l r e =
      let same : erase k l.requests ≡ l.requests =
        erase_missing k l.requests (sym (r.counts k) ∙ get_count-none k o.state.keys e) in
      subst (λ js. Represents o.state (record l { requests = js })) (sym same) r
  settle_found-Represents k (some n) o l r e =
      let found : 0 < count k l.requests =
        subst (λ m. 0 < m) (r.counts k) (get_count-some k o.state.keys n r.positive e) in
      rw
        (wake_if_settled-state (record o {
          state = record o.state { keys = lower k o.state.keys; tracked = o.state.tracked - 1 };
        }))
        (record {
          counts = λ j. omega (
            arith,
            total-lower j k o.state.keys n r.positive e,
            count-erase j k l.requests found,
            r.counts j,
          );
          positive = lower-AllPositive k o.state.keys r.positive;
          size = omega (arith, r.size, length-erase k l.requests found);
          same_epoch = r.same_epoch;
          same_lost = r.same_lost;
          same_failing = r.same_failing;
          same_transitions = r.same_transitions;
        })

  Represents-counters :
      (s : Requests K) (l : Ledger K) (f t f' t' : ℕ)
      → f ≡ f'
      → t ≡ t'
      → Represents s l
      → Represents
          (record s { failing = f; transitions = t })
          (record l { reporting = f'; moving = t' })
  Represents-counters s l f t f' t' ef et r = record {
    counts = r.counts;
    positive = r.positive;
    size = r.size;
    same_epoch = r.same_epoch;
    same_lost = r.same_lost;
    same_failing = ef;
    same_transitions = et;
  }

  Represents-emptied :
      (s : Requests K) (l : Ledger K) (f f' : ℕ)
      → f ≡ f'
      → Represents s l
      → Represents
          (record s {
            keys = [];
            tracked = 0;
            epoch = s.epoch + 1;
            overflowed = false;
            failing = f;
          })
          (record l { requests = []; lost = false; epoch = l.epoch + 1; reporting = f' })
  unfolding total count
  Represents-emptied s l f f' ef r = record {
    counts = λ j. refl;
    positive = tt;
    size = refl;
    same_epoch = ap (λ n. n + 1) r.same_epoch;
    same_lost = refl;
    same_failing = ef;
    same_transitions = r.same_transitions;
  }

  woken-Represents :
      (o : Outstanding K) (l : Ledger K)
      → Represents o.state l
      → Represents (wake_if_settled o).state l
  woken-Represents o l r = subst (λ s. Represents s l) (sym (wake_if_settled-state o)) r

  next_woken-Represents :
      (n : ℕ) (o : Outstanding K) (l : Ledger K)
      → Represents o.state l
      → Represents (next_woken n o).state l
  unfolding next_woken
  next_woken-Represents zero o l r = r
  next_woken-Represents (suc n) o l r = check_settled-Represents (record o { woken = n }) l r

  next_asleep-Represents :
      (n : ℕ) (o : Outstanding K) (l : Ledger K)
      → Represents o.state l
      → Represents (next_asleep n o).state l
  unfolding next_asleep
  next_asleep-Represents zero o l r = r
  next_asleep-Represents (suc n) o l r = r

  pub act-Represents :
      (capacity : ℕ) (op : Op K) (o : Outstanding K) (l : Ledger K)
      → Represents o.state l
      → Represents (act capacity op o).state (follow capacity op l)
  unfolding act
  act-Represents capacity (begins k) o l r = begin-Represents capacity k o l r
  act-Represents capacity (settles epoch k) o l r =
      unfold settle in
      (elim (Bool-cases (epoch == o.state.epoch)) [
        | inl h ↦
            rw (h, ap (λ n. epoch == n) (sym r.same_epoch) ∙ h)
              (settle_found-Represents k (get_count k o.state.keys) o l r refl)
        | inr h ↦ rw (h, ap (λ n. epoch == n) (sym r.same_epoch) ∙ h) r
      ])
  act-Represents capacity clears o l r =
      unfold clear in
      (woken-Represents
        (record o {
          state = record o.state {
            keys = [];
            tracked = 0;
            epoch = o.state.epoch + 1;
            overflowed = false;
          };
        })
        (record l { requests = []; lost = false; epoch = l.epoch + 1 })
        (Represents-emptied o.state l o.state.failing l.reporting r.same_failing r))
  act-Represents capacity fails o l r =
      unfold fail in
      (Represents-emptied o.state l (o.state.failing + 1) (l.reporting + 1)
        (ap (λ n. n + 1) r.same_failing) r)
  act-Represents capacity reported o l r =
      unfold end_failing in
      (woken-Represents (record o { state = record o.state { failing = o.state.failing - 1 } })
        (record l { reporting = l.reporting - 1 })
        (Represents-counters o.state l (o.state.failing - 1) o.state.transitions (l.reporting - 1)
          l.moving (ap (λ n. n - 1) r.same_failing) r.same_transitions r))
  act-Represents capacity moves o l r =
      unfold transition in
      (Represents-counters o.state l o.state.failing (o.state.transitions + 1) l.reporting
        (l.moving + 1) r.same_failing (ap (λ n. n + 1) r.same_transitions) r)
  act-Represents capacity moved o l r =
      unfold end_transition in
      (woken-Represents
        (record o { state = record o.state { transitions = o.state.transitions - 1 } })
        (record l { moving = l.moving - 1 })
        (Represents-counters o.state l o.state.failing (o.state.transitions - 1) l.reporting
          (l.moving - 1) r.same_failing (ap (λ n. n - 1) r.same_transitions) r))
  act-Represents capacity waits o l r =
      unfold wait_settled in
      (check_settled-Represents
        (record o { state = record o.state { waiters = o.state.waiters + 1 } }) l
        (Represents-waiters o.state l (o.state.waiters + 1) r))
  act-Represents capacity wakes o l r = unfold wake_up in (next_woken-Represents o.woken o l r)
  act-Represents capacity stirs o l r = unfold spurious in (next_asleep-Represents o.asleep o l r)

  settled-all_settled : (s : Requests K) (l : Ledger K) → Represents s l → settled s ≡ all_settled l
  unfolding settled
  settled-all_settled s l r =
      rw
        (
          r.same_lost,
          r.same_failing,
          r.same_transitions,
          no_keys-none_left s.keys l.requests r.counts r.positive,
        )
        refl

  pub run-Represents :
      (capacity : ℕ) (ops : List (Op K)) (o : Outstanding K) (l : Ledger K)
      → Represents o.state l
      → Represents (run capacity ops o).state (follow_all capacity ops l)
  unfolding run
  run-Represents capacity [] o l r = r
  run-Represents capacity (op ∷ ops) o l r =
      run-Represents capacity ops (act capacity op o) (follow capacity op l)
        (act-Represents capacity op o l r)

  pub blank-Represents : Represents fresh.state blank
  unfolding total count
  blank-Represents = record {
    counts = λ j. refl;
    positive = tt;
    size = refl;
    same_epoch = refl;
    same_lost = refl;
    same_failing = refl;
    same_transitions = refl;
  }

  -- After any history, the tracked set stands for the unanswered requests of that history: it is
  -- settled exactly when there are none, none was lost count of, and no failure or move is under
  -- way; it counts their number; and a failure reports each key as often as it has requests.
  pub run-Ledger :
      (capacity : ℕ) (ops : List (Op K))
      → let o : Outstanding K = run capacity ops fresh in
        let l : Ledger K = follow_all capacity ops blank in
        (settled o.state ≡ all_settled l)
        × (o.state.tracked ≡ length l.requests)
        × ((k : K) → count k (failed_keys (fail o).1) ≡ count k l.requests)
  unfolding fail
  run-Ledger capacity ops =
      let r = run-Represents capacity ops fresh blank blank-Represents in
      (
        settled-all_settled _ _ r,
        r.size,
        λ k. total-failed_keys k (run capacity ops fresh).state.keys ∙ r.counts k,
      )
