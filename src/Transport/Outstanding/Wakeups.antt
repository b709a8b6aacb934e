-- ===== src/Transport/Outstanding/Wakeups.antt =====
-- The callers of `wait_settled` of src/transport.rs: none stays asleep once everything is settled.
use kunobi_daemon.Common.{
  ℕ, zero, suc, ◌+◌, ◌≡◌, refl, ◌∙◌, true, false, ◌&&◌, Option, none, some, List, [], ◌∷◌, arith,
  ltb, ◌==◌, inl, inr, Bool-cases,
}
use kunobi_daemon.Transport.{Key}
use kunobi_daemon.Transport.Outstanding.{
  Outstanding, settled, must_wake, wake_if_settled, fresh, clear, fail, end_failing, transition,
  end_transition, check_settled, wait_settled, next_woken, wake_up, next_asleep, spurious, no_keys,
  get_count, raise, begin, settle_found, settle, Op, begins, settles, clears, fails, reported,
  moves, moved, waits, wakes, stirs, act, run,
}

-- Every caller is counted, and none is asleep in a settled set.
pub record IsAwake {K : Type 0} (o : Outstanding K) : Type 0 where
  pub counted : o.state.waiters ≡ o.asleep + o.woken
  pub none_asleep : settled o.state ≡ true → o.asleep ≡ 0

wake_if_settled-IsAwake :
    {K : Type 0} (o : Outstanding K)
    → o.state.waiters ≡ o.asleep + o.woken
    → IsAwake (wake_if_settled o)
unfolding wake_if_settled must_wake
wake_if_settled-IsAwake o h = elim (Bool-cases (ltb 0 o.state.waiters && settled o.state)) [
  | inl w ↦ rw w (record { counted = omega (arith, h); none_asleep = λ s. refl })
  | inr w ↦ rw w (record { counted = h; none_asleep = λ s. ground (arith, h, w, s) })
]

-- The mutex's holder is counted, and neither asleep nor woken.
check_settled-IsAwake :
    {K : Type 0} (o : Outstanding K)
    → o.state.waiters ≡ suc (o.asleep + o.woken)
    → (settled o.state ≡ true → o.asleep ≡ 0)
    → IsAwake (check_settled o)
unfolding check_settled settled
check_settled-IsAwake o h n = elim (Bool-cases (settled o.state)) [
  | inl s ↦ rw s (record { counted = omega (arith, h); none_asleep = n })
  | inr s ↦ rw s (record { counted = omega (arith, h); none_asleep = λ t. cc })
]

-- An update that cannot settle the set leaves its callers as they are.
unsettled-IsAwake :
    {K : Type 0} (o o' : Outstanding K)
    → o'.state.waiters ≡ o.state.waiters
    → o'.asleep ≡ o.asleep
    → o'.woken ≡ o.woken
    → (settled o'.state ≡ true → settled o.state ≡ true)
    → IsAwake o
    → IsAwake o'
unsettled-IsAwake o o' w a v s h = record {
  counted = omega (arith, w, a, v, h.counted);
  none_asleep = λ t. a ∙ h.none_asleep (s t);
}

next_woken-IsAwake :
    {K : Type 0} (n : ℕ) (o : Outstanding K) → o.woken ≡ n → IsAwake o → IsAwake (next_woken n o)
unfolding next_woken
next_woken-IsAwake zero o e h = h
next_woken-IsAwake (suc n) o e h =
    check_settled-IsAwake (record o { woken = n }) (omega (arith, h.counted, e)) h.none_asleep

next_asleep-IsAwake :
    {K : Type 0} (n : ℕ) (o : Outstanding K) → o.asleep ≡ n → IsAwake o → IsAwake (next_asleep n o)
unfolding next_asleep
next_asleep-IsAwake zero o e h = h
next_asleep-IsAwake (suc n) o e h = record {
  counted = omega (arith, h.counted, e);
  none_asleep = λ s. absurd (omega (arith, h.none_asleep s, e));
}

next_woken-settled :
    {K : Type 0} (m : ℕ) (o : Outstanding K) (n : ℕ)
    → m ≡ suc n
    → settled o.state ≡ true
    → (settled (next_woken m o).state ≡ true) × ((next_woken m o).woken ≡ n)
unfolding next_woken check_settled
next_woken-settled zero o n e s = absurd (omega (arith, e))
next_woken-settled (suc m) o n e s = rw s (unfold settled in s, omega (arith, e))

module _ {K : Type 0} ⦃key : Key K⦄ where
  raise-no_keys : (k : K) (keys : List (K × ℕ)) → no_keys (raise k keys) ≡ false
  unfolding raise
  raise-no_keys k [] = refl
  raise-no_keys k ((j, n) ∷ keys) = ground arith

  begin-IsAwake :
      (capacity : ℕ) (k : K) (o : Outstanding K) → IsAwake o → IsAwake (begin capacity k o)
  begin-IsAwake capacity k o h =
      unsettled-IsAwake o (begin capacity k o) (unfold begin in ground arith)
        (unfold begin in ground arith) (unfold begin in ground arith)
        (unfold begin settled in ground (arith, raise-no_keys k o.state.keys)) h

  settle_found-IsAwake :
      (k : K) (c : Option ℕ) (o : Outstanding K) → IsAwake o → IsAwake (settle_found k c o)
  unfolding settle_found
  settle_found-IsAwake k none o h = h
  settle_found-IsAwake k (some n) o h = wake_if_settled-IsAwake _ h.counted

  act-IsAwake :
      (capacity : ℕ) (op : Op K) (o : Outstanding K) → IsAwake o → IsAwake (act capacity op o)
  unfolding act
  act-IsAwake capacity (begins k) o h = begin-IsAwake capacity k o h
  act-IsAwake capacity (settles epoch k) o h =
      unfold settle in
      (elim (Bool-cases (epoch == o.state.epoch)) [
        | inl e ↦ rw e (settle_found-IsAwake k (get_count k o.state.keys) o h)
        | inr e ↦ rw e h
      ])
  act-IsAwake capacity clears o h = unfold clear in (wake_if_settled-IsAwake _ h.counted)
  act-IsAwake capacity fails o h =
      unsettled-IsAwake o (fail o).0 (unfold fail in refl) (unfold fail in refl)
        (unfold fail in refl) (unfold fail settled in ground arith) h
  act-IsAwake capacity reported o h = unfold end_failing in (wake_if_settled-IsAwake _ h.counted)
  act-IsAwake capacity moves o h =
      unsettled-IsAwake o (transition o) (unfold transition in refl) (unfold transition in refl)
        (unfold transition in refl) (unfold transition settled in ground arith) h
  act-IsAwake capacity moved o h = unfold end_transition in (wake_if_settled-IsAwake _ h.counted)
  act-IsAwake capacity waits o h =
      unfold wait_settled in
      (check_settled-IsAwake (record o { state = record o.state { waiters = o.state.waiters + 1 } })
        (omega (arith, h.counted)) (unfold settled in h.none_asleep))
  act-IsAwake capacity wakes o h = unfold wake_up in (next_woken-IsAwake o.woken o refl h)
  act-IsAwake capacity stirs o h = unfold spurious in (next_asleep-IsAwake o.asleep o refl h)

  run-IsAwake :
      (capacity : ℕ) (ops : List (Op K)) (o : Outstanding K)
      → IsAwake o
      → IsAwake (run capacity ops o)
  unfolding run
  run-IsAwake capacity [] o h = h
  run-IsAwake capacity (op ∷ ops) o h =
      run-IsAwake capacity ops (act capacity op o) (act-IsAwake capacity op o h)

  -- `n` callers go on, one after the other.
  abbrev pub wake_times : ℕ → Outstanding K → Outstanding K
  wake_times zero o = o
  wake_times (suc n) o = wake_times n (wake_up o)

  wake_times-settled :
      (n : ℕ) (o : Outstanding K)
      → IsAwake o
      → o.woken ≡ n
      → settled o.state ≡ true
      → (wake_times n o).state.waiters ≡ 0
  wake_times-settled zero o h e s = omega (arith, h.counted, h.none_asleep s)
  wake_times-settled (suc n) o h e s =
      let (still, one_less) = next_woken-settled o.woken o n e s in
      wake_times-settled n (wake_up o) (unfold wake_up in (next_woken-IsAwake o.woken o refl h))
        (unfold wake_up in one_less) (unfold wake_up in still)

  -- After any history of requests, replies, failures, moves and callers, in any order and with
  -- wake-ups that nobody asked for: if the set is settled, no caller is blocked, and as soon as each
  -- woken caller has had the mutex once, all have returned.
  pub run-all_return :
      (capacity : ℕ) (ops : List (Op K))
      → let o : Outstanding K = run capacity ops fresh in
        settled o.state ≡ true → (o.asleep ≡ 0) × ((wake_times o.woken o).state.waiters ≡ 0)
  run-all_return capacity ops s =
      let h = run-IsAwake capacity ops fresh (record { counted = refl; none_asleep = λ t. refl }) in
      (h.none_asleep s, wake_times-settled _ _ h refl s)
