-- ===== src/Transport/Outstanding/Epochs.antt =====
-- The epochs of the tracked set of src/transport.rs.
use kunobi_daemon.Common.{ℕ, ◌≤◌, ◌<◌, ◌≡◌, List, [], ◌∷◌, arith, ◌⊎◌, inl, inr}
use kunobi_daemon.Transport.{Key}
use kunobi_daemon.Transport.Outstanding.{
  Outstanding, fresh, settle, Op, begins, settles, clears, fails, reported, moves, moved, waits,
  wakes, stirs, act, run,
}
use kunobi_daemon.Transport.Outstanding.Ledger.{
  Ledger, blank, follow, follow_all, act-Represents, run-Represents, blank-Represents,
}

module _ {K : Type 0} ⦃key : Key K⦄ where
  follow-epoch : (capacity : ℕ) (op : Op K) (l : Ledger K) → l.epoch ≤ (follow capacity op l).epoch
  follow-epoch capacity (begins k) l = ground arith
  follow-epoch capacity (settles epoch k) l = ground arith
  follow-epoch capacity clears l = omega arith
  follow-epoch capacity fails l = omega arith
  follow-epoch capacity reported l = omega arith
  follow-epoch capacity moves l = omega arith
  follow-epoch capacity moved l = omega arith
  follow-epoch capacity waits l = omega arith
  follow-epoch capacity wakes l = omega arith
  follow-epoch capacity stirs l = omega arith

  follow_all-epoch :
      (capacity : ℕ) (ops : List (Op K)) (l : Ledger K)
      → l.epoch ≤ (follow_all capacity ops l).epoch
  follow_all-epoch capacity [] l = omega arith
  follow_all-epoch capacity (op ∷ ops) l =
      omega
        (arith, follow-epoch capacity op l, follow_all-epoch capacity ops (follow capacity op l))

  ends-epoch :
      (capacity : ℕ) (op : Op K) (l : Ledger K)
      → (op ≡ clears) ⊎ (op ≡ fails)
      → l.epoch < (follow capacity op l).epoch
  ends-epoch capacity op l (inl e) = rw e (omega arith)
  ends-epoch capacity op l (inr e) = rw e (omega arith)

  -- A connection that started before the requests were failed or cleared settles nothing after
  -- that, whatever happened before, between and since, even where a newer request has its key.
  pub settle_stale :
      (capacity : ℕ) (before after : List (Op K)) (op : Op K) (k : K)
      → (op ≡ clears) ⊎ (op ≡ fails)
      → let started : Outstanding K = run capacity before fresh in
        let now : Outstanding K = run capacity after (act capacity op started) in
        settle started.state.epoch k now ≡ now
  unfolding settle
  settle_stale capacity before after op k e =
      let l : Ledger K = follow_all capacity before blank in
      let r = run-Represents capacity before fresh blank blank-Represents in
      let r' =
        run-Represents capacity after (act capacity op (run capacity before fresh))
          (follow capacity op l) (act-Represents capacity op (run capacity before fresh) l r) in
      ground (
        arith,
        r.same_epoch,
        r'.same_epoch,
        ends-epoch capacity op l e,
        follow_all-epoch capacity after (follow capacity op l),
      )
