-- ===== src/Peer/Policies.antt =====
-- Whom the policies of src/peer.rs accept.
use kunobi_daemon.Common.{
  ok_inj, ℕ, ◌≡◌, refl, sym, ap, ◌∙◌, ◌↔◌, true, Option, some, [], ◌∷◌, ◌++◌, Result, ok, err,
  ◌>>=◌, arith,
}
use kunobi_daemon.Peer.{
  Credentials, Rejected, Policy, First, Authenticated, no_policy, match_pid, same_user, or_expected,
  expected_process, grant_from, first, authenticate,
}

-- Every tier refuses.
abbrev pub AllRefuse : {G : Type 0} → Credentials → First G → Type 0
AllRefuse c [] = Unit {0}
AllRefuse c (t ∷ tiers) = ((r : Rejected) × (t c ≡ err r)) × AllRefuse c tiers

-- A process is accepted as the expected one exactly if it is of this user, there is an expected
-- process, and it is the one that the operating system reports; an id that is not reported is never
-- a match.
pub expected_process_iff :
    (expected : Unit {0} → Option ℕ) (c : Credentials) (pid : ℕ)
    → (expected_process expected c ≡ ok pid)
      ↔ ((c.same_user ≡ true) × (expected tt ≡ some pid) × (c.pid ≡ some pid))
unfolding expected_process same_user or_expected match_pid
expected_process_iff expected c pid = (λ h. ground (arith, h), λ h. ground (arith, h))

-- The first tier that accepts, with all before it refusing.
pub record Picked {G : Type 0} (tiers : First G) (c : Credentials) (grant : G) : Type 0 where
  pub before : First G
  pub chosen : Policy G
  pub after : First G
  pub whole : tiers ≡ before ++ (chosen ∷ after)
  pub refused : AllRefuse c before
  pub accepted : chosen c ≡ ok grant

grant_from-refused :
    {G : Type 0} (r : Rejected) (before after : First G) (c : Credentials)
    → AllRefuse c before
    → (last : Rejected) × (grant_from r (before ++ after) c ≡ grant_from last after c)
unfolding grant_from
grant_from-refused r [] after c h = (r, refl)
grant_from-refused r (t ∷ before) after c ((reason, e), h) =
    let (last, same) = grant_from-refused reason before after c h in (last, rw e same)

grant_from-chosen :
    {G : Type 0} (r : Rejected) (chosen : Policy G) (after : First G) (c : Credentials) (grant : G)
    → chosen c ≡ ok grant
    → grant_from r (chosen ∷ after) c ≡ ok grant
unfolding grant_from
grant_from-chosen r chosen after c grant e = rw e refl

Picked-later :
    {G : Type 0} (t : Policy G) (tiers : First G) (c : Credentials) (grant : G) (r : Rejected)
    → t c ≡ err r
    → Picked tiers c grant
    → Picked (t ∷ tiers) c grant
Picked-later t tiers c grant r e p = record {
  before = t ∷ p.before;
  chosen = p.chosen;
  after = p.after;
  whole = ap (λ ts. t ∷ ts) p.whole;
  refused = ((r, e), p.refused);
  accepted = p.accepted;
}

abbrev went_on : {G : Type 0} → Result Rejected G → First G → Credentials → Result Rejected G
went_on (ok grant) tiers c = ok grant
went_on (err reason) tiers c = grant_from reason tiers c

grant_from-went_on :
    {G : Type 0} (r : Rejected) (t : Policy G) (tiers : First G) (c : Credentials)
    → grant_from r (t ∷ tiers) c ≡ went_on (t c) tiers c
unfolding grant_from
grant_from-went_on r t tiers c = ground arith

grant_from-Picked :
    {G : Type 0} (r : Rejected) (tiers : First G) (c : Credentials) (grant : G)
    → grant_from r tiers c ≡ ok grant
    → Picked tiers c grant
grant_from-Picked r [] c grant e = unfold grant_from in cc
grant_from-Picked {G = G} r (t ∷ tiers) c grant e =
    asked (t c) refl (sym (grant_from-went_on r t tiers c) ∙ e)
      (λ reason h. grant_from-Picked reason tiers c grant h)
  where
    asked :
        (o : Result Rejected G)
        → t c ≡ o
        → went_on o tiers c ≡ ok grant
        → ((reason : Rejected) → grant_from reason tiers c ≡ ok grant → Picked tiers c grant)
        → Picked (t ∷ tiers) c grant
    asked (ok g) q h again = record {
      before = [];
      chosen = t;
      after = tiers;
      whole = refl;
      refused = tt;
      accepted = q ∙ h;
    }
    asked (err reason) q h again = Picked-later t tiers c grant reason q (again reason h)

-- A list of policies grants exactly what the first of them that accepts stands for: some tier
-- accepts with that grant, and every tier before it refuses.
pub first_iff :
    {G : Type 0} (tiers : First G) (c : Credentials) (grant : G)
    → (first tiers c ≡ ok grant) ↔ Picked tiers c grant
unfolding first
first_iff tiers c grant = (
  grant_from-Picked no_policy tiers c grant,
  λ p.
      let (last, same) = grant_from-refused no_policy p.before (p.chosen ∷ p.after) c p.refused in
      ap (λ ts. grant_from no_policy ts c) p.whole
      ∙ (same ∙ grant_from-chosen last p.chosen p.after c grant p.accepted),
)

abbrev with_grant : {C G : Type 0} → C → Credentials → G → Authenticated C G
with_grant x c grant = record { connection = x; grant = grant; credentials = c }

authenticated_iff :
    {C G : Type 0} (x : C) (c : Credentials) (o : Result Rejected G) (a : Authenticated C G)
    → ((o >>= λ grant. ok (with_grant x c grant)) ≡ ok a)
      ↔ ((a.connection ≡ x) × (a.credentials ≡ c) × (o ≡ ok a.grant))
authenticated_iff x c (err r) a = (λ h. absurd cc, λ h. absurd cc)
authenticated_iff x c (ok grant) a = (
  λ h.
      let e = ok_inj h in
      (sym (ap (λ b. b.connection) e), sym (ap (λ b. b.credentials) e), ap (λ b. ok (b.grant)) e),
  λ h.
      ap (λ y. ok (with_grant y c grant)) (sym h.0)
      ∙ (ap (λ d. ok (with_grant a.connection d grant)) (sym h.1)
          ∙ ap (λ g. ok (with_grant a.connection a.credentials g)) (ok_inj h.2)),
)

-- A connection that was authenticated is the one that was offered, with its own credentials and the
-- grant that the policy gave for these.
pub authenticate_iff :
    {C G : Type 0} (x : C) (c : Credentials) (policy : Policy G) (a : Authenticated C G)
    → (authenticate x c policy ≡ ok a)
      ↔ ((a.connection ≡ x) × (a.credentials ≡ c) × (policy c ≡ ok a.grant))
unfolding authenticate
authenticate_iff x c policy a = authenticated_iff x c (policy c) a
