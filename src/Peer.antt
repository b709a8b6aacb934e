-- ===== src/Peer.antt =====
-- src/peer.rs: what a connection may do, from what the operating system says of its peer. A process
-- id is a number, and a custom reason a text in bytes.
pub mod Policies
mod Examples
use kunobi_daemon.Common.{
  ℕ, Bool, Option, none, some, List, [], ◌∷◌, ◌++◌, Result, ok, err, ◌>>=◌, ◌==◌, if◌then◌else◌,
}

pub data UserEvidence : Type 0 where
  connection pid_lookup : UserEvidence

pub record Credentials : Type 0 where
  pub pid : Option ℕ
  pub same_user : Bool
  pub user_evidence : UserEvidence

pub data Rejected : Type 0 where
  other_user unreported no_expected_process no_policy : Rejected
  other_process : (expected observed : ℕ) → Rejected
  custom : List ℕ → Rejected

-- `Policy::grant`.
abbrev pub Policy : Type 0 → Type 0
Policy G = Credentials → Result Rejected G

-- `Credentials::new`.
unfoldable pub reported : Option ℕ → Bool → Credentials
reported pid same_user = record { pid = pid; same_user = same_user; user_evidence = connection }

unfoldable pub with_user_evidence : Credentials → UserEvidence → Credentials
with_user_evidence c evidence = record c { user_evidence = evidence }

-- The id of a `PidMatch`.
unfoldable pub match_pid : Option ℕ → ℕ → Result Rejected ℕ
match_pid none expected = err unreported
match_pid (some observed) expected =
    if observed == expected then ok observed else err (other_process expected observed)

unfoldable pub same_user : Policy (Unit {0})
same_user c = if c.same_user then ok tt else err other_user

unfoldable pub or_expected : Option ℕ → Result Rejected ℕ
or_expected none = err no_expected_process
or_expected (some pid) = ok pid

unfoldable pub expected_process : (Unit {0} → Option ℕ) → Policy ℕ
expected_process expected c = do
  _ ← same_user c
  pid ← or_expected (expected tt)
  match_pid c.pid pid

-- A `Tier`: the policy with the grant that it stands for, as `First::then` pairs them.
unfoldable pub tier : {A G : Type 0} → Policy A → G → Policy G
tier policy grant c = do _ ← policy c; ok grant

-- `First`, and `First::then`.
abbrev pub First : Type 0 → Type 0
First G = List (Policy G)

unfoldable pub add_tier : {A G : Type 0} → First G → Policy A → G → First G
add_tier tiers policy grant = tiers ++ tier policy grant ∷ []

-- The loop over the tiers, with the last reason.
unfoldable pub grant_from : {G : Type 0} → Rejected → First G → Policy G
grant_from rejected [] c = err rejected
grant_from rejected (t ∷ tiers) c = elim (t c) [
  | ok grant ↦ ok grant
  | err reason ↦ grant_from reason tiers c
]

unfoldable pub first : {G : Type 0} → First G → Policy G
first tiers c = grant_from no_policy tiers c

pub record Authenticated (C G : Type 0) : Type 0 where
  pub connection : C
  pub grant : G
  pub credentials : Credentials

unfoldable pub authenticate :
    {C G : Type 0} → C → Credentials → Policy G → Result Rejected (Authenticated C G)
authenticate peer credentials policy = do
  grant ← policy credentials
  ok (record { connection = peer; grant = grant; credentials = credentials })
