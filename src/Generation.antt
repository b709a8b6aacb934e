-- ===== src/Generation.antt =====
-- src/generation.rs: session leases and the retirement of a superseded process. Each method holds
-- the sessions' mutex, so it is one step. Instants and durations are nanoseconds; the watch channel
-- is the number of messages sent on it.
pub mod Leases
pub mod Retiring
mod Examples
use kunobi_daemon.Common.{
  ◌||◌, is_some, ℕ, ◌+◌, ◌-◌, ◌*◌, Bool, true, false, ◌&&◌, not, Option, none, some, Result, ok,
  err, ltb, leb, ◌==◌, if◌then◌else◌,
}

pub record Sessions : Type 0 where
  pub active : ℕ
  pub legacy : ℕ
  pub retired : Bool
  pub superseded_since : Option ℕ

pub record Generation : Type 0 where
  pub own : ℕ
  pub selected : ℕ
  pub sessions : Sessions
  pub open sessions use *
  pub changes : ℕ
  pub started : ℕ
  pub staged : Bool
  pub drain_limit : Option ℕ

pub data Retirement : Type 0 where
  idle : Retirement
  drain_expired : ℕ → ℕ → Retirement

pub data SelectError : Type 0 where
  moved_backwards : SelectError

unfoldable pub new : ℕ → ℕ → Bool → ℕ → Generation
new own selected staged now = record {
  own = own;
  selected = selected;
  sessions = record {
    active = 0;
    legacy = 0;
    retired = false;
    superseded_since = if ltb own selected then some now else none;
  };
  changes = 0;
  started = now;
  staged = staged;
  drain_limit = none;
}

unfoldable pub with_drain_limit : Generation → ℕ → Generation
with_drain_limit g limit = record g { drain_limit = some limit }

-- `Option::get_or_insert_with(Instant::now)`.
abbrev or_now : Option ℕ → ℕ → Option ℕ
or_now none now = some now
or_now (some since) now = some since

unfoldable pub select : Generation → ℕ → ℕ → Generation × Result SelectError (Unit {0})
select g selected now =
    if not (leb g.selected selected)
    then (g, err moved_backwards)
    else if g.selected == selected
    then (g, ok tt)
    else (
      record g {
        selected = selected;
        sessions = record (g.sessions) {
          superseded_since =
              if ltb g.own selected
              then or_now g.sessions.superseded_since now
              else g.sessions.superseded_since;
        };
        changes = g.changes + 1;
      },
      ok tt,
    )

-- True: a lease is returned, not a legacy one.
unfoldable pub admit : Generation → Generation × Bool
admit g =
    if g.sessions.retired
    then (g, false)
    else (record g { sessions = record (g.sessions) { active = g.sessions.active + 1 } }, true)

-- `SessionLease::mark_legacy`, on the lease's own mark.
unfoldable pub mark_legacy : Generation → Bool → Generation × Bool
mark_legacy g legacy =
    if not legacy
    then (record g { sessions = record (g.sessions) { legacy = g.sessions.legacy + 1 } }, true)
    else (g, legacy)

-- `Drop for SessionLease`.
unfoldable pub drop_lease : Generation → Bool → Generation
drop_lease g legacy = record g {
  sessions = record (g.sessions) {
    active = g.sessions.active - 1;
    legacy = if legacy then g.sessions.legacy - 1 else g.sessions.legacy;
  };
  changes = g.changes + 1;
}

-- `limit.zip(since).is_some_and(|(limit, since)| since.elapsed() >= limit)`.
abbrev pub limit_passed : Option ℕ → Option ℕ → ℕ → Bool
limit_passed (some limit) (some since) now = leb limit (now - since)
limit_passed none _ now = false
limit_passed (some limit) none now = false

abbrev pub reason : Sessions → Retirement
reason s = if s.active == 0 then idle else drain_expired s.active s.legacy

unfoldable pub try_retire : Generation → ℕ → Bool → Bool → ℕ → Generation × Option Retirement
try_retire g staging_lifetime may_idle may_drain now =
    if leb g.selected g.own
      && not ((g.staged && ltb g.selected g.own) && ltb staging_lifetime (now - g.started))
    then (g, none)
    else (let expired : Bool =
          may_drain && limit_passed g.drain_limit g.sessions.superseded_since now in
        let empty : Bool = may_idle && g.sessions.active == 0 in
        if not (expired || empty) then (g, none) else (
          record g { sessions = record (g.sessions) { retired = true } },
          some (reason g.sessions),
        ))

unfoldable pub retire : Generation → ℕ → ℕ → Generation × Option Retirement
retire g staging_lifetime now = try_retire g staging_lifetime true true now

unfoldable pub retire_if_idle : Generation → ℕ → ℕ → Generation × Bool
retire_if_idle g staging_lifetime now =
    let (h, r) = try_retire g staging_lifetime true false now in (h, is_some r)

unfoldable pub drain_remaining : Generation → ℕ → Option ℕ
drain_remaining g now = remaining g.drain_limit g.sessions.superseded_since
  where
    remaining : Option ℕ → Option ℕ → Option ℕ
    remaining (some limit) (some since) = some (limit - (now - since))
    remaining none _ = none
    remaining (some limit) none = none
