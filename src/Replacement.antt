-- ===== src/Replacement.antt =====
-- src/replacement.rs: the transition machine that orders a replacement.
-- `Replacement.Driver` models the blocking loop over it.
pub mod Driver
pub mod Order
pub mod Runs
pub mod Termination
mod Examples
use kunobi_daemon.Common.{Bool, true, false, Option, none, some, Result, ok, err}

pub data Mode : Type 0 where
  overlap exclusive : Mode

pub data Step : Type 0 where
  recheck prepare drain start verify validate commit retire : Step

pub data Progress : Type 0 where
  done pending unchanged : Progress

pub data Outcome : Type 0 where
  unchanged complete retirement_pending : Outcome

pub data Reason (E : Type 0) : Type 0 where
  deadline : Reason E
  adapter : E → Reason E
  invalid_progress : Reason E

pub record Failure (E : Type 0) : Type 0 where
  pub step : Step
  pub committed : Bool
  pub reason : Reason E

pub record Machine : Type 0 where
  pub mode : Mode
  pub step : Step
  pub committed : Bool

unfoldable pub new : Mode → Machine
new mode = record { mode = mode; step = recheck; committed = false }

abbrev pub failure : {E : Type 0} → Machine → Reason E → Failure E
failure m reason = record { step = m.step; committed = m.committed; reason = reason }

-- The second half of `advance`: the step after one that is done.
proceed : {E : Type 0} → Mode → Step → Machine → Machine × Result (Failure E) (Option Outcome)
proceed mode recheck m = (record m { step = prepare }, ok none)
proceed exclusive prepare m = (record m { step = drain }, ok none)
proceed overlap prepare m = (record m { step = start }, ok none)
proceed mode drain m = (record m { step = start }, ok none)
proceed mode start m = (record m { step = verify }, ok none)
proceed mode verify m = (record m { step = validate }, ok none)
proceed mode validate m = (record m { step = commit }, ok none)
proceed exclusive commit m = (record m { committed = true }, ok (some complete))
proceed overlap commit m = (record m { committed = true; step = retire }, ok none)
proceed mode retire m = (m, ok (some complete))

-- The match on the step and its answer at the head of `advance`.
answer : {E : Type 0} → Step → Progress → Machine → Machine × Result (Failure E) (Option Outcome)
unfolding proceed
answer recheck Progress.unchanged m = (m, ok (some Outcome.unchanged))
answer recheck pending m = (m, ok none)
answer verify pending m = (m, ok none)
answer drain pending m = (m, ok none)
answer retire pending m = (m, ok (some retirement_pending))
answer _ done m = proceed m.mode m.step m
answer _ _ m = (m, err (failure m invalid_progress))

unfoldable pub advance :
    {E : Type 0} → Machine → Progress → Machine × Result (Failure E) (Option Outcome)
unfolding answer
advance m progress = answer m.step progress m
