-- ===== src/Readiness.antt =====
-- src/readiness/channel.rs: the messages of a starting daemon, how a launcher decodes them, and
-- what it keeps of them. Bytes are numbers, and durations nanoseconds since the channel opened. A
-- printable text is valid UTF-8, so the conversion in `parse` succeeds.
pub mod Reading
pub mod Lines
pub mod Pushed
pub mod Decoding
pub mod Told
pub mod Looks
mod Examples
use kunobi_daemon.Common.{
  ◌||◌, ℕ, ◌+◌, ◌-◌, min, max, Bool, true, false, ◌&&◌, not, Option, none, some, List, [], ◌∷◌,
  ◌++◌, Result, ok, err, length, ltb, leb, ◌==◌, if◌then◌else◌, same_bytes, strip_prefix,
}
use kunobi_daemon.Selection.{duration_max}

abbrev pub max_message : ℕ
max_message = 256

-- `MAX_MESSAGE - "progress \n".len()`.
abbrev pub max_detail : ℕ
max_detail = 246

pub data NotReady : Type 0 where
  died malformed silent : NotReady

pub data Message : Type 0 where
  ready : Message
  progress : Option (List ℕ) → Message

abbrev pub newline : ℕ
newline = b'\n'

abbrev pub space : ℕ
space = 0x20

abbrev pub ready_text : List ℕ
ready_text = b'r' ∷ b'e' ∷ b'a' ∷ b'd' ∷ b'y' ∷ []

abbrev pub progress_text : List ℕ
progress_text = b'p' ∷ b'r' ∷ b'o' ∷ b'g' ∷ b'r' ∷ b'e' ∷ b's' ∷ b's' ∷ []

abbrev pub is_empty : List ℕ → Bool
is_empty [] = true
is_empty (_ ∷ _) = false

unfoldable pub printable : List ℕ → Bool
printable [] = true
printable (b ∷ bs) = (leb space b && leb b b'~') && printable bs

-- The match on a line that starts with "progress ".
unfoldable pub parse_detail : Option (List ℕ) → Option Message
parse_detail none = none
parse_detail (some detail) =
    if is_empty detail || not (printable detail) then none else some (progress (some detail))

unfoldable pub parse : List ℕ → Option Message
parse line =
    if same_bytes line ready_text
    then some ready
    else if same_bytes line progress_text
    then some (progress none)
    else parse_detail (strip_prefix (progress_text ++ space ∷ []) line)

pub data InvalidDetail : Type 0 where
  invalid_detail : InvalidDetail

unfoldable pub progress_line : List ℕ → Result InvalidDetail (List ℕ)
progress_line detail =
    if ltb max_detail (length detail) || not (printable detail)
    then err invalid_detail
    else if is_empty detail
    then ok (progress_text ++ newline ∷ [])
    else ok (progress_text ++ (space ∷ (detail ++ newline ∷ [])))

pub data Step : Type 0 where
  more : Step
  message : Message → Step
  malformed : Step

abbrev pub of_line : Option Message → Step
of_line none = Step.malformed
of_line (some m) = message m

-- `Decoder::push`: the decoder is the line that it holds.
unfoldable pub push : List ℕ → ℕ → List ℕ × Step
push line byte =
    if byte == newline
    then ([], of_line (parse line))
    else if leb (max_message - 1) (length line)
    then (line, Step.malformed)
    else (line ++ byte ∷ [], more)

pub data State : Type 0 where
  waiting progressing ready died malformed : State

pub data Event : Type 0 where
  progress ready malformed closed : Event

pub data Decision : Type 0 where
  ready : Decision
  not_ready : NotReady → Decision
  wait : ℕ → Decision

pub record Tracker : Type 0 where
  pub state : State
  pub last_message : ℕ

abbrev pub is_final : State → Bool
is_final State.ready = true
is_final State.died = true
is_final State.malformed = true
is_final waiting = false
is_final progressing = false

abbrev pub state_of : Event → State
state_of Event.progress = progressing
state_of Event.ready = State.ready
state_of Event.malformed = State.malformed
state_of closed = State.died

-- `Tracker::record`.
unfoldable pub note : Tracker → ℕ → Event → Tracker
note t at event =
    if is_final t.state
    then t
    else record { state = state_of event; last_message = max t.last_message at }

unfoldable pub saturating_until : ℕ → ℕ → ℕ
saturating_until last silence = min (last + silence) duration_max

-- The two states that are not final.
abbrev pub decide_waiting : ℕ → ℕ → Decision
decide_waiting until now = if leb until now then not_ready silent else wait (until - now)

decide_in : State → ℕ → ℕ → Decision
decide_in State.ready until now = Decision.ready
decide_in State.died until now = not_ready NotReady.died
decide_in State.malformed until now = not_ready NotReady.malformed
decide_in waiting until now = decide_waiting until now
decide_in progressing until now = decide_waiting until now

-- `Tracker::decide`.
unfoldable pub decide : Tracker → ℕ → ℕ → Decision
unfolding decide_in
decide t now silence = decide_in t.state (saturating_until t.last_message silence) now

-- `Inner`; the two counters are u64 that no run fills.
pub record Inner : Type 0 where
  pub tracker : Tracker
  pub version : ℕ
  pub reports : ℕ
  pub last_progress : Option (List ℕ)

unfoldable pub fresh : Inner
fresh = record {
  tracker = record { state = waiting; last_message = 0 };
  version = 0;
  reports = 0;
  last_progress = none;
}

abbrev is_progress : Event → Bool
is_progress Event.progress = true
is_progress _ = false

-- `Shared::post`, at the time that it reads.
unfoldable pub post : Inner → ℕ → Event → Option (List ℕ) → Inner
post inner at event detail =
    let noted : Inner = record inner {
      tracker = note inner.tracker at event;
      version = inner.version + 1;
    } in
    if is_progress event
    then record noted { reports = inner.reports + 1; last_progress = detail }
    else noted
