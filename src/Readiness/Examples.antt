-- ===== src/Readiness/Examples.antt =====
-- The readiness channel of src/readiness/channel.rs at concrete inputs.
use kunobi_daemon.Common.{
  ℕ, ◌≡◌, refl, true, false, none, some, List, [], ◌∷◌, ◌++◌, err, take, arith, map,
}
use kunobi_daemon.Readiness.{
  Message, silent, push, Event, State, progress, decide, Decision, newline, space, ready_text,
  progress_text, parse, parse_detail, printable, progress_line, Inner, fresh, saturating_until,
  note,
}
use kunobi_daemon.Readiness.Reading.{Read, bytes, failed, read_messages, wait_ready}
use kunobi_daemon.Readiness.Pushed.{fed, IsSent, pushed-IsSent}
use kunobi_daemon.Readiness.Decoding.{report_all, holding, reports_received}
use kunobi_daemon.Readiness.Told.{decide-heard, heard, opened}
use kunobi_daemon.Readiness.Looks.{Tells, wait_ready-Tells}

-- "progress a"
abbrev line : List ℕ
line = progress_text ++ (space ∷ b'a' ∷ [])

abbrev spoken : Message
spoken = progress (some (b'a' ∷ []))

pushed-IsSent_example :
    (before sent : List ℕ) × (ready_text ++ newline ∷ (line ++ newline ∷ []) ≡ before ++ sent)
    × IsSent spoken sent
pushed-IsSent_example =
    pushed-IsSent (ready_text ++ newline ∷ line) line newline spoken
      (unfold fed push parse parse_detail printable in refl)
      (unfold push parse parse_detail printable in refl)

-- The line of "a", and then ready, in two reads with an interruption between them.
abbrev reads : List Read
reads =
    record {
      at = 1;
      dropped = false;
      result = bytes (map (λ b. (1, b)) (progress_text ++ (space ∷ [])));
    }
    ∷ record { at = 2; dropped = false; result = failed true }
    ∷ record {
      at = 3;
      dropped = false;
      result = bytes (map (λ b. (3, b)) (b'a' ∷ newline ∷ (ready_text ++ (newline ∷ []))));
    }
    ∷ []

reports_received_example :
    ((read_messages (holding (some []) fresh) reads).line ≡ none)
    × ((read_messages (holding (some []) fresh) reads).inner.tracker.state ≡ State.ready)
    × ((read_messages (holding (some []) fresh) reads).inner.reports ≡ 1)
    × ((read_messages (holding (some []) fresh) reads).inner.last_progress ≡ some (b'a' ∷ []))
reports_received_example =
    reports_received ((b'a' ∷ []) ∷ []) (line ++ newline ∷ []) [] reads
      (unfold report_all progress_line printable in refl)
      (refl, refl, (refl, refl, (refl, refl, tt))) refl

abbrev story : List (ℕ × Event)
story = (5, Event.progress) ∷ (9, Event.ready) ∷ (12, Event.malformed) ∷ []

decide-heard_example : decide (heard opened story) 20 100 ≡ Decision.ready
decide-heard_example = decide-heard story 20 100 (omega arith, (omega arith, (omega arith, tt)))

abbrev looked : ℕ → Inner
looked n = record { tracker = heard opened story; version = n; reports = 1; last_progress = none }

-- The first look sees a word of progress, and the second one its silence.
abbrev quiet : Inner
quiet = record {
  tracker = heard opened (take 1 story);
  version = 1;
  reports = 1;
  last_progress = none;
}

abbrev looks : List (Inner × ℕ)
looks = (quiet, 7) ∷ (quiet, 8) ∷ (looked 3, 20) ∷ []

looks_silent : wait_ready 3 looks ≡ some (err silent)
unfolding wait_ready decide fresh heard note saturating_until
looks_silent = refl

wait_ready-Tells_example : Tells story 3 looks (wait_ready 3 looks)
wait_ready-Tells_example =
    wait_ready-Tells story 3 looks (omega arith, (omega arith, (omega arith, tt)))
      ((1, refl), ((1, refl), ((3, refl), tt)))
