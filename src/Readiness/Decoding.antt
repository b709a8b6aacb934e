-- ===== src/Readiness/Decoding.antt =====
-- What a daemon sends over the readiness channel of src/readiness/channel.rs is read as it was sent,
-- however the reads split it.
use kunobi_daemon.Common.{
  ℕ, ◌+◌, ◌≤◌, ◌≡◌, refl, sym, ◌∙◌, Bool, true, false, Option, none, some, map, List, [], ◌∷◌, ◌++◌,
  Result, ok, ◌>>=◌, bind-ok, arith, length, length-append,
}
use mathlib.Core.List.{append_assoc, append-nil}
use kunobi_daemon.Readiness.{
  Message, Event, State, Step, InvalidDetail, newline, ready_text, is_final, printable, parse,
  progress_line, push, note, Inner, fresh, post,
}
use kunobi_daemon.Readiness.Reading.{
  ReadResult, end_of_stream, Read, bytes, failed, Reader, stepped, take_bytes, take_result,
  read_messages,
}
use kunobi_daemon.Readiness.Lines.{detail_of, says, progress_line-ok, parse-says}

-- `Notifier::progress` for each detail: the bytes that it writes.
unfoldable pub report_all : List (List ℕ) → Result InvalidDetail (List ℕ)
report_all [] = ok []
report_all (d ∷ ds) = do line ← progress_line d; rest ← report_all ds; ok (line ++ rest)

-- The bytes that reads bring, each with its time.
abbrev pub brought : ReadResult → List (ℕ × ℕ)
brought (bytes bs) = bs
brought end_of_stream = []
brought (failed _) = []

abbrev pub arrived : List Read → List (ℕ × ℕ)
arrived [] = []
arrived (r ∷ reads) = brought r.result ++ arrived reads

abbrev goes_on : ReadResult → Bool
goes_on (bytes bs) = true
goes_on end_of_stream = false
goes_on (failed interrupted) = interrupted

-- The launcher holds its channel, and no read ends the stream; some may be interrupted.
abbrev pub AllOpen : List Read → Type 0
AllOpen [] = Unit {0}
AllOpen (r ∷ reads) = (r.dropped ≡ false) × (goes_on r.result ≡ true) × AllOpen reads

abbrev pub byte_of : ℕ × ℕ → ℕ
byte_of (at, byte) = byte

abbrev pub holding : Option (List ℕ) → Inner → Reader
holding line inner = record { line = line; inner = inner }

abbrev pub last_detail : Option (List ℕ) → List (List ℕ) → Option (List ℕ)
last_detail o [] = o
last_detail o (d ∷ ds) = last_detail (detail_of d) ds

take_bytes-none :
    (bs : List (ℕ × ℕ)) (inner : Inner) → take_bytes (holding none inner) bs ≡ holding none inner
unfolding take_bytes
take_bytes-none [] inner = refl
take_bytes-none (b ∷ bs) inner = refl

take_bytes-append :
    (bs cs : List (ℕ × ℕ)) (line : Option (List ℕ)) (inner : Inner)
    → take_bytes (holding line inner) (bs ++ cs)
      ≡ take_bytes (take_bytes (holding line inner) bs) cs
unfolding take_bytes
take_bytes-append [] cs line inner = refl
take_bytes-append (b ∷ bs) cs none inner = sym (take_bytes-none cs inner)
take_bytes-append ((t, b) ∷ bs) cs (some line) inner =
    take_bytes-append bs cs _ (stepped inner t (push line b)).inner

take_result-brought :
    (x : ReadResult) (line : List ℕ) (inner : Inner) (at : ℕ)
    → goes_on x ≡ true
    → take_result line inner at x ≡ take_bytes (holding (some line) inner) (brought x)
unfolding take_result take_bytes
take_result-brought (bytes bs) line inner at h = refl
take_result-brought end_of_stream line inner at h = cc
take_result-brought (failed true) line inner at h = refl
take_result-brought (failed false) line inner at h = cc

-- How the reads split the stream does not matter.
read_messages-arrived :
    (reads : List Read) (line : Option (List ℕ)) (inner : Inner)
    → AllOpen reads
    → read_messages (holding line inner) reads ≡ take_bytes (holding line inner) (arrived reads)
unfolding read_messages
read_messages-arrived [] line inner h = unfold take_bytes in refl
read_messages-arrived (r ∷ reads) none inner h = sym (take_bytes-none (arrived (r ∷ reads)) inner)
read_messages-arrived (r ∷ reads) (some line) inner h =
    let after : Reader = take_bytes (holding (some line) inner) (brought r.result) in
    rw (h.0, take_result-brought r.result line inner r.at h.1)
      (read_messages-arrived reads after.line after.inner h.2
        ∙ sym (take_bytes-append (brought r.result) (arrived reads) (some line) inner))

-- Printable bytes are held.
take_bytes-printable :
    (xs ys line : List ℕ) (inner : Inner) (bs : List (ℕ × ℕ))
    → printable xs ≡ true
    → length line + length xs ≤ 255
    → map byte_of bs ≡ xs ++ ys
    → (cs : List (ℕ × ℕ)) × (map byte_of cs ≡ ys)
      × (take_bytes (holding (some line) inner) bs
          ≡ take_bytes (holding (some (line ++ xs)) inner) cs)
unfolding take_bytes printable stepped
take_bytes-printable [] ys line inner bs p h e = (bs, e, rw append-nil refl)
take_bytes-printable (x ∷ xs) ys line inner [] p h e = cc
take_bytes-printable (x ∷ xs) ys line inner ((t, b) ∷ bs) p h e =
    let kept : push line b ≡ (line ++ x ∷ [], Step.more) = unfold push in ground (arith, e) in
    let (cs, left, same) =
      take_bytes-printable xs ys (line ++ x ∷ []) inner bs (ground (arith, p))
        (omega (arith, length-append line (x ∷ []))) (cc) in
    (cs, left, rw kept (same ∙ rw append_assoc refl))

-- A newline completes the line that is held.
take_bytes-newline :
    (line ys : List ℕ) (m : Message) (inner : Inner) (bs : List (ℕ × ℕ))
    → parse line ≡ some m
    → map byte_of bs ≡ newline ∷ ys
    → (at : ℕ) × (cs : List (ℕ × ℕ)) × (map byte_of cs ≡ ys)
      × (take_bytes (holding (some line) inner) bs
          ≡ take_bytes (stepped inner at ([], Step.message m)) cs)
unfolding take_bytes
take_bytes-newline line ys m inner [] p e = cc
take_bytes-newline line ys m inner ((t, b) ∷ bs) p e =
    let done : push line b ≡ ([], Step.message m) = unfold push in ground (arith, e, p) in
    (t, bs, cc, rw done refl)

take_bytes-line :
    (line ys : List ℕ) (m : Message) (inner : Inner) (bs : List (ℕ × ℕ))
    → printable line ≡ true
    → length line ≤ 255
    → parse line ≡ some m
    → map byte_of bs ≡ line ++ (newline ∷ ys)
    → (at : ℕ) × (cs : List (ℕ × ℕ)) × (map byte_of cs ≡ ys)
      × (take_bytes (holding (some []) inner) bs
          ≡ take_bytes (stepped inner at ([], Step.message m)) cs)
take_bytes-line line ys m inner bs p h q e =
    let (cs, left, same) = take_bytes-printable line (newline ∷ ys) [] inner bs p (omega arith) e in
    let (at, ds, left', same') = take_bytes-newline line ys m inner cs q left in
    (at, ds, left', same ∙ same')

-- What a launcher has heard while its daemon reports progress.
pub record Heard (before after : Inner) (details : List (List ℕ)) : Type 0 where
  pub open_still : is_final after.tracker.state ≡ false
  pub counted : after.reports ≡ before.reports + length details
  pub latest : after.last_progress ≡ last_detail before.last_progress details
  pub news : after.version ≡ before.version + length details

Heard-next :
    (inner after : Inner) (at : ℕ) (d : List ℕ) (ds : List (List ℕ))
    → Heard (post inner at Event.progress (detail_of d)) after ds
    → Heard inner after (d ∷ ds)
unfolding post
Heard-next inner after at d ds h = ground (arith, h.open_still, h.counted, h.latest, h.news)

post_open :
    (inner : Inner) (at : ℕ) (detail : Option (List ℕ))
    → is_final inner.tracker.state ≡ false
    → is_final (post inner at Event.progress detail).tracker.state ≡ false
unfolding post note
post_open inner at detail f = ground (arith, f)

take_bytes-report_all :
    (details : List (List ℕ)) (sent ys : List ℕ) (inner : Inner) (bs : List (ℕ × ℕ))
    → report_all details ≡ ok sent
    → is_final inner.tracker.state ≡ false
    → map byte_of bs ≡ sent ++ ys
    → (after : Inner) × (cs : List (ℕ × ℕ)) × (map byte_of cs ≡ ys)
      × Heard inner after details
      × (take_bytes (holding (some []) inner) bs ≡ take_bytes (holding (some []) after) cs)
unfolding report_all stepped
take_bytes-report_all [] sent ys inner bs e f h =
    (inner, bs, ground (arith, e, h), ground (arith, f), refl)
take_bytes-report_all (d ∷ ds) sent ys inner bs e f h =
    let (line, first, others) =
      bind-ok (progress_line d) (λ l. report_all ds >>= λ rest. ok (l ++ rest)) e in
    let (more, later, whole) = bind-ok (report_all ds) (λ rest. ok (line ++ rest)) others in
    let (shape, clean, short) = progress_line-ok d line first in
    let (at, cs, left, same) =
      take_bytes-line (says d) (more ++ ys) (Message.progress (detail_of d)) inner bs clean short
        (parse-says d clean) (h ∙ split line more (says d) ys sent (cc) shape) in
    let next : Inner = post inner at Event.progress (detail_of d) in
    let (after, ds', left', heard, same') =
      take_bytes-report_all ds more ys next cs later (post_open inner at (detail_of d) f) left in
    (after, ds', left', Heard-next inner after at d ds heard, same ∙ same')
  where
    split :
        (line more said ys sent : List ℕ)
        → sent ≡ line ++ more
        → line ≡ said ++ newline ∷ []
        → sent ++ ys ≡ said ++ (newline ∷ (more ++ ys))
    split line more said ys sent e l = rw (e, l) (simp append_assoc)

post_ready :
    (inner : Inner) (at : ℕ)
    → is_final inner.tracker.state ≡ false
    → ((post inner at Event.ready none).tracker.state ≡ State.ready)
      × ((post inner at Event.ready none).reports ≡ inner.reports)
      × ((post inner at Event.ready none).last_progress ≡ inner.last_progress)
unfolding post note
post_ready inner at f = ground (arith, f)

-- Whatever details a daemon reports before it says that it is ready: its launcher counts every
-- report, keeps the last one's detail, is told that the daemon is ready, and reads nothing more,
-- however reads split the stream, wherever they are interrupted, and whatever bytes follow.
pub reports_received :
    (details : List (List ℕ)) (sent more : List ℕ) (reads : List Read)
    → report_all details ≡ ok sent
    → AllOpen reads
    → map byte_of (arrived reads) ≡ sent ++ (ready_text ++ (newline ∷ more))
    → let heard = read_messages (holding (some []) fresh) reads in
      (heard.line ≡ none)
      × (heard.inner.tracker.state ≡ State.ready)
      × (heard.inner.reports ≡ length details)
      × (heard.inner.last_progress ≡ last_detail none details)
unfolding fresh stepped take_bytes
reports_received details sent more reads e o h =
    let (after, cs, left, heard, same) =
      take_bytes-report_all details sent (ready_text ++ (newline ∷ more)) fresh (arrived reads) e
        refl h in
    let (at, ds, left', same') =
      take_bytes-line ready_text more Message.ready after cs (unfold printable in refl)
        (omega arith) (unfold parse in refl) left in
    let (ended, reported, kept) = post_ready after at heard.open_still in
    rw
      (
        read_messages-arrived reads (some []) fresh o,
        same,
        same',
        take_bytes-none ds (post after at Event.ready none),
      )
      (refl, ended, reported ∙ heard.counted ∙ omega arith, kept ∙ heard.latest)
