-- ===== src/Readiness/Pushed.antt =====
-- What the decoder of src/readiness/channel.rs takes for a message, whatever bytes come.
use kunobi_daemon.Common.{
  ℕ, ◌≤◌, ◌≡◌, refl, sym, ap, ◌∙◌, ◌⊎◌, inl, inr, Bool, true, if◌then◌else◌, false, Option, none,
  some, List, [], ◌∷◌, ◌++◌, ok, arith, length, length-append, ◌==◌, ==_iff, some_inj, Bool-cases,
  leb,
}
use mathlib.Core.List.{append_assoc, append-nil}
use mathlib.Core.Path.{subst}
use kunobi_daemon.Readiness.{
  Message, progress, Step, more, message, newline, ready_text, parse, push, of_line, progress_line,
}
use kunobi_daemon.Readiness.Lines.{detail_of, parse_sent}

abbrev pub is_malformed : Step → Bool
is_malformed Step.malformed = true
is_malformed more = false
is_malformed (message m) = false

-- The line that the decoder holds after some bytes; `none` once it has found them malformed, where
-- the reader stops.
unfoldable pub fed : List ℕ → List ℕ → Option (List ℕ)
fed line [] = some line
fed line (b ∷ bytes) =
    let rest = fed (push line b).0 bytes in if is_malformed (push line b).1 then none else rest

grows : (line : List ℕ) (b : ℕ) → leb 255 (length line) ≡ false → length (line ++ b ∷ []) ≤ 255
grows line b room = ground (arith, length-append line (b ∷ []), room)

-- What one byte leaves: nothing that was taken is lost but whole lines.
push_kept :
    (line : List ℕ) (b : ℕ)
    → length line ≤ 255
    → is_malformed (push line b).1 ≡ false
    → (length (push line b).0 ≤ 255)
      × (passed : List ℕ) × (line ++ b ∷ [] ≡ passed ++ (push line b).0)
unfolding push
push_kept line b short h = elim (Bool-cases (b == newline)) [
  | inl e ↦ rw e (omega arith, line ++ b ∷ [], sym (append-nil (line ++ b ∷ [])))
  | inr e ↦ elim (Bool-cases (leb 255 (length line))) [
    | inl full ↦ absurd (ground (arith, h, e, full))
    | inr room ↦ rw (e, room) (grows line b room, [], refl)
  ]
]

-- Of the bytes taken, the decoder holds the last ones.
fed-Holds :
    (bytes line held : List ℕ)
    → length line ≤ 255
    → fed line bytes ≡ some held
    → (length held ≤ 255) × (passed : List ℕ) × (line ++ bytes ≡ passed ++ held)
unfolding fed
fed-Holds [] line held short h =
    (subst (λ l. length l ≤ 255) (some_inj h) short, [], append-nil line ∙ some_inj h)
fed-Holds (b ∷ bytes) line held short h = elim (Bool-cases (is_malformed (push line b).1)) [
  | inl e ↦ absurd (ground (arith, e, h))
  | inr e ↦
      let (room, passed, kept) = push_kept line b short e in
      let (fits, before, split) =
        fed-Holds bytes (push line b).0 held room (ground (arith, e, h)) in
      (
        fits,
        passed ++ before,
        sym (append_assoc line (b ∷ []) bytes)
            ∙ (ap (λ l. l ++ bytes) kept
                ∙ (append_assoc passed (push line b).0 bytes
                    ∙ (ap (λ l. passed ++ l) split ∙ sym (append_assoc passed before held)))),
      )
]

of_line-message : (o : Option Message) (m : Message) → of_line o ≡ message m → o ≡ some m
of_line-message none m h = cc
of_line-message (some x) m h = cc

push-message :
    (line : List ℕ) (b : ℕ) (m : Message)
    → (push line b).1 ≡ message m
    → (b ≡ newline) × (parse line ≡ some m)
unfolding push
push-message line b m h = elim (Bool-cases (b == newline)) [
  | inl e ↦ ((==_iff b newline).0 e, of_line-message (parse line) m (ground (arith, e, h)))
  | inr e ↦ elim (Bool-cases (leb 255 (length line))) [
    | inl full ↦ absurd (ground (arith, h, e, full))
    | inr room ↦ absurd (ground (arith, h, e, room))
  ]
]

-- What a daemon sends for a message: "ready" and a newline, or the line of a detail that it may
-- report.
abbrev pub IsSent : Message → List ℕ → Type 0
IsSent m sent =
    ((m ≡ Message.ready) × (sent ≡ ready_text ++ newline ∷ []))
    ⊎ ((d : List ℕ) × (m ≡ progress (detail_of d)) × (progress_line d ≡ ok sent))

-- Whatever bytes a decoder takes from its start on: when a byte completes a message, the bytes up to
-- it end in exactly what a daemon sends for that message, "ready" with its newline, or the line of
-- a detail that the daemon may report.
pub pushed-IsSent :
    (bytes line : List ℕ) (b : ℕ) (m : Message)
    → fed [] bytes ≡ some line
    → (push line b).1 ≡ message m
    → (before sent : List ℕ) × (bytes ++ b ∷ [] ≡ before ++ sent) × IsSent m sent
pushed-IsSent bytes line b m taken h =
    let (short, before, split) = fed-Holds bytes [] line (omega arith) taken in
    let (ends, parsed) = push-message line b m h in
    (
      before,
      line ++ newline ∷ [],
      ap (λ l. l ++ b ∷ []) split
          ∙ (append_assoc before line (b ∷ []) ∙ ap (λ c. before ++ (line ++ c ∷ [])) ends),
      sent line m (parse_sent line m parsed short),
    )
  where
    sent :
        (line : List ℕ) (m : Message)
        → ((m ≡ Message.ready) × (line ≡ ready_text))
          ⊎ ((d : List ℕ) × (m ≡ progress (detail_of d))
              × (progress_line d ≡ ok (line ++ newline ∷ [])))
        → IsSent m (line ++ newline ∷ [])
    sent line m (inl (r, e)) = inl (r, ap (λ l. l ++ newline ∷ []) e)
    sent line m (inr said) = inr said
