-- ===== src/Readiness/Lines.antt =====
-- One line of the readiness protocol of src/readiness/channel.rs, sent and read back.
use kunobi_daemon.Common.{
  ℕ, ◌+◌, ◌≤◌, ◌<◌, ◌≡◌, refl, ap, ◌⊎◌, inl, inr, true, Option, none, some, List, [], ◌∷◌, ◌++◌, ok,
  arith, length, Bool-cases, same_bytes, same_bytes_equal, strip_prefix, strip_prefix-some,
}
use kunobi_daemon.Readiness.{
  Message, progress, newline, space, ready_text, progress_text, printable, parse_detail, parse,
  progress_line,
}

-- What a daemon's detail becomes in a message.
abbrev pub detail_of : List ℕ → Option (List ℕ)
detail_of [] = none
detail_of (b ∷ bs) = some (b ∷ bs)

-- The line of a detail, without its newline.
abbrev pub says : List ℕ → List ℕ
says [] = progress_text
says (b ∷ bs) = progress_text ++ (space ∷ b ∷ bs)

pub progress_line-ok :
    (detail sent : List ℕ)
    → progress_line detail ≡ ok sent
    → (sent ≡ says detail ++ newline ∷ [])
      × (printable (says detail) ≡ true)
      × (length (says detail) ≤ 255)
unfolding progress_line printable
progress_line-ok [] sent e = ground arith
progress_line-ok (b ∷ bs) sent e = ground arith

pub parse-says :
    (detail : List ℕ)
    → printable (says detail) ≡ true
    → parse (says detail) ≡ some (progress (detail_of detail))
unfolding parse parse_detail printable
parse-says [] h = refl
parse-says (b ∷ bs) h = ground arith

parse_detail-some :
    (line : List ℕ) (o : Option (List ℕ)) (m : Message)
    → strip_prefix (progress_text ++ space ∷ []) line ≡ o
    → parse_detail o ≡ some m
    → (d : List ℕ) × (line ≡ says d)
      × (m ≡ progress (detail_of d))
      × (printable d ≡ true)
      × (0 < length d)
unfolding parse_detail
parse_detail-some line none m s e = cc
parse_detail-some line (some []) m s e = cc
parse_detail-some line (some (b ∷ bs)) m s e =
    let whole : line ≡ progress_text ++ (space ∷ b ∷ bs) =
      strip_prefix-some (progress_text ++ space ∷ []) line (b ∷ bs) s in
    (b ∷ bs, whole, ground arith, ground arith, omega arith)

progress_line-says :
    (line d : List ℕ)
    → line ≡ says d
    → printable d ≡ true
    → 0 < length d
    → length line ≤ 255
    → progress_line d ≡ ok (line ++ newline ∷ [])
unfolding progress_line
progress_line-says line [] e p n s = absurd (omega arith)
progress_line-says line (b ∷ bs) e p n s =
    let short : length bs + 1 ≤ 246 = omega (arith, ap length e) in ground (arith, p, e)

-- A line of at most 255 bytes that parses is exactly what a daemon sends, without its newline.
pub parse_sent :
    (line : List ℕ) (m : Message)
    → parse line ≡ some m
    → length line ≤ 255
    → ((m ≡ Message.ready) × (line ≡ ready_text))
      ⊎ ((d : List ℕ) × (m ≡ progress (detail_of d))
          × (progress_line d ≡ ok (line ++ newline ∷ [])))
unfolding parse
parse_sent line m e short = elim (Bool-cases (same_bytes line ready_text)) [
  | inl r ↦ inl (ground (arith, r), same_bytes_equal line ready_text r)
  | inr other ↦ elim (Bool-cases (same_bytes line progress_text)) [
    | inl p ↦ inr (
      [],
      ground (arith, other, p),
      unfold progress_line printable in rw (same_bytes_equal line progress_text p) refl,
    )
    | inr longer ↦
        let (d, whole, said, clean, some_bytes) =
          parse_detail-some line (strip_prefix (progress_text ++ space ∷ []) line) m refl
            (ground (arith, other, longer)) in
        inr (d, said, progress_line-says line d whole clean some_bytes short)
  ]
]
