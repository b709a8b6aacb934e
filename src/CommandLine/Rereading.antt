-- ===== src/CommandLine/Rereading.antt =====
-- How one argument of src/local/command_line.rs is read back, unit by unit.
use kunobi_daemon.Common.{
  ℕ, zero, suc, ◌+◌, ◌*◌, ◌/◌, ◌%◌, ◌≡◌, refl, sym, ap, ◌∙◌, inl, inr, Bool, true, false, List, [],
  ◌∷◌, ◌++◌, arith, replicate, ◌==◌, ==_iff, if◌then◌else◌, Bool-cases,
}
use mathlib.Core.List.{append_assoc, append-nil}
use native.Mathlib.Nat.{add-zero, zero-add}
use native.Mathlib.Numerals.{add-one}
use kunobi_daemon.CommandLine.{quote, backslash, space, is_special, any_special, needs_quotes}
use kunobi_daemon.CommandLine.Escape.{escape}
use kunobi_daemon.CommandLine.Reader.{
  DoubledQuote, between, in_word, Reader, read_unit, read, finish, read-append,
}

-- A reader inside a word.
abbrev pub inside : List (List ℕ) → List ℕ → ℕ → Bool → Bool → Reader
inside ws w k quoted closing = record { words = ws; word = w; phase = in_word k quoted closing }

pub replicate-cons :
    (k : ℕ) (us : List ℕ)
    → replicate (k + 1) backslash ++ us ≡ replicate k backslash ++ backslash ∷ us
replicate-cons zero us = refl
replicate-cons (suc k) us = rw add-one (ap (◌∷◌ backslash) (rw add-one at (replicate-cons k us)))

pub odd_rest : (k : ℕ) → (k * 2 + 1) % 2 ≡ 1
odd_rest k = omega arith

pub odd_half : (k : ℕ) → (k * 2 + 1) / 2 ≡ k
odd_half k = omega arith

pub even_rest : (k : ℕ) → k * 2 % 2 ≡ 0
even_rest k = omega arith

pub even_half : (k : ℕ) → k * 2 / 2 ≡ k
even_half k = omega arith

module _ (doubled : DoubledQuote) (ws : List (List ℕ)) where
  -- Backslashes are counted, and understood at the next unit.
  pub read-replicate :
      (w : List ℕ) (n k : ℕ) (q : Bool)
      → read doubled (inside ws w k q false) (replicate n backslash) ≡ inside ws w (k + n) q false
  unfolding read read_unit
  read-replicate w zero k q = rw add-zero
  read-replicate w (suc n) k q =
      read-replicate w n (k + 1) q ∙ ap (λ (j : ℕ). inside ws w j q false) (omega arith)

  -- In a quoted region, any unit but the two that have a meaning there.
  pub plain_unit :
      (w : List ℕ) (k u : ℕ)
      → (u == backslash) ≡ false
      → (u == quote) ≡ false
      → read_unit doubled (inside ws w k true false) u
        ≡ inside ws (w ++ (replicate k backslash ++ u ∷ [])) 0 true false
  unfolding read_unit
  plain_unit w k u b q = rw (b, q) (ground arith)

  -- An odd run of backslashes escapes the quote, an even one does not.
  pub escaped_quote :
      (w : List ℕ) (k : ℕ)
      → read_unit doubled (inside ws w (k * 2 + 1) true false) quote
        ≡ inside ws (w ++ (replicate k backslash ++ quote ∷ [])) 0 true false
  unfolding read_unit
  escaped_quote w k = rw (odd_rest k, odd_half k) refl

  pub closing_quote :
      (w : List ℕ) (k : ℕ)
      → read_unit doubled (inside ws w (k * 2) true false) quote
        ≡ inside ws (w ++ replicate k backslash) 0 true true
  unfolding read_unit
  closing_quote w k = rw (even_rest k, even_half k) refl

  pub read_closing :
      (w : List ℕ) (k : ℕ)
      → read doubled (inside ws w 0 true false) (replicate (k * 2) backslash ++ quote ∷ [])
        ≡ inside ws (w ++ replicate k backslash) 0 true true
  unfolding read
  read_closing w k =
      rw
        (
          read-append doubled (inside ws w 0 true false) (replicate (k * 2) backslash) (quote ∷ []),
          read-replicate w (k * 2) 0 true,
          zero-add,
        )
        (closing_quote w k)

  -- A run of backslashes and the unit that tells what they mean.
  pub read_run :
      (w w' : List ℕ) (n u : ℕ) (rest : List ℕ)
      → read_unit doubled (inside ws w n true false) u ≡ inside ws w' 0 true false
      → read doubled (inside ws w 0 true false) (replicate n backslash ++ u ∷ rest)
        ≡ read doubled (inside ws w' 0 true false) rest
  unfolding read
  read_run w w' n u rest e = rw (
    read-append doubled (inside ws w 0 true false) (replicate n backslash) (u ∷ rest),
    read-replicate w n 0 true,
    zero-add,
    e,
  )

  -- What is written for the rest of an argument is read as that rest, up to the closing quote.
  pub read-escape :
      (w : List ℕ) (k : ℕ) (arg : List ℕ)
      → read doubled (inside ws w 0 true false) (escape k arg)
        ≡ inside ws (w ++ (replicate k backslash ++ arg)) 0 true true
  unfolding escape
  read-escape w k [] = rw append-nil (read_closing w k)
  read-escape w k (u ∷ us) = elim (Bool-cases (u == backslash)) [
    | inl slash ↦ rw slash (
        read-escape w (k + 1) us
        ∙ ap (λ (z : List ℕ). inside ws (w ++ z) 0 true true)
            (rw ((==_iff u backslash).0 slash) (replicate-cons k us)))
    | inr other ↦ elim (Bool-cases (u == quote)) [
      | inl q ↦
          rw (other, q)
            (read_run w (w ++ (replicate k backslash ++ u ∷ [])) (k * 2 + 1) u (escape 0 us)
                (rw ((==_iff u quote).0 q) (escaped_quote w k))
              ∙ read-escape (w ++ (replicate k backslash ++ u ∷ [])) 0 us
              ∙ simp append_assoc)
      | inr plain ↦
          rw (other, plain)
            (read_run w (w ++ (replicate k backslash ++ u ∷ [])) k u (escape 0 us)
                (plain_unit w k u other plain)
              ∙ read-escape (w ++ (replicate k backslash ++ u ∷ [])) 0 us
              ∙ simp append_assoc)
    ]
  ]

-- A reader that a space, or the end of the line, leaves with these words.
pub record Closes (doubled : DoubledQuote) (r : Reader) (words : List (List ℕ)) : Type 0 where
  pub by_space : read_unit doubled r space ≡ record { words = words; word = []; phase = between }
  pub by_end : finish r ≡ words

module _ (doubled : DoubledQuote) (ws : List (List ℕ)) where
  pub inside-Closes :
      (w : List ℕ) (k : ℕ)
      → Closes doubled (inside ws w k false false) (ws ++ (w ++ replicate k backslash) ∷ [])
  unfolding read_unit finish
  inside-Closes w k = record { by_space = refl; by_end = refl }

  pub closed-Closes : (w : List ℕ) → Closes doubled (inside ws w 0 true true) (ws ++ w ∷ [])
  unfolding read_unit finish
  closed-Closes w = record { by_space = simp append-nil; by_end = simp append-nil }

  -- Outside a quoted region, a unit that needs no quotes.
  pub bare_unit :
      (w : List ℕ) (k u : ℕ)
      → is_special u ≡ false
      → (w' : List ℕ) × (k' : ℕ) × (read_unit doubled (inside ws w k false false) u
          ≡ inside ws w' k' false false)
        × (w' ++ replicate k' backslash ≡ (w ++ replicate k backslash) ++ u ∷ [])
  unfolding read_unit
  bare_unit w k u h = elim (Bool-cases (u == backslash)) [
    | inl slash ↦ (
      w,
      k + 1,
      ground arith,
      rw ((==_iff u backslash).0 slash) (
          ap (◌++◌ w) (rw append-nil at (replicate-cons k []))
          ∙ sym (append_assoc w (replicate k backslash) (backslash ∷ []))),
    )
    | inr other ↦
        (w ++ (replicate k backslash ++ u ∷ []), 0, ground arith, simp (append-nil, append_assoc))
  ]

  pub read-bare :
      (w : List ℕ) (k : ℕ) (arg : List ℕ)
      → any_special arg ≡ false
      → Closes doubled
          (read doubled (inside ws w k false false) arg)
          (ws ++ ((w ++ replicate k backslash) ++ arg) ∷ [])
  unfolding read
  read-bare w k [] h = rw append-nil (inside-Closes w k)
  read-bare w k (u ∷ us) h =
      let (w', k', e, same) = bare_unit w k u (ground arith) in
      rw e (
        rw (← append_assoc (w ++ replicate k backslash) (u ∷ []) us, ← same)
          (read-bare w' k' us (ground arith)))

  pub first_unit :
      (u : ℕ)
      → is_special u ≡ false
      → read_unit doubled (record { words = ws; word = []; phase = between }) u
        ≡ read_unit doubled (inside ws [] 0 false false) u
  unfolding read_unit
  first_unit u h = ground arith

  pub read_bare_argument :
      (arg : List ℕ)
      → needs_quotes arg ≡ false
      → Closes doubled
          (read doubled (record { words = ws; word = []; phase = between }) arg)
          (ws ++ arg ∷ [])
  unfolding needs_quotes read
  read_bare_argument [] h = cc
  read_bare_argument (u ∷ us) h = rw (first_unit u (ground arith)) (read-bare [] 0 (u ∷ us) h)

  -- One argument, read from between two words.
  pub read_argument :
      (arg : List ℕ)
      → Closes doubled
          (read doubled
            (record { words = ws; word = []; phase = between })
            (if needs_quotes arg then quote ∷ escape 0 arg else arg))
          (ws ++ arg ∷ [])
  read_argument arg = elim (Bool-cases (needs_quotes arg)) [
    | inl q ↦ rw q (quoted arg)
    | inr plain ↦ rw plain (read_bare_argument arg plain)
  ]
    where
      quoted :
          (a : List ℕ)
          → Closes doubled
              (read doubled
                (record { words = ws; word = []; phase = between })
                (quote ∷ escape 0 a))
              (ws ++ a ∷ [])
      quoted a = unfold read read_unit in rw (read-escape doubled ws [] 0 a) (closed-Closes a)
