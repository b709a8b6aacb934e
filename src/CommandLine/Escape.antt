-- ===== src/CommandLine/Escape.antt =====
-- What `append_argument` of src/local/command_line.rs writes, without its loop variables.
use kunobi_daemon.Common.{
  ℕ, ◌+◌, ◌*◌, ◌≡◌, refl, ap, ◌∙◌, inl, inr, true, false, List, [], ◌∷◌, ◌++◌, arith, replicate,
  ◌==◌, if◌then◌else◌, Bool-cases,
}
use mathlib.Core.List.{append_assoc}
use kunobi_daemon.CommandLine.{
  quote, backslash, needs_quotes, append_unit, append_units, append_argument,
}

-- The rest of a quoted argument behind so many backslashes.
unfoldable pub escape : ℕ → List ℕ → List ℕ
escape k [] = replicate (k * 2) backslash ++ quote ∷ []
escape k (u ∷ us) =
    if u == backslash
    then escape (k + 1) us
    else if u == quote
    then replicate (k * 2 + 1) backslash ++ u ∷ escape 0 us
    else replicate k backslash ++ u ∷ escape 0 us

abbrev close : List ℕ × ℕ → List ℕ
close (line, k) = (line ++ replicate (k * 2) backslash) ++ quote ∷ []

module _ (line : List ℕ) (k u : ℕ) where
  unit_backslash : (u == backslash) ≡ true → append_unit (line, k) u ≡ (line, k + 1)
  unfolding append_unit
  unit_backslash h = ground arith

  unit_quote :
      (u == backslash) ≡ false
      → (u == quote) ≡ true
      → append_unit (line, k) u ≡ ((line ++ replicate (k * 2 + 1) backslash) ++ u ∷ [], 0)
  unfolding append_unit
  unit_quote h q = ground arith

  unit_plain :
      (u == backslash) ≡ false
      → (u == quote) ≡ false
      → append_unit (line, k) u ≡ ((line ++ replicate k backslash) ++ u ∷ [], 0)
  unfolding append_unit
  unit_plain h q = ground arith

append_units-escape :
    (line : List ℕ) (k : ℕ) (arg : List ℕ)
    → close (append_units (line, k) arg) ≡ line ++ escape k arg
unfolding append_units escape
append_units-escape line k [] = simp append_assoc
append_units-escape line k (u ∷ us) = elim (Bool-cases (u == backslash)) [
  | inl slash ↦ rw slash (
      ap (λ (s : List ℕ × ℕ). close (append_units s us)) (unit_backslash line k u slash)
      ∙ append_units-escape line (k + 1) us)
  | inr other ↦ elim (Bool-cases (u == quote)) [
    | inl q ↦
        rw (other, q)
          (ap (λ (s : List ℕ × ℕ). close (append_units s us)) (unit_quote line k u other q)
            ∙ append_units-escape ((line ++ replicate (k * 2 + 1) backslash) ++ u ∷ []) 0 us
            ∙ simp append_assoc)
    | inr plain ↦
        rw (other, plain)
          (ap (λ (s : List ℕ × ℕ). close (append_units s us)) (unit_plain line k u other plain)
            ∙ append_units-escape ((line ++ replicate k backslash) ++ u ∷ []) 0 us
            ∙ simp append_assoc)
  ]
]

pub append_argument-escape :
    (line arg : List ℕ)
    → append_argument line arg ≡ line ++ (if needs_quotes arg then quote ∷ escape 0 arg else arg)
unfolding append_argument
append_argument-escape line arg = elim (Bool-cases (needs_quotes arg)) [
  | inl q ↦ rw q (append_units-escape (line ++ quote ∷ []) 0 arg ∙ simp append_assoc)
  | inr plain ↦ rw plain refl
]
