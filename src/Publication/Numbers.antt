-- ===== src/Publication/Numbers.antt =====
-- The numbers of temporary files of src/publication.rs: the search for a free one ends.
use kunobi_daemon.Common.{
  ℕ, zero, suc, ◌+◌, ◌≤◌, ◌<◌, ◌≡◌, refl, Bool, true, false, ◌&&◌, none, some, [], ◌∷◌, ◌==◌,
  if◌then◌else◌, leb, length, arith, inl, inr, Bool-cases, Option-cases,
}
use kunobi_daemon.Publication.{
  Name, record_name, temporary, other, Node, Files, same_name, lookup, next_free, free_number,
}

-- The temporary names of a process from a number on.
abbrev pub is_later : ℕ → ℕ → Name → Bool
is_later pid n (temporary p m) = p == pid && leb n m
is_later pid n record_name = false
is_later pid n (other m) = false

unfoldable pub later : ℕ → ℕ → Files → ℕ
later pid n [] = 0
later pid n ((name, node) ∷ files) = (if is_later pid n name then 1 else 0) + later pid n files

pub later-length : (pid n : ℕ) (files : Files) → later pid n files ≤ length files
unfolding later
later-length pid n [] = omega arith
later-length pid n ((name, node) ∷ files) = ground (arith, later-length pid n files)

later_name :
    (pid n : ℕ) (name : Name) → is_later pid (n + 1) name ≡ true → is_later pid n name ≡ true
later_name pid n (temporary p m) h = ground arith
later_name pid n record_name h = h
later_name pid n (other m) h = h

later_suc : (pid n : ℕ) (files : Files) → later pid (n + 1) files ≤ later pid n files
unfolding later
later_suc pid n [] = omega arith
later_suc pid n ((name, node) ∷ files) =
    ground (arith, later_suc pid n files, later_name pid n name)

taken_name :
    (pid n : ℕ) (name : Name)
    → same_name (temporary pid n) name ≡ true
    → (is_later pid n name ≡ true) × (is_later pid (n + 1) name ≡ false)
unfolding same_name
taken_name pid n (temporary p m) h = ground arith
taken_name pid n record_name h = absurd cc
taken_name pid n (other m) h = absurd cc

later_taken :
    (pid n : ℕ) (files : Files) (node : Node)
    → lookup (temporary pid n) files ≡ some node
    → later pid (n + 1) files < later pid n files
unfolding later lookup
later_taken pid n [] node h = cc
later_taken pid n ((name, x) ∷ files) node h =
    elim (Bool-cases (same_name (temporary pid n) name)) [
      | inl e ↦
          let (here, passed) = taken_name pid n name e in
          rw (here, passed) (omega (arith, later_suc pid n files))
      | inr e ↦ ground (arith, later_taken pid n files node, later_name pid n name)
    ]

pub free_number-free :
    (fuel pid next : ℕ) (files : Files)
    → later pid next files < fuel
    → (n : ℕ) × (free_number fuel pid next files ≡ some n) × (lookup (temporary pid n) files ≡ none)
unfolding free_number next_free
free_number-free zero pid next files h = absurd (omega (arith, h))
free_number-free (suc fuel) pid next files h =
    elim (Option-cases (lookup (temporary pid next) files)) [
      | inl e ↦ (next, rw e refl, e)
      | inr (node, e) ↦
          let (n, found, fresh) =
            free_number-free fuel pid (next + 1) files
              (omega (arith, h, later_taken pid next files node e)) in
          (n, rw e found, fresh)
    ]
