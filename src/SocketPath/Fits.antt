-- ===== src/SocketPath/Fits.antt =====
-- The sockets that fit a directory of src/socket_path.rs.
use kunobi_daemon.Common.{
  ok_inj, ℕ, ◌+◌, ◌≤◌, ◌≡◌, refl, sym, ap, ◌∙◌, Option, none, some, List, [], ◌∷◌, ok, length,
  length-append, arith, ◌⊎◌, inl, inr, Bool-cases, bind-ok,
}
use mathlib.Core.Path.{subst}
use kunobi_daemon.SocketPath.{
  slash, ends_slash, join, check_socket_path, longer, longest, check_longest, socket_dir, path,
}

-- A name that was declared.
abbrev pub IsDeclared : List ℕ → List (List ℕ) → Type 0
IsDeclared name [] = ⊥
IsDeclared name (other ∷ names) = (name ≡ other) ⊎ IsDeclared name names

length-join : (dir a b : List ℕ) → length a ≤ length b → length (join dir a) ≤ length (join dir b)
unfolding join
length-join dir a b h = elim (Bool-cases (ends_slash dir)) [
  | inl e ↦ rw e (omega (arith, h, length-append dir a, length-append dir b))
  | inr e ↦ rw e (omega (arith, h, length-append dir (slash ∷ a), length-append dir (slash ∷ b)))
]

length-join_bound : (dir name : List ℕ) → length (join dir name) ≤ length dir + (length name + 1)
unfolding join
length-join_bound dir name = elim (Bool-cases (ends_slash dir)) [
  | inl e ↦ rw e (omega (arith, length-append dir name))
  | inr e ↦ rw e (omega (arith, length-append dir (slash ∷ name)))
]

length-longer_first : (name : List ℕ) (o : Option (List ℕ)) → length name ≤ length (longer name o)
length-longer_first name none = omega arith
length-longer_first name (some other) = ground arith

length-longer_second : (name other : List ℕ) → length other ≤ length (longer name (some other))
length-longer_second name other = ground arith

-- No declared name is longer than the longest.
declared-longest :
    (name : List ℕ) (names : List (List ℕ))
    → IsDeclared name names
    → (top : List ℕ) × (longest names ≡ some top) × (length name ≤ length top)
unfolding longest
declared-longest name [] d = absurd d
declared-longest name (other ∷ names) (inl e) = (
  longer other (longest names),
  refl,
  omega (arith, ap length e, length-longer_first other (longest names)),
)
declared-longest name (other ∷ names) (inr d) =
    let (top, is_top, bound) = declared-longest name names d in
    (
      longer other (longest names),
      refl,
      subst (λ o. length name ≤ length (longer other o)) (sym is_top)
          (omega (arith, bound, length-longer_second other top)),
    )

check_longest-fits :
    (limit : Option ℕ) (dir name top : List ℕ) (u : Unit {0})
    → length name ≤ length top
    → check_longest limit dir (some top) ≡ ok u
    → check_socket_path limit (join dir name) ≡ ok tt
unfolding check_longest check_socket_path
check_longest-fits none dir name top u b h = refl
check_longest-fits (some limit) dir name top u b h = ground (arith, length-join dir name top b)

-- A directory that was checked holds every socket that was declared to it: its path is the
-- directory joined with the name, and is not too long.
pub path-declared :
    (limit : Option ℕ) (dir checked name : List ℕ) (names : List (List ℕ))
    → socket_dir limit dir names ≡ ok checked
    → IsDeclared name names
    → path limit checked name ≡ ok (join dir name)
unfolding socket_dir path
path-declared limit dir checked name names h d =
    let (u, fits, same) = bind-ok (check_longest limit dir (longest names)) (λ u. ok dir) h in
    let (top, is_top, bound) = declared-longest name names d in
    let fine =
      check_longest-fits limit dir name top u bound
        (ap (check_longest limit dir) (sym is_top) ∙ fits) in
    rw (sym (ok_inj same), fine) refl
