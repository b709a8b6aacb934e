-- ===== src/Publication/Directory.antt =====
-- The directory of src/publication.rs: what a name names after each change.
use kunobi_daemon.Common.{
  ◌≡◌, refl, ◌∙◌, true, false, none, some, [], ◌∷◌, if◌then◌else◌, arith, inl, inr, Bool-cases,
}
use mathlib.Core.Path.{subst}
use kunobi_daemon.Publication.{
  Name, record_name, temporary, other, Node, Files, same_name, lookup, remove, put,
}

pub same_name_sound : (a b : Name) → same_name a b ≡ true → a ≡ b
unfolding same_name
same_name_sound record_name record_name h = refl
same_name_sound record_name (temporary pid n) h = cc
same_name_sound record_name (other n) h = cc
same_name_sound (temporary pid n) record_name h = cc
same_name_sound (temporary pid n) (temporary pid' n') h =
    let p : pid ≡ pid' = ground arith in let q : n ≡ n' = ground arith in rw (p, q) refl
same_name_sound (temporary pid n) (other m) h = cc
same_name_sound (other n) record_name h = cc
same_name_sound (other n) (temporary pid m) h = cc
same_name_sound (other n) (other m) h = let p : n ≡ m = ground arith in rw p refl

pub same_name_refl : (a : Name) → same_name a a ≡ true
unfolding same_name
same_name_refl record_name = refl
same_name_refl (temporary pid n) = ground arith
same_name_refl (other n) = ground arith

pub lookup-remove_same : (name : Name) (files : Files) → lookup name (remove name files) ≡ none
unfolding lookup remove
lookup-remove_same name [] = refl
lookup-remove_same name ((m, node) ∷ files) = elim (Bool-cases (same_name name m)) [
  | inl h ↦ rw h (lookup-remove_same name files)
  | inr h ↦ rw (h, h) (lookup-remove_same name files)
]

lookup-remove_other :
    (name from : Name) (files : Files)
    → same_name name from ≡ false
    → lookup name (remove from files) ≡ lookup name files
unfolding lookup remove
lookup-remove_other name from [] d = refl
lookup-remove_other name from ((m, node) ∷ files) d = elim (Bool-cases (same_name from m)) [
  | inl h ↦
      let away : same_name name m ≡ false =
        subst (λ k. same_name name k ≡ false) (same_name_sound from m h) d in
      rw (h, away) (lookup-remove_other name from files d)
  | inr h ↦ rw h (elim (Bool-cases (same_name name m)) [
    | inl e ↦ rw e refl
    | inr e ↦ rw e (lookup-remove_other name from files d)
  ])
]

-- What a name names after a put.
pub lookup-put :
    (name at : Name) (node : Node) (files : Files)
    → lookup name (put at node files) ≡ (if same_name name at then some node else lookup name files)
unfolding put lookup
lookup-put name at node files = elim (Bool-cases (same_name name at)) [
  | inl h ↦ rw h refl
  | inr h ↦ rw h (lookup-remove_other name at files h)
]

pub lookup-remove :
    (name from : Name) (files : Files)
    → lookup name (remove from files) ≡ (if same_name name from then none else lookup name files)
lookup-remove name from files = elim (Bool-cases (same_name name from)) [
  | inl h ↦ rw (h, same_name_sound name from h) (lookup-remove_same from files)
  | inr h ↦ rw h (lookup-remove_other name from files h)
]

pub lookup-put_same :
    (at : Name) (node : Node) (files : Files) → lookup at (put at node files) ≡ some node
lookup-put_same at node files = lookup-put at at node files ∙ (rw (same_name_refl at) refl)
