-- ===== src/Common/Bytes.antt =====
-- Texts as lists of numbers, and tests on options.
use Prim.Native.Nat.{ℕ}
use mathlib.Core.Path.{◌≡◌, refl}
use mathlib.Core.Bool.{Bool, true, false, ◌&&◌}
use mathlib.Core.Option.{Option, none, some}
use mathlib.Core.List.{List, [], ◌∷◌, ◌++◌}
use native.Mathlib.Omega.{arith}
use kunobi_daemon.Common.Tests.{◌==◌, if◌then◌else◌}

abbrev pub is_none {ℓ} : {A : Type ℓ} → Option A → Bool
is_none none = true
is_none (some _) = false

abbrev pub is_some {ℓ} : {A : Type ℓ} → Option A → Bool
is_some none = false
is_some (some _) = true

abbrev pub same_bytes : List ℕ → List ℕ → Bool
same_bytes [] [] = true
same_bytes (a ∷ as') (b ∷ bs) = a == b && same_bytes as' bs
same_bytes _ _ = false

pub same_bytes_refl : (a : List ℕ) → same_bytes a a ≡ true
same_bytes_refl [] = refl
same_bytes_refl (x ∷ a) = ground (arith, same_bytes_refl a)

pub same_bytes_equal : (a b : List ℕ) → same_bytes a b ≡ true → a ≡ b
same_bytes_equal [] [] h = refl
same_bytes_equal [] (y ∷ b) h = cc
same_bytes_equal (x ∷ a) [] h = cc
same_bytes_equal (x ∷ a) (y ∷ b) h = ground (arith, same_bytes_equal a b)

-- `slice::strip_prefix`.
abbrev pub strip_prefix : List ℕ → List ℕ → Option (List ℕ)
strip_prefix [] text = some text
strip_prefix (p ∷ ps) [] = none
strip_prefix (p ∷ ps) (b ∷ text) = if p == b then strip_prefix ps text else none

pub strip_prefix-append : (p text : List ℕ) → strip_prefix p (p ++ text) ≡ some text
strip_prefix-append [] text = refl
strip_prefix-append (x ∷ p) text = ground (arith, strip_prefix-append p text)

pub strip_prefix-some : (p text rest : List ℕ) → strip_prefix p text ≡ some rest → text ≡ p ++ rest
strip_prefix-some [] text rest h = cc
strip_prefix-some (x ∷ p) [] rest h = cc
strip_prefix-some (x ∷ p) (y ∷ text) rest h = ground (arith, strip_prefix-some p text rest)
