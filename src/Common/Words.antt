-- ===== src/Common/Words.antt =====
-- Unsigned 64-bit words: the saturating operations of the Rust standard library.
use Prim.Native.Nat.{ℕ, zero, suc, ◌+◌, ◌*◌, ◌%◌, ◌^◌, ◌≤◌, min}
use mathlib.Core.Path.{◌≡◌}
use native.Mathlib.Omega.{arith}
use native.Mathlib.Nat.{pow-suc}

abbrev pub u64_max : ℕ
u64_max = 0xffff_ffff_ffff_ffff

abbrev pub saturating_add : ℕ → ℕ → ℕ
saturating_add a b = min (a + b) u64_max

abbrev pub saturating_mul : ℕ → ℕ → ℕ
saturating_mul a b = min (a * b) u64_max

-- `1u64 << k`, for a shift by less than 64.
abbrev pub one_shl : ℕ → ℕ
one_shl k = 2 ^ k % (u64_max + 1)

pub pow_pos : (k : ℕ) → 1 ≤ 2 ^ k
pow_pos zero = omega arith
pow_pos (suc k) = omega (arith, pow-suc 2 k, pow_pos k)

pub pow_mono : (a b : ℕ) → a ≤ b → 2 ^ a ≤ 2 ^ b
pow_mono zero b h = pow_pos b
pow_mono (suc a) zero h = absurd (omega arith)
pow_mono (suc a) (suc b) h = omega (arith, pow-suc 2 a, pow-suc 2 b, pow_mono a b (omega arith))

-- A shift by at most 63 loses no bit.
pub one_shl_exact : (k : ℕ) → k ≤ 63 → one_shl k ≡ 2 ^ k
one_shl_exact k h = omega (arith, pow_mono k 63 h)
