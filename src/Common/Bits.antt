-- ===== src/Common/Bits.antt =====
-- The bits of a number, and what the operations on masks do to each of them.
use Prim.Native.Nat.{
  ℕ, zero, suc, ◌+◌, ◌-◌, ◌*◌, ◌/◌, ◌%◌, ◌^◌, ◌≤◌, ◌<◌, min, max, digits, bit_and, bit_or,
  bit_and-bitwise, bit_or-bitwise,
}
use mathlib.Core.Path.{◌≡◌, refl, ap, ◌∙◌}
use native.Mathlib.Omega.{arith}
use native.Mathlib.Nat.{pow-suc, add-zero, zero-add, suc-add}
use kunobi_daemon.Common.Words.{pow_pos}

-- Bit `k` of `x`, 0 or 1.
pub bit : ℕ → ℕ → ℕ
bit zero x = x % 2
bit (suc k) x = bit k (x / 2)

pub bit-le : (k x : ℕ) → bit k x ≤ 1
unfolding bit
bit-le zero x = omega arith
bit-le (suc k) x = bit-le k (x / 2)

pub bit-zero : (k : ℕ) → bit k 0 ≡ 0
unfolding bit
bit-zero zero = refl
bit-zero (suc k) = bit-zero k

-- Numbers with the same bits are the same.
same_bits : (n a b : ℕ) → a ≤ n → b ≤ n → ((k : ℕ) → bit k a ≡ bit k b) → a ≡ b
unfolding bit
same_bits zero a b ha hb h = omega arith
same_bits (suc n) a b ha hb h =
    omega (arith, h 0, same_bits n (a / 2) (b / 2) (omega arith) (omega arith) (λ k. h (suc k)))

pub bit_ext : (a b : ℕ) → ((k : ℕ) → bit k a ≡ bit k b) → a ≡ b
bit_ext a b h = same_bits (a + b) a b (omega arith) (omega arith) h

-- More fuel than the first number changes nothing.
module _ (rest : ℕ → ℕ) (on_bits : ℕ → ℕ → ℕ) where
  more_fuel :
      (extra n a b : ℕ) → a ≤ n → digits rest on_bits (n + extra) a b ≡ digits rest on_bits n a b
  more_fuel zero n a b h = rw add-zero refl
  more_fuel (suc extra) zero zero b h = rw zero-add refl
  more_fuel (suc extra) zero (suc a) b h = absurd (omega arith)
  more_fuel (suc extra) (suc n) zero b h = rw suc-add refl
  more_fuel (suc extra) (suc n) (suc a) b h =
      rw (suc-add, more_fuel (suc extra) n (suc a / 2) (b / 2) (omega arith))

  digits_step :
      (a b : ℕ)
      → digits rest on_bits (suc a) (suc a) b
        ≡ digits rest on_bits (suc a / 2) (suc a / 2) (b / 2) * 2 + on_bits (suc a % 2) (b % 2)
  digits_step a b =
      let extra : ℕ = a - suc a / 2 in
      let e : a ≡ suc a / 2 + extra = omega arith in omega (arith, short e)
    where
      short :
          a ≡ suc a / 2 + (a - suc a / 2)
          → digits rest on_bits a (suc a / 2) (b / 2)
            ≡ digits rest on_bits (suc a / 2) (suc a / 2) (b / 2)
      short e =
          ap (λ (n : ℕ). digits rest on_bits n (suc a / 2) (b / 2)) e
          ∙ more_fuel (a - suc a / 2) (suc a / 2) (suc a / 2) (b / 2) (omega arith)

and_step : (a b : ℕ) → bit_and a b ≡ bit_and (a / 2) (b / 2) * 2 + min (a % 2) (b % 2)
and_step zero b = simp bit_and-bitwise (omega arith)
and_step (suc a) b = simp bit_and-bitwise (digits_step (λ _. 0) min a b)

or_step : (a b : ℕ) → bit_or a b ≡ bit_or (a / 2) (b / 2) * 2 + max (a % 2) (b % 2)
or_step zero b = simp bit_or-bitwise (omega arith)
or_step (suc a) b = simp bit_or-bitwise (digits_step (λ y. y) max a b)

half_and : (a b : ℕ) → bit_and a b / 2 ≡ bit_and (a / 2) (b / 2)
half_and a b = omega (arith, and_step a b)

half_or : (a b : ℕ) → bit_or a b / 2 ≡ bit_or (a / 2) (b / 2)
half_or a b = omega (arith, or_step a b)

pub bit-bit_and : (k a b : ℕ) → bit k (bit_and a b) ≡ min (bit k a) (bit k b)
unfolding bit
bit-bit_and zero a b = omega (arith, and_step a b)
bit-bit_and (suc k) a b = rw (half_and a b) (bit-bit_and k (a / 2) (b / 2))

pub bit-bit_or : (k a b : ℕ) → bit k (bit_or a b) ≡ max (bit k a) (bit k b)
unfolding bit
bit-bit_or zero a b = omega (arith, or_step a b)
bit-bit_or (suc k) a b = rw (half_or a b) (bit-bit_or k (a / 2) (b / 2))

-- The bits of `!x` in a word of `w` bits.
pub bit-complement : (k w x : ℕ) → k < w → x < 2 ^ w → bit k (2 ^ w - 1 - x) ≡ 1 - bit k x
unfolding bit
bit-complement k zero x h b = absurd (omega arith)
bit-complement zero (suc w) x h b = omega (arith, pow-suc 2 w, pow_pos w)
bit-complement (suc k) (suc w) x h b =
    rw (half w x b) (bit-complement k w (x / 2) (omega arith) (omega (arith, pow-suc 2 w)))
  where
    half : (v y : ℕ) → y < 2 ^ suc v → (2 ^ suc v - 1 - y) / 2 ≡ 2 ^ v - 1 - y / 2
    half v y c = omega (arith, pow-suc 2 v, pow_pos v)

-- Above its width a number has no bits.
pub bit_above : (k w x : ℕ) → w ≤ k → x < 2 ^ w → bit k x ≡ 0
unfolding bit
bit_above k zero x h b = rw (zero_of x (omega arith)) (bit-zero k)
  where
    zero_of : (y : ℕ) → y < 1 → y ≡ 0
    zero_of y c = omega arith
bit_above zero (suc w) x h b = absurd (omega arith)
bit_above (suc k) (suc w) x h b = bit_above k w (x / 2) (omega arith) (omega (arith, pow-suc 2 w))

-- The operations on masks stay within the word.
zero-bit_and : (b : ℕ) → bit_and 0 b ≡ 0
zero-bit_and b = simp bit_and-bitwise

bit_and-le_below : (n a b : ℕ) → a ≤ n → bit_and a b ≤ a
bit_and-le_below n zero b h = omega (arith, zero-bit_and b)
bit_and-le_below zero (suc a) b h = absurd (omega arith)
bit_and-le_below (suc n) (suc a) b h =
    omega (arith, and_step (suc a) b, bit_and-le_below n (suc a / 2) (b / 2) (omega arith))

pub bit_and-le : (a b : ℕ) → bit_and a b ≤ a
bit_and-le a b = bit_and-le_below a a b (omega arith)

pub bit_or-lt : (w a b : ℕ) → a < 2 ^ w → b < 2 ^ w → bit_or a b < 2 ^ w
bit_or-lt zero zero zero h k = omega arith
bit_or-lt zero zero (suc b) h k = absurd (omega arith)
bit_or-lt zero (suc a) b h k = absurd (omega arith)
bit_or-lt (suc w) a b h k = omega (
  arith,
  or_step a b,
  pow-suc 2 w,
  bit_or-lt w (a / 2) (b / 2) (omega (arith, pow-suc 2 w)) (omega (arith, pow-suc 2 w)),
)
