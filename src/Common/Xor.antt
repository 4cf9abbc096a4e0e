-- ===== src/Common/Xor.antt =====
-- `^` of values by fields, at every width.
use Prim.Native.Nat.{
  ℕ, zero, suc, ◌+◌, ◌*◌, ◌/◌, ◌%◌, ◌^◌, ◌≤◌, ◌<◌, bit_xor, differ, bit_xor-bitwise,
}
use mathlib.Core.Path.{◌≡◌, refl}
use native.Mathlib.Nat.{pow-suc}
use native.Mathlib.Omega.{arith}
use amorphos_fsrf.Common.Bits.{low_digit, double_shift}

-- On digits, `differ` is the sum without its carry.
pub differ_digits : (a b : ℕ) → a < 2 → b < 2 → differ a b ≡ (a + b) % 2
differ_digits zero b ha hb = omega arith
differ_digits (suc zero) zero ha hb = refl
differ_digits (suc zero) (suc zero) ha hb = refl
differ_digits (suc zero) (suc (suc b)) ha hb = absurd (omega arith)
differ_digits (suc (suc a)) b ha hb = absurd (omega arith)

pub zero-bit_xor : (b : ℕ) → bit_xor 0 b ≡ b
zero-bit_xor b = bit_xor-bitwise 0 b

pub xor_digit : (a b : ℕ) → bit_xor a b ≡ bit_xor (a / 2) (b / 2) * 2 + differ (a % 2) (b % 2)
xor_digit zero b = simp bit_xor-bitwise (omega arith)
xor_digit (suc a) b = simp bit_xor-bitwise (low_digit (λ y. y) differ a b)

xor_zero_below : (n a : ℕ) → a ≤ n → bit_xor a 0 ≡ a
xor_zero_below n zero h = refl
xor_zero_below zero (suc a) h = absurd (omega arith)
xor_zero_below (suc n) (suc a) h = ground (
  arith,
  xor_digit (suc a) 0,
  differ_digits (suc a % 2) 0 (omega arith) (omega arith),
  xor_zero_below n (suc a / 2) (omega arith),
)

pub xor_zero : (a : ℕ) → bit_xor a 0 ≡ a
xor_zero a = xor_zero_below a a (omega arith)

pub differ-lt : (a b : ℕ) → a < 2 → b < 2 → differ a b < 2
differ-lt a b ha hb = omega (arith, differ_digits a b ha hb)

pub xor-lt : (k a b : ℕ) → a < 2 ^ k → b < 2 ^ k → bit_xor a b < 2 ^ k
xor-lt zero zero zero ha hb = omega (arith, zero-bit_xor 0)
xor-lt zero (suc a) b ha hb = absurd (omega arith)
xor-lt zero zero (suc b) ha hb = absurd (omega arith)
xor-lt (suc k) a b ha hb = omega (
  arith,
  xor_digit a b,
  pow-suc 2 k,
  differ-lt (a % 2) (b % 2) (omega arith) (omega arith),
  xor-lt k (a / 2) (b / 2) (omega (arith, pow-suc 2 k)) (omega (arith, pow-suc 2 k)),
)

-- `^` works on a high and a low field apart.
pub xor_fields :
    (k q r p s : ℕ)
    → r < 2 ^ k
    → s < 2 ^ k
    → bit_xor (q * 2 ^ k + r) (p * 2 ^ k + s) ≡ bit_xor q p * 2 ^ k + bit_xor r s
xor_fields zero q zero p zero hr hs = ground (arith, zero-bit_xor 0)
xor_fields zero q (suc r) p s hr hs = absurd (omega arith)
xor_fields zero q zero p (suc s) hr hs = absurd (omega arith)
xor_fields (suc k) q r p s hr hs = ground (
  arith,
  xor_digit (q * 2 ^ suc k + r) (p * 2 ^ suc k + s),
  xor_digit r s,
  double_shift q k,
  double_shift p k,
  double_shift (bit_xor q p) k,
  xor_fields k q (r / 2) p (s / 2) (omega arith) (omega arith),
)
