-- ===== src/Common/Bits.antt =====
-- `|` of values whose set bits do not overlap is a sum, and `&` with a mask of low ones is a
-- remainder, at every width.
use Prim.Native.Nat.{
  ℕ, zero, suc, ◌+◌, ◌-◌, ◌*◌, ◌/◌, ◌%◌, ◌^◌, ◌≤◌, ◌<◌, min, max, bit_and, bit_or, digits, bitwise,
  bit_and-bitwise, bit_or-bitwise,
}
use mathlib.Core.Path.{◌≡◌, refl, ap}
use native.Mathlib.Nat.{pow-suc, one-le-pow, le_refl, mod-eq_of_lt}
use amorphos_fsrf.Common.Word.{u64_mod, ◌<<<◌}
use native.Mathlib.Omega.{arith}

module _ (rest : ℕ → ℕ) (op : ℕ → ℕ → ℕ) where
  -- More fuel than the first operand needs changes nothing.
  enough_fuel : (m n a b : ℕ) → a ≤ m → a ≤ n → digits rest op m a b ≡ digits rest op n a b
  enough_fuel zero zero a b hm hn = refl
  enough_fuel zero (suc n) zero b hm hn = refl
  enough_fuel zero (suc n) (suc a) b hm hn = absurd (omega arith)
  enough_fuel (suc m) zero zero b hm hn = refl
  enough_fuel (suc m) zero (suc a) b hm hn = absurd (omega arith)
  enough_fuel (suc m) (suc n) zero b hm hn = refl
  enough_fuel (suc m) (suc n) (suc a) b hm hn =
      rw (enough_fuel m n (suc a / 2) (b / 2) (omega arith) (omega arith))

  pub low_digit :
      (a b : ℕ)
      → bitwise rest op (suc a) b ≡ bitwise rest op (suc a / 2) (b / 2) * 2 + op (suc a % 2) (b % 2)
  low_digit a b =
      omega (arith, enough_fuel a (suc a / 2) (suc a / 2) (b / 2) (omega arith) (le_refl _))

pub or_digit : (a b : ℕ) → bit_or a b ≡ bit_or (a / 2) (b / 2) * 2 + max (a % 2) (b % 2)
or_digit zero b = simp bit_or-bitwise (omega arith)
or_digit (suc a) b = simp bit_or-bitwise (low_digit (λ y. y) max a b)

pub and_digit : (a b : ℕ) → bit_and a b ≡ bit_and (a / 2) (b / 2) * 2 + min (a % 2) (b % 2)
and_digit zero b = simp bit_and-bitwise (omega arith)
and_digit (suc a) b = simp bit_and-bitwise (low_digit (λ y. 0) min a b)

zero-bit_or : (b : ℕ) → bit_or 0 b ≡ b
zero-bit_or b = bit_or-bitwise 0 b

or_zero_below : (n a : ℕ) → a ≤ n → bit_or a 0 ≡ a
or_zero_below n zero h = refl
or_zero_below zero (suc a) h = absurd (omega arith)
or_zero_below (suc n) (suc a) h =
    omega (arith, or_digit (suc a) 0, or_zero_below n (suc a / 2) (omega arith))

pub and_zero_below : (n a : ℕ) → a ≤ n → bit_and a 0 ≡ 0
and_zero_below n zero h = refl
and_zero_below zero (suc a) h = absurd (omega arith)
and_zero_below (suc n) (suc a) h =
    omega (arith, and_digit (suc a) 0, and_zero_below n (suc a / 2) (omega arith))

pub double_shift : (q k : ℕ) → q * 2 ^ suc k ≡ 2 * (q * 2 ^ k)
double_shift q k = omega (arith, ap (λ (t : ℕ). q * t) (pow-suc 2 k))

-- The high field on the left of `|`.
pub or_high_low : (k q r : ℕ) → r < 2 ^ k → bit_or (q * 2 ^ k) r ≡ q * 2 ^ k + r
or_high_low zero q r h = ground (arith, or_zero_below q q)
or_high_low (suc k) q r h =
    ground
      (arith, or_digit (q * 2 ^ suc k) r, double_shift q k, or_high_low k q (r / 2) (omega arith))

-- The high field on the right of `|`.
pub or_low_high : (k q r : ℕ) → r < 2 ^ k → bit_or r (q * 2 ^ k) ≡ q * 2 ^ k + r
or_low_high zero q r h = ground (arith, zero-bit_or q)
or_low_high (suc k) q r h =
    ground
      (arith, or_digit r (q * 2 ^ suc k), double_shift q k, or_low_high k q (r / 2) (omega arith))

and_split : (k q r : ℕ) → r < 2 ^ k → bit_and (q * 2 ^ k + r) (2 ^ k - 1) ≡ r
and_split zero q r h = ground (arith, and_zero_below (q * 1 + r) (q * 1 + r))
and_split (suc k) q r h = ground (
  arith,
  and_digit (q * 2 ^ suc k + r) (2 ^ suc k - 1),
  double_shift q k,
  pow-suc 2 k,
  and_split k q (r / 2) (omega arith),
)

pub and_low_mask : (k a : ℕ) → bit_and a (2 ^ k - 1) ≡ a % 2 ^ k
and_low_mask k a = ground (arith, one-le-pow k 2, and_split k (a / 2 ^ k) (a % 2 ^ k))

-- A shift that loses no bit, and `|` of such a field with a lower or a higher one.
pub shift_fits : (k q : ℕ) → q * 2 ^ k < u64_mod → q <<< k ≡ q * 2 ^ k
shift_fits k q h = mod-eq_of_lt h

pub or_shift_low :
    (k q r : ℕ) → r < 2 ^ k → q * 2 ^ k < u64_mod → bit_or (q <<< k) r ≡ q * 2 ^ k + r
or_shift_low k q r h fits = rw (shift_fits k q fits) (or_high_low k q r h)

pub or_shift_high :
    (k q r : ℕ) → r < 2 ^ k → q * 2 ^ k < u64_mod → bit_or r (q <<< k) ≡ q * 2 ^ k + r
or_shift_high k q r h fits = rw (shift_fits k q fits) (or_low_high k q r h)
