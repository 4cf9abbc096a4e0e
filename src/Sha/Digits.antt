-- ===== src/Sha/Digits.antt =====
-- The bitwise operations by halves and last digits, for identities that hold digit by digit.
use Prim.Native.Nat.{min, max, differ}
use amorphos_fsrf.Common.{
  ℕ, zero, suc, ◌-◌, ◌/◌, ◌%◌, ◌<◌, ◌≡◌, refl, bit_and, bit_or, bit_xor, arith,
}
use amorphos_fsrf.Common.Bits.{and_digit, or_digit}
use amorphos_fsrf.Common.Xor.{xor_digit, differ-lt}

pub same_digits : (u v : ℕ) → u / 2 ≡ v / 2 → u % 2 ≡ v % 2 → u ≡ v
same_digits u v halves digits = omega arith

pub and_half : (a b : ℕ) → bit_and a b / 2 ≡ bit_and (a / 2) (b / 2)
and_half a b = ground (arith, and_digit a b)

pub and_last : (a b : ℕ) → bit_and a b % 2 ≡ min (a % 2) (b % 2)
and_last a b = ground (arith, and_digit a b)

pub or_half : (a b : ℕ) → bit_or a b / 2 ≡ bit_or (a / 2) (b / 2)
or_half a b = ground (arith, or_digit a b)

pub or_last : (a b : ℕ) → bit_or a b % 2 ≡ max (a % 2) (b % 2)
or_last a b = ground (arith, or_digit a b)

pub xor_half : (a b : ℕ) → bit_xor a b / 2 ≡ bit_xor (a / 2) (b / 2)
xor_half a b = ground (arith, xor_digit a b, differ-lt (a % 2) (b % 2) (omega arith) (omega arith))

pub xor_last : (a b : ℕ) → bit_xor a b % 2 ≡ differ (a % 2) (b % 2)
xor_last a b = ground (arith, xor_digit a b, differ-lt (a % 2) (b % 2) (omega arith) (omega arith))

pub ruleset halves = (and_half, or_half, xor_half)

pub ruleset lasts = (and_last, or_last, xor_last)

pub choose_digit :
    (a b c : ℕ)
    → a < 2
    → b < 2
    → c < 2
    → differ c (min a (differ b c)) ≡ differ (min a b) (min (1 - a) c)
choose_digit zero zero zero ha hb hc = refl
choose_digit zero zero (suc zero) ha hb hc = refl
choose_digit zero (suc zero) zero ha hb hc = refl
choose_digit zero (suc zero) (suc zero) ha hb hc = refl
choose_digit (suc zero) zero zero ha hb hc = refl
choose_digit (suc zero) zero (suc zero) ha hb hc = refl
choose_digit (suc zero) (suc zero) zero ha hb hc = refl
choose_digit (suc zero) (suc zero) (suc zero) ha hb hc = refl
choose_digit (suc (suc a)) b c ha hb hc = absurd (omega arith)
choose_digit a (suc (suc b)) c ha hb hc = absurd (omega arith)
choose_digit a b (suc (suc c)) ha hb hc = absurd (omega arith)

pub majority_digit :
    (a b c : ℕ)
    → a < 2
    → b < 2
    → c < 2
    → max (min a b) (min c (max a b)) ≡ differ (differ (min a b) (min a c)) (min b c)
majority_digit zero zero zero ha hb hc = refl
majority_digit zero zero (suc zero) ha hb hc = refl
majority_digit zero (suc zero) zero ha hb hc = refl
majority_digit zero (suc zero) (suc zero) ha hb hc = refl
majority_digit (suc zero) zero zero ha hb hc = refl
majority_digit (suc zero) zero (suc zero) ha hb hc = refl
majority_digit (suc zero) (suc zero) zero ha hb hc = refl
majority_digit (suc zero) (suc zero) (suc zero) ha hb hc = refl
majority_digit (suc (suc a)) b c ha hb hc = absurd (omega arith)
majority_digit a (suc (suc b)) c ha hb hc = absurd (omega arith)
majority_digit a b (suc (suc c)) ha hb hc = absurd (omega arith)
