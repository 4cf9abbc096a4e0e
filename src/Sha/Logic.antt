-- ===== src/Sha/Logic.antt =====
-- The word functions of sha-256.cpp are those of the standard.
use amorphos_fsrf.Common.{
  ℕ, zero, suc, ◌+◌, ◌-◌, ◌*◌, ◌/◌, ◌%◌, ◌^◌, ◌<◌, ◌≡◌, refl, bit_and, bit_or, bit_xor, arith,
}
use Prim.Native.Nat.{bit_and-bitwise}
use amorphos_fsrf.Sha.Digits.{same_digits, halves, lasts, choose_digit, majority_digit}
use amorphos_fsrf.Common.Xor.{xor_fields, xor_zero, xor-lt, zero-bit_xor}
use native.Mathlib.Nat.{pow-suc}
use amorphos_fsrf.Sha.{e0, e1, ch, maj, s0, s1}
use amorphos_fsrf.Sha.Fields.{field, join}
use amorphos_fsrf.Sha.Reference.{
  complement, big_sigma0, big_sigma1, small_sigma0, small_sigma1, choose, majority,
}

pub e0-big_sigma0 : (x : ℕ) → x < 2 ^ 32 → e0 x ≡ big_sigma0 x
unfolding e0 big_sigma0
e0-big_sigma0 x h = ground arith

pub e1-big_sigma1 : (x : ℕ) → x < 2 ^ 32 → e1 x ≡ big_sigma1 x
unfolding e1 big_sigma1
e1-big_sigma1 x h = ground arith

-- Three words by a high and a low field, the third with no high one.
xor_three :
    (k q r p s t : ℕ)
    → r < 2 ^ k
    → s < 2 ^ k
    → t < 2 ^ k
    → bit_xor (bit_xor (q * 2 ^ k + r) (p * 2 ^ k + s)) t
      ≡ bit_xor q p * 2 ^ k + bit_xor (bit_xor r s) t
xor_three k q r p s t hr hs ht = rw (xor_fields k q r p s hr hs) (
    ground (
      arith,
      xor_fields k (bit_xor q p) (bit_xor r s) 0 t (xor-lt k r s hr hs) ht,
      xor_zero (bit_xor q p),
    ))

pub s0-small_sigma0 : (x : ℕ) → x < 2 ^ 32 → s0 x ≡ small_sigma0 x
unfolding s0 small_sigma0
s0-small_sigma0 x h = ground (
  arith,
  xor_three 29 (field 6 4 x) (join 25 (field 3 0 x) (field 31 7 x)) (field 17 15 x)
      (join 14 (field 14 0 x) (field 31 18 x)) (field 31 3 x) (omega arith) (omega arith)
      (omega arith),
)

pub s1-small_sigma1 : (x : ℕ) → x < 2 ^ 32 → s1 x ≡ small_sigma1 x
unfolding s1 small_sigma1
s1-small_sigma1 x h = ground (
  arith,
  xor_three 22 (field 16 7 x) (join 15 (field 6 0 x) (field 31 17 x)) (field 18 9 x)
      (join 13 (field 8 0 x) (field 31 19 x)) (field 31 10 x) (omega arith) (omega arith)
      (omega arith),
)

zero-bit_and : (b : ℕ) → bit_and 0 b ≡ 0
zero-bit_and b = bit_and-bitwise 0 b

complement_half : (k x : ℕ) → x < 2 ^ suc k → complement (suc k) x / 2 ≡ complement k (x / 2)
complement_half k x h = omega (arith, pow-suc 2 k)

complement_last : (k x : ℕ) → x < 2 ^ suc k → complement (suc k) x % 2 ≡ 1 - x % 2
complement_last k x h = omega (arith, pow-suc 2 k)

half-lt : (k x : ℕ) → x < 2 ^ suc k → x / 2 < 2 ^ k
half-lt k x h = omega (arith, pow-suc 2 k)

choose_digits :
    (k x y z : ℕ)
    → x < 2 ^ k
    → z < 2 ^ k
    → bit_xor z (bit_and x (bit_xor y z)) ≡ bit_xor (bit_and x y) (bit_and (complement k x) z)
choose_digits zero zero y zero hx hz = simp (zero-bit_and, zero-bit_xor) refl
choose_digits zero (suc x) y z hx hz = absurd (omega arith)
choose_digits zero x y (suc z) hx hz = absurd (omega arith)
choose_digits (suc k) x y z hx hz =
    same_digits _ _
      (simp (halves, complement_half k x hx)
        (choose_digits k (x / 2) (y / 2) (z / 2) (half-lt k x hx) (half-lt k z hz)))
      (simp (lasts, complement_last k x hx)
        (choose_digit (x % 2) (y % 2) (z % 2) (omega arith) (omega arith) (omega arith)))

majority_digits :
    (k x y z : ℕ)
    → x < 2 ^ k
    → y < 2 ^ k
    → z < 2 ^ k
    → bit_or (bit_and x y) (bit_and z (bit_or x y))
      ≡ bit_xor (bit_xor (bit_and x y) (bit_and x z)) (bit_and y z)
majority_digits zero zero zero zero hx hy hz = refl
majority_digits zero (suc x) y z hx hy hz = absurd (omega arith)
majority_digits zero x (suc y) z hx hy hz = absurd (omega arith)
majority_digits zero x y (suc z) hx hy hz = absurd (omega arith)
majority_digits (suc k) x y z hx hy hz =
    same_digits _ _
      (simp halves (
        majority_digits k (x / 2) (y / 2) (z / 2) (half-lt k x hx) (half-lt k y hy)
          (half-lt k z hz)))
      (simp lasts
        (majority_digit (x % 2) (y % 2) (z % 2) (omega arith) (omega arith) (omega arith)))

pub ch-choose : (x y z : ℕ) → x < 2 ^ 32 → z < 2 ^ 32 → ch x y z ≡ choose x y z
unfolding ch choose
ch-choose x y z hx hz = choose_digits 32 x y z hx hz

pub maj-majority : (x y z : ℕ) → x < 2 ^ 32 → y < 2 ^ 32 → z < 2 ^ 32 → maj x y z ≡ majority x y z
unfolding maj majority
maj-majority x y z hx hy hz = majority_digits 32 x y z hx hy hz
