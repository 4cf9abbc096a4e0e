-- ===== src/Common/Word.antt =====
-- `uint64_t` values are native numbers below 2^64; an operation that can leave that range wraps.
use Prim.Native.Nat.{ℕ, ◌+◌, ◌-◌, ◌*◌, ◌/◌, ◌%◌, ◌^◌}

abbrev pub u64_mod : ℕ
u64_mod = 2 ^ 64

abbrev pub u64_max : ℕ
u64_max = 2 ^ 64 - 1

-- `int` values are kept as their 32-bit pattern; this is the pattern of -1.
abbrev pub minus_one : ℕ
minus_one = 2 ^ 32 - 1

abbrev pub add64 : ℕ → ℕ → ℕ
add64 a b = (a + b) % u64_mod

abbrev pub sub64 : ℕ → ℕ → ℕ
sub64 a b = (a + u64_mod - b) % u64_mod

abbrev pub mul64 : ℕ → ℕ → ℕ
mul64 a b = a * b % u64_mod

infixl 75 ◌<<<◌ ◌>>>◌
abbrev pub ◌<<<◌ : ℕ → ℕ → ℕ
x <<< k = x * 2 ^ k % u64_mod

abbrev pub ◌>>>◌ : ℕ → ℕ → ℕ
x >>> k = x / 2 ^ k
