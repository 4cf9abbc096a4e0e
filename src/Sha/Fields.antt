-- ===== src/Sha/Fields.antt =====
-- Bit ranges of an `ap_uint`, as hw/design/hls_sha/src uses them.
use amorphos_fsrf.Common.{ℕ, ◌+◌, ◌-◌, ◌*◌, ◌/◌, ◌%◌, ◌^◌}

-- `x(hi, lo)`.
abbrev pub field : ℕ → ℕ → ℕ → ℕ
field hi lo x = x / 2 ^ lo % 2 ^ (hi + 1 - lo)

-- `(x, y)`, where `y` has `k` bits.
abbrev pub join : ℕ → ℕ → ℕ → ℕ
join k x y = x * 2 ^ k + y

-- The sum of two `uint32`.
abbrev pub add32 : ℕ → ℕ → ℕ
add32 x y = (x + y) % 2 ^ 32
