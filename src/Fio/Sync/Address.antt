-- ===== src/Fio/Sync/Address.antt =====
-- `tlb_addr` of sw/daemon/aos_fio.hpp: where the entries of the four applications lie.
use mathlib.Core.Option.{some-injective}
use amorphos_fsrf.Common.{
  suc, zero, ℕ, ◌+◌, ◌-◌, ◌*◌, ◌/◌, ◌%◌, ◌^◌, ◌<◌, ◌≡◌, refl, ◌∙◌, sym, ap, some, arith, bit_and,
  ◌>>>◌,
}
use amorphos_fsrf.Common.Bits.{and_low_mask}
use amorphos_fsrf.Fio.Sync.{tlb_addr}

-- The address by arithmetic.
slot : ℕ → ℕ
slot vpn = vpn % 2 ^ 21 * 64 + vpn / 2 ^ 21 % 8 * 8

offset : ℕ → ℕ
offset app = app % 2 * (32 * 2 ^ 30) + app / 2 * (16 * 2 ^ 30)

masked : (vpn : ℕ) → bit_and vpn (2 ^ 21 - 1) * 64 + bit_and (vpn >>> 21) 0x7 * 8 ≡ slot vpn
unfolding slot
masked vpn = rw (and_low_mask 21 vpn, and_low_mask 3 (vpn >>> 21)) refl

some_sum : (v i o off : ℕ) → i * 64 + o * 8 ≡ v → some (i * 64 + off + o * 8) ≡ some (v + off)
some_sum v i o off e = ap (λ n. some n) (omega arith)

tlb_addr_value : (app vpn : ℕ) → app < 4 → tlb_addr app vpn ≡ some (slot vpn + offset app)
unfolding tlb_addr offset
tlb_addr_value zero vpn h = some_sum (slot vpn) _ _ 0 (masked vpn)
tlb_addr_value (suc zero) vpn h = some_sum (slot vpn) _ _ (32 * 2 ^ 30) (masked vpn)
tlb_addr_value (suc (suc zero)) vpn h = some_sum (slot vpn) _ _ (16 * 2 ^ 30) (masked vpn)
tlb_addr_value (suc (suc (suc zero))) vpn h = some_sum (slot vpn) _ _ (48 * 2 ^ 30) (masked vpn)
tlb_addr_value (suc (suc (suc (suc app)))) vpn h = absurd (omega arith)

slot_lt : (vpn : ℕ) → slot vpn < 2 ^ 27
unfolding slot
slot_lt vpn = omega arith

slot_injective : (vpn vpn' : ℕ) → vpn < 2 ^ 24 → vpn' < 2 ^ 24 → slot vpn ≡ slot vpn' → vpn ≡ vpn'
unfolding slot
slot_injective vpn vpn' h h' e = omega arith

-- No two pages below 2^24 of the applications 0 to 3 have their entries at the same address.
pub tlb_addr_injective :
    (app app' vpn vpn' : ℕ)
    → app < 4
    → app' < 4
    → vpn < 2 ^ 24
    → vpn' < 2 ^ 24
    → tlb_addr app vpn ≡ tlb_addr app' vpn'
    → (app ≡ app') × (vpn ≡ vpn')
unfolding offset
tlb_addr_injective app app' vpn vpn' ha ha' h h' e =
    let eq : slot vpn + offset app ≡ slot vpn' + offset app' =
      some-injective _ _ (sym (tlb_addr_value app vpn ha) ∙ e ∙ tlb_addr_value app' vpn' ha') in
    let same_app : app ≡ app' = omega (arith, slot_lt vpn, slot_lt vpn') in
    (same_app, slot_injective vpn vpn' h h' (omega arith))

-- The place of a page's entry, and the device page behind the table of an application: a table is
-- 128 MB long, and the tables begin at 0, 32, 16 and 48 GB.
unfoldable pub tlb_place : ℕ → ℕ → ℕ
tlb_place app vpn =
    vpn % 2 ^ 21 * 64 + vpn / 2 ^ 21 % 8 * 8 + (app % 2 * (32 * 2 ^ 30) + app / 2 * (16 * 2 ^ 30))

unfoldable pub table_end : ℕ → ℕ
table_end app = app % 2 * (8 * 2 ^ 20) + app / 2 * (4 * 2 ^ 20) + 32 * 2 ^ 10

pub tlb_addr_place :
    (app vpn : ℕ)
    → app < 4
    → (tlb_addr app vpn ≡ some (tlb_place app vpn)) × (tlb_place app vpn % 8 ≡ 0)
unfolding slot offset tlb_place
tlb_addr_place app vpn h = (tlb_addr_value app vpn h, omega arith)

-- No word of a table lies in a page behind it.
pub place_page : (app vpn : ℕ) → tlb_place app vpn / 4096 < table_end app
unfolding tlb_place table_end
place_page app vpn = omega arith
