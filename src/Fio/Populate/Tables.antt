-- ===== src/Fio/Populate/Tables.antt =====
-- The words that `tlb_populate` of sw/daemon/aos_fio.hpp writes to the TLB's table in the device memory.
use amorphos_fsrf.Common.{
  ◌*◌, bit_or, ℕ, zero, suc, ◌+◌, ◌^◌, ◌<◌, ◌≡◌, ◌∙◌, ap, Bool, true, false, Option, arith,
  if◌then◌else◌,
}
use amorphos_fsrf.Host.Memory.{Page, set_word}
use amorphos_fsrf.Fio.{Vme, entry_or_zero}
use amorphos_fsrf.Fio.Sync.Address.{tlb_place}
use amorphos_fsrf.Common.Bits.{shift_fits, or_shift_low, or_high_low}
use amorphos_fsrf.Fio.Populate.{dram_entry}

-- A word of the table: the virtual page, the device page, the right to write, and two bits set.
abbrev pub table_word : ℕ → ℕ → Bool → ℕ
table_word vpn ppn writable = vpn * 2 ^ 28 + ppn * 2 ^ 4 + (if writable then 4 else 0) + 3

-- The words of `n` pages from `vpn` on enter the table of an application.
unfoldable pub table_from : ℕ → (ℕ → Bool) → ℕ → ℕ → ℕ → (ℕ → Page) → ℕ → Page
table_from app rights zero vpn ppn device = device
table_from app rights (suc n) vpn ppn device =
    table_from app rights n (vpn + 1) (ppn + 1)
      (set_word (tlb_place app vpn) (table_word vpn ppn (rights vpn)) device)

abbrev pub rights_of : (ℕ → Option Vme) → ℕ → Bool
rights_of vm v = (entry_or_zero (vm v)).writable

pub dram_entry_sum :
    (vpn ppn : ℕ) (w : Bool)
    → vpn < 2 ^ 36
    → ppn < 2 ^ 24
    → dram_entry vpn ppn w ≡ table_word vpn ppn w
unfolding dram_entry
dram_entry_sum vpn ppn true hv hp =
    rw
      (
        shift_fits 4 ppn (omega arith),
        or_shift_low 28 vpn (ppn * 2 ^ 4) (omega arith) (omega arith),
      )
      (ap (λ x. bit_or (bit_or x 4) 3) {x = vpn * 2 ^ 28 + ppn * 2 ^ 4}
          {y = (vpn * 2 ^ 24 + ppn) * 2 ^ 4} (omega arith)
        ∙ ap (λ x. bit_or x 3) (or_high_low 4 (vpn * 2 ^ 24 + ppn) 4 (omega arith))
        ∙ ap (λ x. bit_or x 3) {x = (vpn * 2 ^ 24 + ppn) * 2 ^ 4 + 4}
            {y = ((vpn * 2 ^ 24 + ppn) * 4 + 1) * 2 ^ 2} (omega arith)
        ∙ or_high_low 2 ((vpn * 2 ^ 24 + ppn) * 4 + 1) 3 (omega arith)
        ∙ omega arith)
dram_entry_sum vpn ppn false hv hp =
    rw
      (
        shift_fits 4 ppn (omega arith),
        or_shift_low 28 vpn (ppn * 2 ^ 4) (omega arith) (omega arith),
      )
      (ap (λ x. bit_or (bit_or x 0) 3) {x = vpn * 2 ^ 28 + ppn * 2 ^ 4}
          {y = (vpn * 2 ^ 24 + ppn) * 2 ^ 4} (omega arith)
        ∙ ap (λ x. bit_or x 3) (or_high_low 4 (vpn * 2 ^ 24 + ppn) 0 (omega arith))
        ∙ ap (λ x. bit_or x 3) {x = (vpn * 2 ^ 24 + ppn) * 2 ^ 4 + 0}
            {y = ((vpn * 2 ^ 24 + ppn) * 4) * 2 ^ 2} (omega arith)
        ∙ or_high_low 2 ((vpn * 2 ^ 24 + ppn) * 4) 3 (omega arith)
        ∙ omega arith)
