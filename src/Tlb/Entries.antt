-- ===== src/Tlb/Entries.antt =====
-- The hardware entries and their registers (`CyTLB::add`, `write_tlb` in sw/daemon/aos_fio.hpp).
use amorphos_fsrf.Common.{ℕ, ◌+◌, ◌*◌, ◌/◌, ◌%◌, ◌^◌, ◌<◌, ◌≡◌, refl, true, arith, ap, ◌∙◌, bit_or}
use amorphos_fsrf.Common.Bits.{or_high_low, or_shift_low, or_shift_high, shift_fits}
use amorphos_fsrf.Fpga.{bar_addr}
use amorphos_fsrf.Fpga.Address.{bar_addr_injective}
use amorphos_fsrf.Tlb.{Huge, small, large, segment, sets, ways, tlb_reg, tlb_entry}

-- Page numbers that fit the fields of an entry; physical page numbers have 24 bits.
abbrev pub vpn_limit : Huge → ℕ
vpn_limit small = 2 ^ 36
vpn_limit large = 2 ^ 27
vpn_limit segment = 2 ^ 16

-- The place of the physical page number in an entry.
abbrev pub ppn_shift : Huge → ℕ
ppn_shift small = 4
ppn_shift large = 13
ppn_shift segment = 24

pub entry_sum :
    (huge : Huge) (vpn ppn : ℕ)
    → vpn < vpn_limit huge
    → ppn < 2 ^ 24
    → tlb_entry huge vpn ppn ≡ vpn * (2 ^ (ppn_shift huge + 24)) + ppn * 2 ^ ppn_shift huge + 7
unfolding tlb_entry
entry_sum small vpn ppn hv hp =
    rw
      (
        shift_fits 4 ppn (omega arith),
        or_shift_low 28 vpn (ppn * 2 ^ 4) (omega arith) (omega arith),
      )
      (ap (λ x. bit_or x 7) {x = vpn * 2 ^ 28 + ppn * 2 ^ 4} {y = (vpn * 2 ^ 24 + ppn) * 2 ^ 4}
          (omega arith)
        ∙ or_high_low 4 (vpn * 2 ^ 24 + ppn) 7 (omega arith)
        ∙ omega arith)
entry_sum large vpn ppn hv hp =
    rw
      (
        shift_fits 13 ppn (omega arith),
        or_shift_low 37 vpn (ppn * 2 ^ 13) (omega arith) (omega arith),
      )
      (ap (λ x. bit_or x 7) {x = vpn * 2 ^ 37 + ppn * 2 ^ 13} {y = (vpn * 2 ^ 24 + ppn) * 2 ^ 13}
          (omega arith)
        ∙ or_high_low 13 (vpn * 2 ^ 24 + ppn) 7 (omega arith)
        ∙ omega arith)
entry_sum segment vpn ppn hv hp =
    rw
      (
        shift_fits 24 ppn (omega arith),
        or_shift_low 48 vpn (ppn * 2 ^ 24) (omega arith) (omega arith),
      )
      (ap (λ x. bit_or x 7) {x = vpn * 2 ^ 48 + ppn * 2 ^ 24} {y = (vpn * 2 ^ 24 + ppn) * 2 ^ 24}
          (omega arith)
        ∙ or_high_low 24 (vpn * 2 ^ 24 + ppn) 7 (omega arith)
        ∙ omega arith)

-- An entry determines its mapping: for page numbers that fit their fields, the physical page
-- number and the virtual one are read back from the entry by the shifts of its page size, and the
-- three low bits are set.
tlb_entry_fields :
    (huge : Huge) (vpn ppn : ℕ)
    → vpn < vpn_limit huge
    → ppn < 2 ^ 24
    → (tlb_entry huge vpn ppn / 2 ^ ppn_shift huge % 2 ^ 24 ≡ ppn)
      × (tlb_entry huge vpn ppn / 2 ^ (ppn_shift huge + 24) ≡ vpn)
      × (tlb_entry huge vpn ppn % 8 ≡ 7)
tlb_entry_fields small vpn ppn hv hp = omega (arith, entry_sum small vpn ppn hv hp)
tlb_entry_fields large vpn ppn hv hp = omega (arith, entry_sum large vpn ppn hv hp)
tlb_entry_fields segment vpn ppn hv hp = omega (arith, entry_sum segment vpn ppn hv hp)

-- The bit that marks a page size, and the places of set and way below it.
reg_sum_small : (i j : ℕ) → i < 1024 → j < 4 → tlb_reg small i j ≡ 2 ^ 15 + i * 32 + j * 8
unfolding tlb_reg
reg_sum_small i j hi hj =
    rw (shift_fits 3 j (omega arith), or_shift_low 5 i (j * 8) (omega arith) (omega arith))
      (or_shift_high 15 1 (i * 2 ^ 5 + j * 8) (omega arith) (omega arith) ∙ omega arith)

reg_sum_large : (i j : ℕ) → i < 64 → j < 2 → tlb_reg large i j ≡ 2 ^ 14 + i * 256 + j * 128
unfolding tlb_reg
reg_sum_large i j hi hj =
    rw (shift_fits 7 j (omega arith), or_shift_low 8 i (j * 128) (omega arith) (omega arith))
      (or_shift_high 14 1 (i * 2 ^ 8 + j * 128) (omega arith) (omega arith) ∙ omega arith)

reg_sum_segment : (i j : ℕ) → i < 4 → j < 4 → tlb_reg segment i j ≡ 2 ^ 13 + i * 2048 + j * 512
unfolding tlb_reg
reg_sum_segment i j hi hj =
    rw (shift_fits 9 j (omega arith), or_shift_low 11 i (j * 512) (omega arith) (omega arith))
      (or_shift_high 13 1 (i * 2 ^ 11 + j * 512) (omega arith) (omega arith) ∙ omega arith)

pub reg_aligned :
    (huge : Huge) (i j : ℕ)
    → i < sets huge
    → j < ways huge
    → (tlb_reg huge i j % 8 ≡ 0) × (tlb_reg huge i j < 2 ^ 60)
reg_aligned small i j p q = omega (arith, reg_sum_small i j p q)
reg_aligned large i j p q = omega (arith, reg_sum_large i j p q)
reg_aligned segment i j p q = omega (arith, reg_sum_segment i j p q)

reg_injective :
    (huge : Huge) (i j : ℕ) (huge' : Huge) (i' j' : ℕ)
    → i < sets huge
    → j < ways huge
    → i' < sets huge'
    → j' < ways huge'
    → tlb_reg huge i j ≡ tlb_reg huge' i' j'
    → (huge ≡ huge') × (i ≡ i') × (j ≡ j')
reg_injective small i j small i' j' p q r s e = (
  refl,
  omega (arith, reg_sum_small i j p q, reg_sum_small i' j' r s),
  omega (arith, reg_sum_small i j p q, reg_sum_small i' j' r s),
)
reg_injective large i j large i' j' p q r s e = (
  refl,
  omega (arith, reg_sum_large i j p q, reg_sum_large i' j' r s),
  omega (arith, reg_sum_large i j p q, reg_sum_large i' j' r s),
)
reg_injective segment i j segment i' j' p q r s e = (
  refl,
  omega (arith, reg_sum_segment i j p q, reg_sum_segment i' j' r s),
  omega (arith, reg_sum_segment i j p q, reg_sum_segment i' j' r s),
)
reg_injective small i j large i' j' p q r s e =
    absurd (omega (arith, reg_sum_small i j p q, reg_sum_large i' j' r s))
reg_injective small i j segment i' j' p q r s e =
    absurd (omega (arith, reg_sum_small i j p q, reg_sum_segment i' j' r s))
reg_injective large i j small i' j' p q r s e =
    absurd (omega (arith, reg_sum_large i j p q, reg_sum_small i' j' r s))
reg_injective large i j segment i' j' p q r s e =
    absurd (omega (arith, reg_sum_large i j p q, reg_sum_segment i' j' r s))
reg_injective segment i j small i' j' p q r s e =
    absurd (omega (arith, reg_sum_segment i j p q, reg_sum_small i' j' r s))
reg_injective segment i j large i' j' p q r s e =
    absurd (omega (arith, reg_sum_segment i j p q, reg_sum_large i' j' r s))

-- Where an application's TLB cell lies in the system BAR.
abbrev pub place : ℕ → Huge → ℕ → ℕ → ℕ
place app huge i j = bar_addr (app + 4) (tlb_reg huge i j) true

-- The places of different cells are different, for the cells of all page sizes and applications.
pub place_injective :
    (app : ℕ) (huge : Huge) (i j app' : ℕ) (huge' : Huge) (i' j' : ℕ)
    → app < 4
    → app' < 4
    → i < sets huge
    → j < ways huge
    → i' < sets huge'
    → j' < ways huge'
    → place app huge i j ≡ place app' huge' i' j'
    → (app ≡ app') × (huge ≡ huge') × (i ≡ i') × (j ≡ j')
place_injective app huge i j app' huge' i' j' ha ha' p q r s e =
    let x = reg_aligned huge i j p q in
    let y = reg_aligned huge' i' j' r s in
    let b =
      bar_addr_injective (app + 4) (app' + 4) (tlb_reg huge i j) (tlb_reg huge' i' j') (omega arith)
        (omega arith) x.1 y.1 x.0 y.0 e in
    let c = reg_injective huge i j huge' i' j' p q r s b.1 in (omega arith, c.0, c.1, c.2)
