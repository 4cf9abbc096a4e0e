-- ===== src/Fio/Populate.antt =====
-- Population of pages in sw/daemon/aos_fio.hpp: device pages are allocated, the TLB is filled and
-- the file's data is transferred.
pub mod Wasted
pub mod Placed
pub mod Tables
pub mod Entering
pub mod Loading
use amorphos_fsrf.Common.{
  ℕ, zero, suc, ◌+◌, ◌-◌, ◌*◌, ◌/◌, ◌%◌, ◌^◌, Bool, true, false, ◌&&◌, ◌||◌, not, Option, none,
  some, bit_or, to_num, add64, sub64, ltb, leb, ◌==◌, if◌then◌else◌, ◌<<<◌, ◌>>>◌,
}
use amorphos_fsrf.Tlb
use amorphos_fsrf.Tlb.{small, large, segment}
use amorphos_fsrf.Fio.{
  Fio, Vme, Run, ok, undefined, running, Cmd, get, modify, pure, ◌>>=◌, ◌>>◌, invalid_vpn, update,
  vm_touch,
}
use amorphos_fsrf.Fio.Sync.{on_tlb, set_ppo, write_tlb_dram}
use amorphos_fsrf.Fio.Alloc.{phys_alloc_unaligned}
use amorphos_fsrf.Fio.Transfer.{file_to_device}

-- The variables of the loop of `tlb_populate`: entries left of each page size, and pages left of
-- the huge page that an entry covers.
pub record Limits : Type 0 where
  pub small_limit : ℕ
  pub large_limit : ℕ
  pub pip_left : ℕ

-- The entry in the device memory.
unfoldable pub dram_entry : ℕ → ℕ → Bool → ℕ
dram_entry vpn ppn writable =
    bit_or (bit_or (bit_or (vpn <<< 28) (ppn <<< 4)) (to_num writable <<< 2)) 0x3

-- Where a huge page begins and fits, it takes a large entry while there are some left.
unfoldable pub coyote_large : ℕ → ℕ → ℕ → Limits → Cmd Limits
coyote_large vpn ppn last l =
    if leb (vpn + 512) last && (vpn % 512 == 0 && ppn % 512 == 0)
    then (if not (l.large_limit == 0)
        then (on_tlb (Tlb.add large (vpn >>> 9) (ppn >>> 9))
            >> pure (record l { large_limit = l.large_limit - 1; pip_left = 512 }))
        else pure (record l { pip_left = 512 }))
    else pure l

unfoldable pub coyote_small : ℕ → ℕ → Limits → Cmd Limits
coyote_small vpn ppn l =
    if l.pip_left == 0
    then (if not (l.small_limit == 0)
        then (on_tlb (Tlb.add small vpn ppn) >> pure (record l { small_limit = l.small_limit - 1 }))
        else pure l)
    else pure (record l { pip_left = l.pip_left - 1 })

-- What the mode does with the TLB for a page; `last` is the end of the region.
unfoldable pub fill_tlb : ℕ → ℕ → ℕ → Bool → Limits → Cmd Limits
unfolding dram_entry coyote_large coyote_small write_tlb_dram
fill_tlb vpn ppn last writable l s =
    if s.standard
    then (write_tlb_dram vpn (dram_entry vpn ppn writable) >> pure l) s
    else if s.coyote
    then ((if s.coyote_huge then coyote_large vpn ppn last l else pure l) >>= λ l'.
          coyote_small vpn ppn l')
        s
    else if s.aos_seg
    then (on_tlb (Tlb.add segment (vpn >>> 20) (ppn >>> 20)) >> pure l) s
    else ok l s

-- A round of the loop.
unfoldable pub populate_page : ℕ → ℕ → ℕ → Limits → Cmd Limits
unfolding fill_tlb set_ppo
populate_page vpn ppn last l = do
  old ← vm_touch vpn
  l' ← fill_tlb vpn ppn last old.writable l
  modify (λ s. record s {
    vm_maps = update s.vm_maps vpn (some (record old { ppn = ppn; present = true }));
  })
  s ← get
  set_ppo (sub64 ppn s.phys_base) vpn
  pure l'

-- The loop from a page on; `last` is the end of the region.
unfoldable pub tlb_populate_from : ℕ → ℕ → ℕ → ℕ → Limits → Cmd (Unit {0})
unfolding populate_page
tlb_populate_from zero vpn ppn last l = pure tt
tlb_populate_from (suc n) vpn ppn last l =
    populate_page vpn ppn last l >>= λ l'. tlb_populate_from n (vpn + 1) (ppn + 1) last l'

unfoldable pub tlb_populate : ℕ → ℕ → ℕ → Cmd (Unit {0})
unfolding tlb_populate_from
tlb_populate base_vpn base_ppn num_pages =
    tlb_populate_from num_pages base_vpn base_ppn (base_vpn + num_pages)
      (record { small_limit = 4096; large_limit = 128; pip_left = 0 })

-- The result is the number of pages populated.
unfoldable pub populate_unaligned : ℕ → ℕ → Cmd ℕ
unfolding phys_alloc_unaligned tlb_populate file_to_device
populate_unaligned vpn num_pages = do
  (n, ppn) ← phys_alloc_unaligned num_pages
  entry ← vm_touch vpn
  tlb_populate vpn ppn n
  file_to_device entry.fd entry.fd_pn n ppn
  pure n

-- The device pages of a region that is passed over hold nothing.
unfoldable pub clear_ppos : ℕ → ℕ → Cmd (Unit {0})
unfolding set_ppo
clear_ppos zero ppo = pure tt
clear_ppos (suc n) ppo = set_ppo ppo invalid_vpn >> clear_ppos n (ppo + 1)

-- The loop that passes over `wasted` device pages.
unfoldable pub waste_from : ℕ → ℕ → Cmd (Unit {0})
unfolding phys_alloc_unaligned clear_ppos
waste_from zero wasted = λ s. if ltb 0 wasted then running else ok tt s
waste_from (suc n) wasted =
    let round : Cmd (Unit {0}) = (do
      (wp, ppn) ← phys_alloc_unaligned wasted
      s ← get
      clear_ppos wp (sub64 ppn s.phys_base)
      waste_from n (wasted - wp)) in
    if ltb 0 wasted then round else pure tt

-- The pages to pass over for the device page to lie in its huge page as the virtual page does.
unfoldable pub wasted_pages : ℕ → ℕ → ℕ
wasted_pages vpn_off ppn_off =
    if ltb vpn_off ppn_off
    then 512 - ppn_off + vpn_off
    else if ltb ppn_off vpn_off
    then vpn_off - ppn_off
    else 0

-- `huge_page[huge_vpn >> 9] = true` for the huge pages up to `last`.
unfoldable pub mark_huge : ℕ → ℕ → ℕ → Cmd (Unit {0})
mark_huge zero huge_vpn last = λ s. if ltb huge_vpn last then running else ok tt s
mark_huge (suc n) huge_vpn last =
    let later =
      modify (λ s. record s { huge_page = update s.huge_page (huge_vpn >>> 9) true })
      >> mark_huge n (huge_vpn + 512) last in
    if ltb huge_vpn last then later else pure tt

unfoldable pub populate_aligned : ℕ → ℕ → Cmd ℕ
unfolding waste_from wasted_pages populate_unaligned mark_huge
populate_aligned vpn num_pages =
    let vpn_off = vpn % 512 in
    let initial_unaligned = (if ltb 0 vpn_off then 512 - vpn_off else 0) in
    do
      s ← get
      if leb (512 + initial_unaligned) num_pages
          then waste_from 512 (wasted_pages vpn_off (s.phys_next % 512))
          else pure tt
      n ← populate_unaligned vpn num_pages
      mark_huge n (vpn + initial_unaligned + 511) (vpn + n)
      pure n
