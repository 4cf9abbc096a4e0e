-- ===== src/Fio/Fault.antt =====
-- The fault handler of sw/daemon/aos_fio.hpp, one round of its loop a step. Its counters, which it
-- only prints, are left out; `tracing` is false there.
use amorphos_fsrf.Common.{
  ℕ, zero, suc, ◌+◌, ◌-◌, ◌/◌, ◌^◌, Bool, true, false, ◌&&◌, ◌||◌, not, none, some, bit_and, bit_or,
  add64, mul64, ltb, ◌==◌, if◌then◌else◌, ◌<<<◌, ◌>>>◌, nonzero, u64_max,
}
use amorphos_fsrf.Fpga.{read_sys_reg, write_sys_reg}
use amorphos_fsrf.Prefetch
use amorphos_fsrf.Prefetch.{Prefetcher, get_num_pages}
use amorphos_fsrf.Tlb
use amorphos_fsrf.Tlb.{small, large}
use amorphos_fsrf.Fio.{
  Fio, Vme, zero_vme, ok, exited, undefined, running, Cmd, get, pure, assert, ◌>>=◌, ◌>>◌, vm_touch,
}
use amorphos_fsrf.Fio.Sync.{on_tlb}
use amorphos_fsrf.Fio.Contig.{get_virt_contig}
use amorphos_fsrf.Fio.Populate.{populate_aligned, populate_unaligned}

-- The variables of the handler that outlive a round.
pub record Handler : Type 0 where
  pub aph : Prefetcher
  pub prefetch_size : ℕ
  pub req : ℕ

unfoldable pub start_handler : Fio → Handler
start_handler s =
    let size =
      (if s.aos_seg
        then 2 ^ 20
        else if s.coyote && s.coyote_huge
        then 2 ^ 9
        else s.prefetch_size) in
    record { aph = Prefetch.init 8 size; prefetch_size = size; req = 0 }

-- The fields of a request word.
abbrev pub req_vpn : ℕ → ℕ
req_vpn req = bit_and (req >>> 2) 0xFFFFFFFFFFFFF

abbrev pub req_read : ℕ → Bool
req_read req = nonzero (bit_and (req >>> 1) 0x1)

abbrev pub req_valid : ℕ → Bool
req_valid req = nonzero (bit_and req 0x1)

abbrev pub response : ℕ → ℕ
response ppn = bit_or (ppn <<< 1) 0x1

abbrev pub sys_write : ℕ → ℕ → ℕ → Cmd (Unit {0})
sys_write app addr value s =
    ok tt (record s { world = (write_sys_reg app addr value s.world).world })

-- A request for a page that is present: the entry is given to the TLB again.
unfoldable pub answer_present : ℕ → Vme → Cmd (Unit {0})
answer_present vpn e s =
    ((if s.coyote
          then ((if s.coyote_huge && s.huge_page (vpn >>> 9)
                then on_tlb (Tlb.add large (vpn >>> 9) (e.ppn >>> 9))
                else on_tlb (Tlb.add small vpn e.ppn))
              >> sys_write (s.app_id + 4) 0x8 0x1)
          else pure tt)
        >> assert (not s.aos_seg))
      s

-- The early return, for an entry that is missing, that may not be accessed so, or that is present.
unfoldable pub answer_early : ℕ → Bool → Vme → Bool → Cmd (Unit {0})
unfolding answer_present
answer_early vpn valid e may s =
    let here = valid && may && e.present in
    ((if here then answer_present vpn e else pure tt)
        >> (if s.standard
            then sys_write s.app_id 0 (if here then response e.ppn else 0)
            else pure tt))
      s

-- The pages to access for a request: aligned to the prefetch size, or as the prefetcher says.
-- A division by 0 is undefined.
unfoldable pub access_size : ℕ → Handler → Cmd (ℕ × ℕ × Handler)
access_size vpn h s =
    let aligned =
      s.standard && not s.phys_overflow
      || s.coyote && s.coyote_prefetch && not s.phys_overflow
      || s.coyote && not s.coyote_prefetch && s.coyote_huge
      || s.aos_seg in
    let base = mul64 (vpn / h.prefetch_size) h.prefetch_size in
    let asked = get_num_pages vpn h.aph in
    if aligned
    then (if h.prefetch_size == 0 then undefined else ok (base, add64 base h.prefetch_size, h) s)
    else if s.coyote && not s.coyote_prefetch
    then ok (vpn, add64 vpn 1, h) s
    else if h.prefetch_size == 0
    then undefined
    else ok (vpn, add64 vpn asked.0, record h { aph = asked.1 }) s

-- The loop that populates a region, from its `done`-th page on.
unfoldable pub populate_from : ℕ → ℕ → ℕ → ℕ → Cmd (Unit {0})
unfolding populate_aligned populate_unaligned
populate_from zero base_vpn num_pages done = λ s. if ltb done num_pages then running else ok tt s
populate_from (suc n) base_vpn num_pages done =
    let round : Cmd (Unit {0}) = (do
      s ← get
      pop ←
          (if s.coyote && s.coyote_huge
            then populate_aligned (base_vpn + done) (num_pages - done)
            else populate_unaligned (base_vpn + done) (num_pages - done))
      populate_from n base_vpn num_pages (done + pop)) in
    if ltb done num_pages then round else pure tt

-- The loop that populates a whole segment, up to its first hole.
unfoldable pub segment_from : ℕ → ℕ → ℕ → Cmd (Unit {0})
unfolding get_virt_contig populate_unaligned
segment_from zero base_vpn bound_vpn = λ s. if ltb base_vpn bound_vpn then running else ok tt s
segment_from (suc n) base_vpn bound_vpn =
    let round : Cmd (Unit {0}) = (do
      r ← get_virt_contig base_vpn base_vpn bound_vpn
      pop ← populate_unaligned base_vpn (r.bound_vpn - base_vpn)
      segment_from n (base_vpn + pop) bound_vpn) in
    if ltb base_vpn bound_vpn
    then (λ s. elim (s.vm_maps base_vpn) [ none ↦ ok tt s | some e ↦ round s ])
    else pure tt

unfoldable pub populate_request : ℕ → ℕ → ℕ → Cmd (Unit {0})
unfolding get_virt_contig populate_from segment_from
populate_request vpn base_vpn bound_vpn s =
    (if s.standard || s.coyote
        then (do
          r ← get_virt_contig base_vpn vpn bound_vpn
          populate_from (r.bound_vpn - r.base_vpn) r.base_vpn (r.bound_vpn - r.base_vpn) 0)
        else if s.aos_seg
        then segment_from (bound_vpn - base_vpn) base_vpn bound_vpn
        else pure tt)
      s

unfoldable pub respond : ℕ → Cmd (Unit {0})
respond vpn s =
    (if s.standard
        then (vm_touch vpn >>= λ e. sys_write s.app_id 0x0 (response e.ppn))
        else if s.coyote || s.aos_seg
        then sys_write (s.app_id + 4) 0x8 0x1
        else pure tt)
      s

-- A request whose word was read.
unfoldable pub serve : Handler → Cmd Handler
unfolding answer_early access_size populate_request respond
serve h s =
    let vpn = req_vpn h.req in
    let found = s.vm_maps vpn in
    let valid : Bool = elim found [ none ↦ false | some e ↦ true ] in
    let e : Vme = elim found [ none ↦ zero_vme | some e ↦ e ] in
    let may = e.writable || req_read h.req in
    if (s.coyote || s.aos_seg) && not valid
    then exited
    else if not valid || not may || e.present
    then (answer_early vpn valid e may >> pure h) s
    else (do
      (base_vpn, bound_vpn, h') ← access_size vpn h
      populate_request vpn base_vpn bound_vpn
      respond vpn
      pure h')
        s

-- A round of the loop: a word that is all ones or not valid is skipped.
unfoldable pub fault_round : Handler → Cmd Handler
unfolding serve
fault_round h s =
    let port = s.app_id + (if s.coyote || s.aos_seg then 4 else 0) in
    let r = read_sys_reg port 0 h.req s.world in
    let s' : Fio = record s { world = r.world } in
    let h' : Handler = record h { req = r.value } in
    if r.value == u64_max || not (req_valid r.value) then ok h' s' else serve h' s'
