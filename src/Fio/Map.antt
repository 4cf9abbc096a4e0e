-- ===== src/Fio/Map.antt =====
-- `mmap` and `munmap` of sw/daemon/aos_fio.hpp, each as one run: what other threads do while the source
-- holds no lock, between the two parts of either, is not modelled.
pub mod Regions
pub mod Unmapping
pub mod Entries
pub mod Cycle
use amorphos_fsrf.Common.{
  ℕ, zero, suc, ◌+◌, ◌*◌, ◌/◌, ◌^◌, true, false, ◌&&◌, ◌||◌, not, Option, none, some, bit_and,
  add64, ltb, ◌==◌, if◌then◌else◌, ◌<<<◌, nonzero,
}
use amorphos_fsrf.Fio.{
  Fio, Vme, ok, exited, Cmd, modify, pure, ◌>>=◌, ◌>>◌, invalid_vpn, update, fd_erase,
}
use amorphos_fsrf.Fio.Sync.{page_len, msync}
use amorphos_fsrf.Fio.Populate.{populate_aligned, populate_unaligned}
use amorphos_fsrf.Fio.Control.{fd_or_zero}

-- The values of the system's header files.
abbrev pub prot_write : ℕ
prot_write = 0x2

abbrev pub map_populate : ℕ
map_populate = 0x8000

-- `insert` of a map, which leaves an entry that is there.
abbrev pub insert : (ℕ → Option Vme) → ℕ → Vme → ℕ → Option Vme
insert vm vpn e = elim (vm vpn) [ none ↦ update vm vpn (some e) | some old ↦ vm ]

-- The loop that enters consecutive file pages at consecutive virtual pages.
unfoldable pub insert_from : ℕ → ℕ → Vme → (ℕ → Option Vme) → ℕ → Option Vme
insert_from zero vpn e vm = vm
insert_from (suc n) vpn e vm =
    insert_from n (vpn + 1) (record e { fd_pn = add64 e.fd_pn 1 }) (insert vm vpn e)

unfoldable pub populate_region : ℕ → ℕ → Cmd (Unit {0})
unfolding populate_aligned populate_unaligned
populate_region base_vpn num_pages s =
    (if s.coyote && s.coyote_huge
        then (populate_aligned base_vpn num_pages >> pure tt)
        else (populate_unaligned base_vpn num_pages >> pure tt))
      s

-- The new entries, with no page populated.
unfoldable pub map_region : ℕ → Vme → Fio → Fio
unfolding insert_from
map_region num_pages entry s = record s {
  next_vpn = add64 s.next_vpn num_pages;
  vm_maps = insert_from num_pages s.next_vpn entry s.vm_maps;
}

unfoldable pub mmap : ℕ → ℕ → ℕ → ℕ → ℕ → Cmd ℕ
unfolding map_region populate_region
mmap length prot flags fd offset s =
    let num_pages = page_len length in
    let populating = nonzero (bit_and flags map_populate) || s.physical in
    let true_fd = fd_or_zero fd s in
    let base_vpn = s.next_vpn in
    let entry : Vme = record {
      ppn = 0;
      fd_pn = offset / (4 * 2 ^ 10);
      fd = true_fd;
      present = false;
      writable = nonzero (bit_and prot prot_write);
    } in
    if true_fd == 0
    then ok invalid_vpn (record s { fd_map = fd_erase fd s.fd_map })
    else if ltb (2 ^ 32) (add64 base_vpn num_pages)
    then exited
    else (modify (map_region num_pages entry)
          >> (if populating && not s.phys_overflow
              then populate_region base_vpn num_pages
              else pure tt)
          >> pure (base_vpn <<< 12))
        s

-- The loop that erases entries: 1 where one was missing.
unfoldable pub erase_from : ℕ → ℕ → ℕ → Cmd ℕ
erase_from zero vpn rc s = ok rc s
erase_from (suc n) vpn rc s =
    erase_from n (vpn + 1) (elim (s.vm_maps vpn) [ none ↦ 1 | some e ↦ rc ])
      (record s { vm_maps = update s.vm_maps vpn none })

unfoldable pub munmap : ℕ → ℕ → Cmd ℕ
unfolding msync erase_from
munmap addr length = do
  rc ← msync addr length true
  erase_from (page_len length) (addr / (4 * 2 ^ 10)) rc
