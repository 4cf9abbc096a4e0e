-- ===== src/Fio/Map/Cycle.antt =====
-- `populate_unaligned` and then `munmap` of sw/daemon/aos_fio.hpp: the pages come back to the file.
use amorphos_fsrf.Common.{
  ℕ, ◌+◌, ◌-◌, ◌*◌, ◌/◌, ◌^◌, ◌≤◌, ◌<◌, ◌≡◌, refl, ◌∙◌, ap, sym, true, false, arith,
}
use amorphos_fsrf.Host.Memory.{Outset, Memory, replay}
use amorphos_fsrf.Fio.{Fio, ok, and_then}
use amorphos_fsrf.Fio.Ready.{IsReady}
use amorphos_fsrf.Fio.Alloc.{grant}
use amorphos_fsrf.Fio.Alloc.Ring.{IsRing}
use amorphos_fsrf.Fio.Sync.{page_len}
use amorphos_fsrf.Fio.Sync.Reference.{saved, dirty_pages, sync_code}
use amorphos_fsrf.Fio.Sync.Clearing.{after, and_then_ok, free_from, wipe_from}
use amorphos_fsrf.Fio.Sync.Draining.{IsReachable, IsOwning, Saved}
use amorphos_fsrf.Fio.Populate.{populate_unaligned}
use amorphos_fsrf.Fio.Populate.Placed.{placed, entered, owned}
use amorphos_fsrf.Fio.Populate.Tables.{table_from, rights_of}
use amorphos_fsrf.Fio.Sync.Wiped.{table_entry, wipe_from_entry}
use amorphos_fsrf.Fio.Populate.Loading.{IsPart, IsRoomy, turned, populate_unaligned-Loaded}
use amorphos_fsrf.Fio.Map.{munmap}
use amorphos_fsrf.Fio.Map.Unmapping.{unmapped, munmap-Saved}
use amorphos_fsrf.Fio.Map.Entries.{
  saved_same, sync_code_mapped, unmapped-entered, entered-IsReachable, entered_contents,
  entered_mapped, entered_inside, entered-IsOwning,
}

-- The region of `n` pages from `vpn` on.
munmap_pages :
    (before : Outset) (vpn n : ℕ) (s : Fio)
    → IsReady before s
    → IsReachable before s.vm_maps
    → IsOwning true s.vm_maps s
    → s.pages_xfered + n < 2 ^ 64
    → n ≤ 2 ^ 24
    → Saved before s
        (dirty_pages s.vm_maps n vpn)
        (sync_code s.vm_maps n vpn 0)
        (saved s.vm_maps n vpn)
        (wipe_from true s.app_id s.vm_maps n vpn)
        (unmapped n vpn s.vm_maps)
        (free_from true s.phys_base s.vm_maps n vpn s.ppo_to_vpn)
        (munmap (vpn * 4096) (n * 4096) s)
munmap_pages before vpn n s h reach owning fits small =
    let pages : page_len (n * 4096) ≡ n = omega (arith, small) in
    let start : vpn * 4096 / 4096 ≡ vpn = omega arith in
    let fits' : s.pages_xfered + page_len (n * 4096) < 2 ^ 64 = omega (arith, pages, fits) in
    rw (pages, start) at (munmap-Saved before (vpn * 4096) (n * 4096) s h reach owning fits')

-- With a device and files that serve as documented, the counts of pages in step and no count out of
-- range, the standard mode, the first turn of a ring within the application's device pages, below 2^24
-- and behind its table, entries that name a device page below 2^24, which for a present page is the
-- application's own and behind its table, and a page that their file has, virtual pages below 2^36, and
-- consecutive pages that one file has: to populate pages and then to unmap those that were populated,
-- with no other thread in between, returns with code 0, each transfer shown performed by the engine's
-- count, and leaves every file as it was before; no page that was populated has an entry then, and every
-- other page has its own; and the words of the populated pages in the table in the device memory are 0.
pub populate_unaligned-munmap :
    (before : Outset) (vpn num_pages fd fd_pn : ℕ) (s : Fio)
    → IsReady before s
    → s.standard ≡ true
    → s.phys_overflow ≡ false
    → IsRing s
    → IsRoomy s
    → IsReachable before s.vm_maps
    → IsOwning true s.vm_maps s
    → IsPart s.vm_maps num_pages vpn fd fd_pn
    → 1 ≤ num_pages
    → fd_pn + num_pages < 2 ^ 52
    → s.pages_xfered + num_pages + num_pages < 2 ^ 64
    → vpn + num_pages ≤ 2 ^ 36
    → fd_pn + num_pages ≤ before.pages fd
    → (s' : Fio) × (and_then
          (populate_unaligned vpn num_pages s)
          (λ n. munmap (vpn * 4096) (n * 4096))
        ≡ ok 0 s')
      × (s'.vm_maps ≡ unmapped (grant num_pages s) vpn s.vm_maps)
      × ((m : Memory)
          → (replay before s'.world.trace m).file ≡ (replay before s.world.trace m).file)
      × ((m : Memory) (v : ℕ)
          → vpn ≤ v
          → v < vpn + grant num_pages s
          → table_entry s.app_id v (replay before s'.world.trace m).device ≡ 0)
populate_unaligned-munmap before vpn num_pages fd fd_pn s h standard first ring roomy reach owning
      part one place fits near inside =
    let n = grant num_pages s in
    let bounds : (1 ≤ n) × (n ≤ num_pages) × (s.phys_next + n ≤ s.phys_bound) =
      ground (arith, ring.next_lt, ring.fits) in
    let load =
      populate_unaligned-Loaded before vpn num_pages fd fd_pn s h standard first ring roomy part one
        place (omega (arith, fits)) near inside in
    let vm = entered n vpn s.phys_next s.vm_maps in
    let s1 : Fio =
      after (turned n s) load.trace (s.pages_xfered + n) vm
        (owned n vpn (s.phys_next - s.phys_base) s.ppo_to_vpn) in
    let part' : IsPart s.vm_maps n vpn fd fd_pn =
      λ k below. part k (omega (arith, below, bounds)) in
    let back =
      munmap_pages before vpn n s1 load.ready
        (entered-IsReachable n vpn s.phys_next s.vm_maps before reach
          (λ v low high.
            let (e, found, same_fd, same_place) =
              part (v - vpn) (omega (arith, low, high, bounds)) in
            let at : vpn + (v - vpn) ≡ v = omega (arith, low) in (e, ap s.vm_maps (sym at) ∙ found))
          (omega (arith, bounds, roomy)))
        (entered-IsOwning n vpn s.phys_next s.vm_maps s s1 refl refl refl refl standard roomy.1
          roomy.0 (omega (arith, bounds, roomy)) (omega (arith, bounds, roomy)) owning)
        (omega (arith, bounds, fits)) (omega (arith, bounds, roomy)) in
    let code = sync_code_mapped vm n vpn 0 (entered_mapped n vpn s.phys_next s.vm_maps) in
    let s2 : Fio =
      after s1 back.trace (s1.pages_xfered + dirty_pages vm n vpn) (unmapped n vpn vm)
        (free_from true s.phys_base vm n vpn s1.ppo_to_vpn) in
    (
      s2,
      and_then_ok (populate_unaligned vpn num_pages s) n s1 (λ k. munmap (vpn * 4096) (k * 4096))
            load.returns
          ∙ back.returns
          ∙ ap (λ c. ok c s2) code,
      unmapped-entered n vpn s.phys_next s.vm_maps,
      λ m.
          back.files m
          ∙ ap (saved vm n vpn (replay before load.trace m).device) (load.contents m).1
          ∙ saved_same vm n vpn (replay before load.trace m).device
              (replay before s.world.trace m).file
              (λ v e low high found.
                entered_contents n vpn s.phys_next s.vm_maps fd fd_pn
                  (replay before load.trace m).device (replay before s.world.trace m).file
                  (table_from s.app_id (rights_of s.vm_maps) n vpn s.phys_next
                    (replay before s.world.trace m).device)
                  part' (load.contents m).0 v e low high found),
      λ m v low high.
          ap (table_entry s.app_id v) (back.device m)
          ∙ wipe_from_entry s.app_id vm n vpn (replay before load.trace m).device v
              (placed (s.phys_next + (v - vpn)) (s.vm_maps v)) low high
              (entered_inside n vpn s.phys_next s.vm_maps v low high) refl,
    )
