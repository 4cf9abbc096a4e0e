-- ===== src/Fio/Sync/Saving.antt =====
-- `msync` of sw/daemon/aos_fio.hpp saves the dirty pages of its range, and clears the present ones.
use amorphos_fsrf.Common.{ℕ, ◌+◌, ◌/◌, ◌^◌, ◌<◌, ◌≡◌, refl, Bool, arith}
use amorphos_fsrf.Fio.{Fio}
use amorphos_fsrf.Fio.Ready.{IsReady}
use amorphos_fsrf.Fio.Sync.{first_pass, page_len, msync}
use amorphos_fsrf.Fio.Sync.Reference.{saved, dirty_pages, sync_code, queue_done}
use amorphos_fsrf.Fio.Sync.Clearing.{wipe_from, free_from}
use amorphos_fsrf.Fio.Sync.Cells.{cleared, clear_from-cleared}
use amorphos_fsrf.Fio.Sync.Draining.{IsReachable, IsOwning, drain, Saved, drain-Drained}
use amorphos_fsrf.Host.Memory.{Outset}

-- With a device and files that serve as documented, the counts of pages in step and no count out of
-- range, every entry naming a device page below 2^24 and a page that its file has, and, for an
-- invalidation, the standard mode and each present page's device page among the application's own,
-- behind its table, `msync` returns, each transfer shown performed by the engine's count. The files are
-- then as if each dirty page of the range (present, and writable) had been saved on its own, in order,
-- from its device page to its file page; the result is 1 just when a page of the range has no entry; as
-- many pages were moved as are dirty. With invalidation, the words of the present pages of the range in
-- the table in the device memory are 0, these pages are no longer present, and their device pages free;
-- nothing else of the state and of the device has changed.
pub msync-Saved :
    (before : Outset) (addr length : ℕ) (invalidate : Bool) (s : Fio)
    → IsReady before s
    → IsReachable before s.vm_maps
    → IsOwning invalidate s.vm_maps s
    → s.pages_xfered + page_len length < 2 ^ 64
    → Saved before s
        (dirty_pages s.vm_maps (page_len length) (addr / 4096))
        (sync_code s.vm_maps (page_len length) (addr / 4096) 0)
        (saved s.vm_maps (page_len length) (addr / 4096))
        (wipe_from invalidate s.app_id s.vm_maps (page_len length) (addr / 4096))
        (cleared invalidate (page_len length) (addr / 4096) s.vm_maps)
        (free_from invalidate s.phys_base s.vm_maps (page_len length) (addr / 4096) s.ppo_to_vpn)
        (msync addr length invalidate s)
unfolding msync drain queue_done
msync-Saved before addr length invalidate s h reach owned fits =
    let none_yet : 0 + dirty_pages s.vm_maps (page_len length) (addr / 4096)
        ≡ dirty_pages s.vm_maps (page_len length) (addr / 4096) =
      omega arith in
    rw (none_yet, clear_from-cleared invalidate (page_len length) (addr / 4096) s.vm_maps) at
      (drain-Drained before invalidate s.vm_maps (page_len length) (addr / 4096) first_pass s h
        (λ v beyond. refl) reach owned tt (omega (arith, fits)))
