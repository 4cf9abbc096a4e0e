-- ===== src/Examples/Pages.antt =====
-- Transfers, pages and descriptors at concrete states (sw/daemon/aos_fio.hpp).
use mathlib.Core.Bool.{true≢false}
use amorphos_fsrf.Common.{
  sym, ◌∙◌, ◌/◌, ◌*◌, ℕ, ◌+◌, ◌-◌, ◌%◌, ◌^◌, ◌≤◌, ◌≡◌, ◌≢◌, ◌⊎◌, refl, true, false, none, some,
  Option, [], ◌∷◌, arith, leb, if◌then◌else◌, add64, sub64, minus_one, ◌<◌, Bool-cases, inl, inr,
}
use amorphos_fsrf.Host.Memory.{Outset, outstanding, Memory, replay, commanded, polls}
use amorphos_fsrf.Prefetch.{Prefetcher, get_num_pages}
use amorphos_fsrf.Prefetch.Bounds.{IsSound, get_num_pages_bounds}
use amorphos_fsrf.Prefetch.Streams.{Expects, get_num_pages-Expects}
use amorphos_fsrf.Fio.{Fio, Vme, ok, and_then, thrown, fd_find}
use amorphos_fsrf.Fio.Transfer.{dma_wrapper, file_to_device}
use amorphos_fsrf.Fio.Ready.{IsReady}
use amorphos_fsrf.Fio.Moves.{Moved, Does, moved, dma_wrapper-Moved}
use amorphos_fsrf.Fio.Copies.{FileToDevice, file_to_device-Moved}
use amorphos_fsrf.Fio.Contig.{contig}
use amorphos_fsrf.Fio.Contig.Run.{IsRun, contig-IsRun}
use amorphos_fsrf.Fio.Sync.Address.{tlb_addr_injective}
use amorphos_fsrf.Fio.Sync.Reference.{saved, dirty_pages, sync_code}
use amorphos_fsrf.Fio.Sync.Draining.{IsReachable, IsOwning, Saved}
use amorphos_fsrf.Fio.Sync.Clearing.{free_from, wipe_from}
use amorphos_fsrf.Fio.Sync.Address.{table_end}
use amorphos_fsrf.Fio.Sync.Wiped.{table_entry}
use amorphos_fsrf.Fio.Sync.Cells.{cleared}
use amorphos_fsrf.Fio.Populate.{populate_unaligned}
use amorphos_fsrf.Fio.Populate.Loading.{IsRoomy, IsPart, Loaded, populate_unaligned-Loaded}
use amorphos_fsrf.Fio.Map.Cycle.{populate_unaligned-munmap}
use amorphos_fsrf.Fio.Map.Unmapping.{unmapped, munmap-Saved}
use amorphos_fsrf.Fio.Sync.Saving.{msync-Saved}
use amorphos_fsrf.Fio.Alloc.{grant, phys_alloc_unaligned}
use amorphos_fsrf.Fio.Alloc.Ring.{IsRing, IsGranted, phys_alloc_unaligned-IsGranted}
use amorphos_fsrf.Fio.Control.{set_mode, file_open, file_close, is_empty}
use amorphos_fsrf.Fio.Control.Modes.{KeepsMode, set_mode-KeepsMode}
use amorphos_fsrf.Fio.Control.Files.{
  Returns, IsThreaded, IsOpened, true_fd, file_open_lookup, file_close_outcome,
}
use amorphos_fsrf.Fio.Sync.{page_len, msync}
use amorphos_fsrf.Fio.Map.{mmap, munmap}
use amorphos_fsrf.Fio.Map.Regions.{IsRegion, mmap-IsRegion}
use amorphos_fsrf.Examples.{idle_fio, absent_page}

slow_count_le : (c q : ℕ) → (if leb 2 q then c else 0) ≤ 0 + c
slow_count_le c q = ground arith

slow_count_eq : (c q : ℕ) → 3 ≤ q + 1 → (if leb 2 q then c else 0) ≡ 0 + c
slow_count_eq c q h = ground arith

-- The engine's count begins at 0, and each file has 2000 pages.
abbrev at_rest : Outset
at_rest = record { channel = 0; count = 0; pages = λ fd. 2000 }

idle_fio-IsReady : IsReady at_rest idle_fio
unfolding commanded outstanding
idle_fio-IsReady = record {
  healthy = record {
    reads = λ t fd n off fits. refl;
    writes = λ t fd n off fits. refl;
    count_le = λ t old. slow_count_le (commanded t 0) (polls t 0);
    count_eq = λ t old h. slow_count_eq (commanded t 0) (polls t 0) h;
  };
  patient = omega arith;
  app = omega arith;
  buf = omega arith;
  channel = refl;
  settled = refl;
  idle = refl;
}

-- 600 pages take two commands.
file_to_device-Moved_example :
    Moved at_rest idle_fio 600 (FileToDevice 7 20 600 1000) (file_to_device 7 20 600 1000 idle_fio)
file_to_device-Moved_example =
    file_to_device-Moved at_rest 7 20 600 1000 idle_fio idle_fio-IsReady (omega arith) (omega arith)
      (omega arith) (omega arith)

dma_wrapper-Moved_example :
    Moved at_rest idle_fio 512 (Does (moved true 1000 512)) (dma_wrapper true 512 1000 idle_fio)
dma_wrapper-Moved_example =
    dma_wrapper-Moved at_rest true 512 1000 idle_fio idle_fio-IsReady (omega arith) (omega arith)
      (omega arith) (omega arith)

-- Pages 10 to 13 of one file, and nothing else.
abbrev four_pages : ℕ → Option Vme
four_pages v = if leb 10 v then (if leb v 13 then some (absent_page (v - 10)) else none) else none

contig-IsRun_example :
    IsRun four_pages (absent_page 2) 8 12 30 (contig four_pages (absent_page 2) 8 12 30)
contig-IsRun_example = contig-IsRun four_pages (absent_page 2) 8 12 30 (omega arith) (omega arith)

-- They come to the device pages from 40000 on.
abbrev region_fio : Fio
region_fio = record idle_fio {
  standard = true;
  aos_seg = false;
  phys_next = 40000;
  vm_maps = four_pages;
}

region_fio-IsReady : IsReady at_rest region_fio
region_fio-IsReady = record {
  healthy = idle_fio-IsReady.healthy;
  patient = omega arith;
  app = omega arith;
  buf = omega arith;
  channel = refl;
  settled = idle_fio-IsReady.settled;
  idle = idle_fio-IsReady.idle;
}

region_fio-IsRing : IsRing region_fio
region_fio-IsRing = record { start_le = omega arith; next_lt = omega arith; fits = omega arith }

region_fio-IsRoomy : IsRoomy region_fio
unfolding table_end
region_fio-IsRoomy = (omega arith, omega arith, omega arith, omega arith)

four_pages-IsPart : IsPart four_pages 4 10 7 0
four_pages-IsPart k below =
    let low : leb 10 (10 + k) ≡ true = ground arith in
    let high : leb (10 + k) 13 ≡ true = ground (arith, below) in
    (absent_page (10 + k - 10), rw (low, high) refl, refl, omega arith)

four_pages-IsAbsent :
    (v : ℕ) (e : Vme)
    → four_pages v ≡ some e
    → (e.ppn < 2 ^ 24) × (e.fd_pn < 2 ^ 52) × (e.fd_pn < 2000) × (e.present ≡ false)
four_pages-IsAbsent v e found = elim (Bool-cases (leb 10 v)) [
  | inl low ↦ elim (Bool-cases (leb v 13)) [
    | inl high ↦ ground (arith, low, high, found)
    | inr high ↦ ground (arith, low, high, found)
  ]
  | inr low ↦ ground (arith, low, found)
]

four_pages-IsReachable : IsReachable at_rest four_pages
four_pages-IsReachable v e found = (
  (four_pages-IsAbsent v e found).0,
  (four_pages-IsAbsent v e found).1,
  (four_pages-IsAbsent v e found).2,
)

four_pages-IsOwning : IsOwning true four_pages region_fio
four_pages-IsOwning v e found present =
    absurd (true≢false (sym present ∙ (four_pages-IsAbsent v e found).3))

populate_unaligned-Loaded_example :
    Loaded at_rest region_fio (grant 4 region_fio) 10 7 0 (populate_unaligned 10 4 region_fio)
populate_unaligned-Loaded_example =
    populate_unaligned-Loaded at_rest 10 4 7 0 region_fio region_fio-IsReady refl refl
      region_fio-IsRing region_fio-IsRoomy four_pages-IsPart (omega arith) (omega arith)
      (omega arith) (omega arith) (omega arith)

populate_unaligned-munmap_example :
    (s' : Fio) × (and_then (populate_unaligned 10 4 region_fio) (λ n. munmap (10 * 4096) (n * 4096))
      ≡ ok 0 s')
    × (s'.vm_maps ≡ unmapped (grant 4 region_fio) 10 four_pages)
    × ((m : Memory)
        → (replay at_rest s'.world.trace m).file ≡ (replay at_rest region_fio.world.trace m).file)
    × ((m : Memory) (v : ℕ)
        → 10 ≤ v
        → v < 10 + grant 4 region_fio
        → table_entry 0 v (replay at_rest s'.world.trace m).device ≡ 0)
populate_unaligned-munmap_example =
    populate_unaligned-munmap at_rest 10 4 7 0 region_fio region_fio-IsReady refl refl
      region_fio-IsRing region_fio-IsRoomy four_pages-IsReachable four_pages-IsOwning
      four_pages-IsPart (omega arith) (omega arith) (omega arith) (omega arith) (omega arith)

tlb_addr_injective_example : ◌≡◌ {A = ℕ} 2 2 × ◌≡◌ {A = ℕ} 5000000 5000000
tlb_addr_injective_example =
    tlb_addr_injective 2 2 5000000 5000000 (omega arith) (omega arith) (omega arith) (omega arith)
      refl

-- Pages 10 to 13 of one file, written to, in device pages 40100 to 40102 and 40200, and nothing else.
abbrev dirty_page : ℕ → Vme
dirty_page k = record (absent_page k) {
  ppn = if leb k 2 then 40100 + k else 40200;
  present = true;
  writable = true;
  fd_pn = k;
}

abbrev dirty_maps : ℕ → Option Vme
dirty_maps v = if leb 10 v then (if leb v 13 then some (dirty_page (v - 10)) else none) else none

abbrev dirty_fio : Fio
dirty_fio = record idle_fio { standard = true; aos_seg = false; vm_maps = dirty_maps }

dirty_fio-IsReady : IsReady at_rest dirty_fio
dirty_fio-IsReady = record {
  healthy = idle_fio-IsReady.healthy;
  patient = omega arith;
  app = omega arith;
  buf = omega arith;
  channel = refl;
  settled = idle_fio-IsReady.settled;
  idle = idle_fio-IsReady.idle;
}

dirty_maps-IsDirty :
    (v : ℕ) (e : Vme)
    → dirty_maps v ≡ some e
    → (e.ppn < 2 ^ 24)
      × (e.fd_pn < 2 ^ 52)
      × (e.fd_pn < 2000)
      × (sub64 e.ppn 0 < 4 * 2 ^ 20)
      × (32 * 2 ^ 10 ≤ e.ppn)
dirty_maps-IsDirty v e found = elim (Bool-cases (leb 10 v)) [
  | inl low ↦ elim (Bool-cases (leb v 13)) [
    | inl high ↦ ground (arith, low, high, found)
    | inr high ↦ ground (arith, low, high, found)
  ]
  | inr low ↦ ground (arith, low, found)
]

dirty_maps-IsReachable : IsReachable at_rest dirty_maps
dirty_maps-IsReachable v e found = (
  (dirty_maps-IsDirty v e found).0,
  (dirty_maps-IsDirty v e found).1,
  (dirty_maps-IsDirty v e found).2,
)

dirty_fio-IsOwning : IsOwning true dirty_maps dirty_fio
unfolding table_end
dirty_fio-IsOwning v e found present =
    (refl, (dirty_maps-IsDirty v e found).3, (dirty_maps-IsDirty v e found).4)

msync-Saved_example :
    Saved at_rest dirty_fio
      (dirty_pages dirty_maps (page_len 16000) (40960 / 4096))
      (sync_code dirty_maps (page_len 16000) (40960 / 4096) 0)
      (saved dirty_maps (page_len 16000) (40960 / 4096))
      (wipe_from true 0 dirty_maps (page_len 16000) (40960 / 4096))
      (cleared true (page_len 16000) (40960 / 4096) dirty_maps)
      (free_from true 0 dirty_maps (page_len 16000) (40960 / 4096) dirty_fio.ppo_to_vpn)
      (msync 40960 16000 true dirty_fio)
msync-Saved_example =
    msync-Saved at_rest 40960 16000 true dirty_fio dirty_fio-IsReady dirty_maps-IsReachable
      dirty_fio-IsOwning (omega arith)

munmap-Saved_example :
    Saved at_rest dirty_fio
      (dirty_pages dirty_maps (page_len 16000) (40960 / 4096))
      (sync_code dirty_maps (page_len 16000) (40960 / 4096) 0)
      (saved dirty_maps (page_len 16000) (40960 / 4096))
      (wipe_from true 0 dirty_maps (page_len 16000) (40960 / 4096))
      (unmapped (page_len 16000) (40960 / 4096) dirty_maps)
      (free_from true 0 dirty_maps (page_len 16000) (40960 / 4096) dirty_fio.ppo_to_vpn)
      (munmap 40960 16000 dirty_fio)
munmap-Saved_example =
    munmap-Saved at_rest 40960 16000 dirty_fio dirty_fio-IsReady dirty_maps-IsReachable
      dirty_fio-IsOwning (omega arith)

idle_fio-IsRing : IsRing idle_fio
idle_fio-IsRing = record { start_le = omega arith; next_lt = omega arith; fits = omega arith }

phys_alloc_unaligned-IsGranted_example :
    (n : ℕ) × (ppn : ℕ) × (s' : Fio) × (phys_alloc_unaligned 64 idle_fio ≡ ok (n, ppn) s')
    × IsGranted 64 idle_fio n ppn s'
phys_alloc_unaligned-IsGranted_example =
    phys_alloc_unaligned-IsGranted 64 idle_fio idle_fio-IsRing refl

-- One stream that expects page 6, in windows of 512 pages.
abbrev one_stream : Prefetcher
one_stream = record {
  streams = record { vpn = 6; len = 4; age = 0 } ∷ record { vpn = 90; len = 1; age = 1 } ∷ [];
  max_len = 512;
}

one_stream-IsSound : IsSound one_stream
one_stream-IsSound = record {
  window = omega arith;
  small = omega arith;
  lens = ((omega arith, omega arith), ((omega arith, omega arith), tt));
}

get_num_pages_bounds_example :
    (1 ≤ (get_num_pages 6 one_stream).0)
    × (6 % 512 + (get_num_pages 6 one_stream).0 ≤ 512)
    × IsSound (get_num_pages 6 one_stream).1
get_num_pages_bounds_example = get_num_pages_bounds 6 one_stream one_stream-IsSound

get_num_pages-Expects_example :
    Expects (add64 6 (get_num_pages 6 one_stream).0) (get_num_pages 6 one_stream).1.streams
get_num_pages-Expects_example = get_num_pages-Expects 6 one_stream (omega arith) (omega arith)

file_open_lookup_example :
    Returns
      (λ fd s'.
        IsThreaded s'
        × (((true_fd [] idle_fio ≡ minus_one) × (fd ≡ minus_one) × (s'.fd_map ≡ idle_fio.fd_map))
            ⊎ ((true_fd [] idle_fio ≢ minus_one) × IsOpened idle_fio (true_fd [] idle_fio) fd s')))
      (file_open [] idle_fio)
file_open_lookup_example = file_open_lookup [] idle_fio refl refl

-- With one file open.
abbrev busy_fio : Fio
busy_fio = record idle_fio { joinable = true; fd_map = (3, 7) ∷ []; next_fd = 4 }

file_close_outcome_example :
    ((is_empty busy_fio.fd_map ≡ false)
      × Returns
          (λ rc s'.
            IsThreaded s'
            × (fd_find 3 s'.fd_map ≡ none)
            × ((k : ℕ) → k ≢ 3 → fd_find k s'.fd_map ≡ fd_find k busy_fio.fd_map))
          (file_close 3 busy_fio))
    ⊎ ((is_empty busy_fio.fd_map ≡ true) × (file_close 3 busy_fio ≡ thrown))
file_close_outcome_example = file_close_outcome 3 busy_fio refl

mmap-IsRegion_example :
    (s' : Fio) × (mmap 10000 3 1 3 8192 busy_fio ≡ ok (busy_fio.next_vpn * 4096) s')
    × IsRegion busy_fio (page_len 10000) 7 (8192 / 4096) 3 s'
mmap-IsRegion_example =
    mmap-IsRegion 10000 3 1 3 8192 7 busy_fio refl (omega arith) (λ v p. refl) (omega arith)
      (omega arith) refl

set_mode-KeepsMode_example : KeepsMode 1 2 (set_mode 1 2 idle_fio)
set_mode-KeepsMode_example = set_mode-KeepsMode 1 2 idle_fio refl
