-- ===== src/Fio/Populate/Loading.antt =====
-- `populate_unaligned` of sw/daemon/aos_fio.hpp in the first turn of the ring: pages of a file come to
-- the device.
use amorphos_fsrf.Common.{
  ℕ, ◌+◌, ◌-◌, ◌^◌, ◌≤◌, ◌<◌, ◌≡◌, refl, sym, ◌∙◌, ap, Bool-cases, inl, inr, true, false, Option,
  some, arith, add64, ltb, ◌==◌, ==_iff, if◌then◌else◌, fun_ext,
}
use amorphos_fsrf.Host.{Trace}
use amorphos_fsrf.Host.Memory.{Outset, Memory, replay}
use amorphos_fsrf.Fio.{Fio, Vme, Run, ok, pure, Cmd, ◌>>◌, update, vm_touch}
use amorphos_fsrf.Fio.Ready.{IsReady}
use amorphos_fsrf.Fio.Copies.{FileToDevice, file_to_device-Moved}
use amorphos_fsrf.Fio.Transfer.{file_to_device}
use amorphos_fsrf.Fio.Alloc.{ring_start, grant, take_pages, phys_alloc_unaligned}
use amorphos_fsrf.Fio.Alloc.Ring.{IsRing}
use amorphos_fsrf.Fio.Sync.Address.{table_end}
use amorphos_fsrf.Fio.Sync.Clearing.{after, and_then_ok}
use amorphos_fsrf.Fio.Populate.{tlb_populate, populate_unaligned}
use amorphos_fsrf.Fio.Populate.Placed.{entered, owned}
use amorphos_fsrf.Fio.Populate.Tables.{table_from, rights_of}
use amorphos_fsrf.Fio.Populate.Entering.{tlb_populate_from-entered}

-- The pages are consecutive pages of one file.
abbrev pub IsPart : (ℕ → Option Vme) → ℕ → ℕ → ℕ → ℕ → Type 0
IsPart vm n vpn fd fd_pn =
    (k : ℕ) → k < n → (e : Vme) × (vm (vpn + k) ≡ some e) × (e.fd ≡ fd) × (e.fd_pn ≡ fd_pn + k)

-- The ring moved on by pages that are granted.
abbrev pub turned : ℕ → Fio → Fio
turned n s = record s {
  phys_overflow = if add64 s.phys_next n == s.phys_bound then true else s.phys_overflow;
  phys_next = if add64 s.phys_next n == s.phys_bound then ring_start s else add64 s.phys_next n;
}

take_pages_turned : (n : ℕ) (s : Fio) → take_pages n s ≡ turned n s
take_pages_turned n s = elim (Bool-cases (add64 s.phys_next n == s.phys_bound)) [
  | inl e ↦ rw e refl
  | inr e ↦ rw e refl
]

alloc_first :
    (num_pages : ℕ) (s : Fio)
    → s.phys_overflow ≡ false
    → phys_alloc_unaligned num_pages s
      ≡ ok
          (grant num_pages s, if ltb 0 (grant num_pages s) then s.phys_next else 0)
          (take_pages (grant num_pages s) s)
unfolding phys_alloc_unaligned
alloc_first num_pages s first = rw first refl

alloc_turned :
    (num_pages : ℕ) (s : Fio)
    → s.phys_overflow ≡ false
    → 1 ≤ grant num_pages s
    → phys_alloc_unaligned num_pages s
      ≡ ok (grant num_pages s, s.phys_next) (turned (grant num_pages s) s)
alloc_turned num_pages s first some_page =
    let n = grant num_pages s in
    let ppn : (if ltb 0 n then s.phys_next else 0) ≡ s.phys_next = ground arith in
    alloc_first num_pages s first
    ∙ ap (λ p. ok (n, p) (take_pages n s)) ppn
    ∙ ap (λ s'. ok (n, s.phys_next) s') (take_pages_turned n s)

vm_touch_mapped : (vpn : ℕ) (e : Vme) (s : Fio) → s.vm_maps vpn ≡ some e → vm_touch vpn s ≡ ok e s
vm_touch_mapped vpn e s found =
    let same : update s.vm_maps vpn (some e) ≡ s.vm_maps = fun_ext λ v.
      elim (Bool-cases (vpn == v)) [
        | inl at ↦ rw at (sym found ∙ ap s.vm_maps ((==_iff vpn v).0 at))
        | inr away ↦ rw away refl
      ] in
    rw found (ap (λ vm. ok e (record s { vm_maps = vm })) same)

FileToDevice-cast :
    (fd fd' fd_pn fd_pn' n ppn : ℕ) (a a' b : Memory)
    → fd ≡ fd'
    → fd_pn ≡ fd_pn'
    → a ≡ a'
    → FileToDevice fd fd_pn n ppn a b
    → FileToDevice fd' fd_pn' n ppn a' b
FileToDevice-cast fd fd' fd_pn fd_pn' n ppn a a' b e1 e2 e3 h = rw (e1, e2, e3) at h

-- What a population of `n` pages at the next device pages does: the pages are present there, and the
-- device holds the pages of the file.
pub record Loaded (before : Outset) (s : Fio) (n vpn fd fd_pn : ℕ) (r : Run ℕ) : Type 0 where
  pub trace : Trace
  pub returns :
      r
      ≡ ok n (
          after
            (turned n s)
            trace
            (s.pages_xfered + n)
            (entered n vpn s.phys_next s.vm_maps)
            (owned n vpn (s.phys_next - s.phys_base) s.ppo_to_vpn))
  pub contents :
      (m : Memory)
      → FileToDevice fd fd_pn n s.phys_next
          (record (replay before s.world.trace m) {
            device =
                table_from s.app_id
                  (rights_of s.vm_maps)
                  n
                  vpn
                  s.phys_next
                  (replay before s.world.trace m).device;
          })
          (replay before trace m)
  pub ready : IsReady before (
      after
        (turned n s)
        trace
        (s.pages_xfered + n)
        (entered n vpn s.phys_next s.vm_maps)
        (owned n vpn (s.phys_next - s.phys_base) s.ppo_to_vpn))

-- The ring lies within the application's device pages, below 2^24, and behind its table.
abbrev pub IsRoomy : Fio → Type 0
IsRoomy s =
    (table_end s.app_id ≤ s.phys_next)
    × (s.phys_base ≤ s.phys_next)
    × (s.phys_bound ≤ s.phys_base + s.ppo_size)
    × (s.phys_bound ≤ 2 ^ 24)

-- With a device and files that serve as documented, the counts of pages in step and no count out of
-- range, the standard mode, the first turn of a ring within the application's device pages, below 2^24
-- and behind its table, virtual pages below 2^36, and consecutive pages that one file has,
-- `populate_unaligned` returns, each transfer shown performed by the engine's count: the pages that are
-- granted are present at the next device pages, which belong to those pages and hold the pages of the
-- file; the words of these pages in the table in the device memory have the virtual page, the device
-- page and the right to write in their places; all other entries and all other words of the device are
-- as before, and so are the files; as many pages were moved as were granted.
pub populate_unaligned-Loaded :
    (before : Outset) (vpn num_pages fd fd_pn : ℕ) (s : Fio)
    → IsReady before s
    → s.standard ≡ true
    → s.phys_overflow ≡ false
    → IsRing s
    → IsRoomy s
    → IsPart s.vm_maps num_pages vpn fd fd_pn
    → 1 ≤ num_pages
    → fd_pn + num_pages < 2 ^ 52
    → s.pages_xfered + num_pages < 2 ^ 64
    → vpn + num_pages ≤ 2 ^ 36
    → fd_pn + num_pages ≤ before.pages fd
    → Loaded before s (grant num_pages s) vpn fd fd_pn (populate_unaligned vpn num_pages s)
unfolding populate_unaligned tlb_populate
populate_unaligned-Loaded before vpn num_pages fd fd_pn s h standard first ring roomy part one place
      fits near inside =
    let n = grant num_pages s in
    let bounds : (1 ≤ n) × (n ≤ num_pages) × (s.phys_next + n ≤ s.phys_bound) =
      ground (arith, ring.next_lt, ring.fits) in
    let (e, found, same_fd, same_place) = part 0 one in
    let here : vpn + 0 ≡ vpn = omega arith in
    let start : e.fd_pn ≡ fd_pn = omega (arith, same_place) in
    let s1 : Fio = turned n s in
    let ready1 : IsReady before s1 = record {
      healthy = h.healthy;
      patient = h.patient;
      app = h.app;
      buf = h.buf;
      channel = h.channel;
      settled = h.settled;
      idle = h.idle;
    } in
    let filled =
      tlb_populate_from-entered before (vpn + n)
        (record { small_limit = 4096; large_limit = 128; pip_left = 0 }) n vpn s.phys_next s1 ready1
        standard roomy.1 (omega (arith, bounds, roomy)) (omega (arith, bounds, roomy))
        (omega (arith, bounds, near)) in
    let s2 : Fio =
      after s1 filled.trace s.pages_xfered (entered n vpn s.phys_next s.vm_maps)
        (owned n vpn (s.phys_next - s.phys_base) s.ppo_to_vpn) in
    let transfer : Vme → Cmd (Unit {0}) = λ x. file_to_device x.fd x.fd_pn n s.phys_next in
    let loaded =
      file_to_device-Moved before e.fd e.fd_pn n s.phys_next s2 filled.ready
        (omega (arith, bounds, start, place)) (omega (arith, bounds, roomy))
        (omega (arith, bounds, fits)) (rw (same_fd, start) (omega (arith, bounds, inside))) in
    record {
      trace = loaded.trace;
      returns =
          and_then_ok (phys_alloc_unaligned num_pages s) (n, s.phys_next) s1 _
            (alloc_turned num_pages s first bounds.0)
          ∙ and_then_ok (vm_touch vpn s1) e s1
              (λ x. tlb_populate vpn s.phys_next n >> (transfer x >> pure n))
              (vm_touch_mapped vpn e s1 (ap s.vm_maps (sym here) ∙ found))
          ∙ and_then_ok (tlb_populate vpn s.phys_next n s1) tt s2 (λ _. transfer e >> pure n)
              filled.returns
          ∙ and_then_ok (file_to_device e.fd e.fd_pn n s.phys_next s2) tt _ (λ _. pure n)
              loaded.returns;
      contents = λ m.
          FileToDevice-cast e.fd fd e.fd_pn fd_pn n s.phys_next (replay before filled.trace m)
            (record (replay before s.world.trace m) {
              device =
                  table_from s.app_id (rights_of s.vm_maps) n vpn s.phys_next
                    (replay before s.world.trace m).device;
            })
            (replay before loaded.trace m) same_fd start (filled.memory m) (loaded.memory m);
      ready = loaded.ready;
    }
