-- ===== src/Fio/Map/Unmapping.antt =====
-- `munmap` of sw/daemon/aos_fio.hpp saves the dirty pages of its range, and takes all its entries out.
use amorphos_fsrf.Common.{
  ℕ, zero, suc, ◌+◌, ◌/◌, ◌^◌, ◌≤◌, ◌<◌, ◌≡◌, ◌⊎◌, inl, inr, refl, sym, ◌∙◌, ap, Bool, Bool-cases,
  true, ◌&&◌, Option, none, some, arith, if◌then◌else◌, fun_ext,
}
use amorphos_fsrf.Fio.{Fio, Vme, ok, and_then, update}
use amorphos_fsrf.Fio.Ready.{IsReady}
use amorphos_fsrf.Fio.Sync.{page_len}
use amorphos_fsrf.Fio.Sync.Reference.{saved, dirty_pages, sync_code}
use amorphos_fsrf.Fio.Sync.Clearing.{after, free_from, wipe_from}
use amorphos_fsrf.Fio.Sync.Cells.{in_range, clear_entry, cleared}
use amorphos_fsrf.Fio.Sync.Draining.{IsReachable, IsOwning, Saved}
use amorphos_fsrf.Fio.Sync.Saving.{msync-Saved}
use amorphos_fsrf.Fio.Map.{erase_from, munmap}
use amorphos_fsrf.Host.Memory.{Outset}

-- No page of the range has an entry; the others have theirs.
abbrev pub unmapped : ℕ → ℕ → (ℕ → Option Vme) → ℕ → Option Vme
unmapped n vpn vm v = if in_range n vpn v then none else vm v

unmapped_next :
    (n vpn : ℕ) (vm : ℕ → Option Vme)
    → unmapped n (vpn + 1) (update vm vpn none) ≡ unmapped (suc n) vpn vm
unmapped_next n vpn vm = fun_ext λ v. ground arith

-- The code sees only whether a page has an entry.
sync_code_beyond :
    (n vpn rc : ℕ) (vm vm' : ℕ → Option Vme)
    → ((v : ℕ) → vpn ≤ v → vm v ≡ vm' v)
    → sync_code vm n vpn rc ≡ sync_code vm' n vpn rc
unfolding sync_code
sync_code_beyond zero vpn rc vm vm' same = refl
sync_code_beyond (suc n) vpn rc vm vm' same =
    rw (same vpn (omega arith))
      (sync_code_beyond n (vpn + 1) _ vm vm' (λ v beyond. same v (omega (arith, beyond))))

erase_from_outcome :
    (n vpn rc : ℕ) (s : Fio)
    → erase_from n vpn rc s
      ≡ ok (sync_code s.vm_maps n vpn rc) (record s { vm_maps = unmapped n vpn s.vm_maps })
unfolding erase_from sync_code
erase_from_outcome zero vpn rc s =
    let none_gone : s.vm_maps ≡ unmapped 0 vpn s.vm_maps = fun_ext λ v. ground arith in
    ap (λ vm. ok rc (record s { vm_maps = vm })) none_gone
erase_from_outcome (suc n) vpn rc s =
    let rc' : ℕ = elim (s.vm_maps vpn) [ none ↦ 1 | some e ↦ rc ] in
    let vm : ℕ → Option Vme = update s.vm_maps vpn none in
    erase_from_outcome n (vpn + 1) rc' (record s { vm_maps = vm })
    ∙ ap (λ code. ok code (record s { vm_maps = unmapped n (vpn + 1) vm }))
        (sync_code_beyond n (vpn + 1) rc' vm s.vm_maps (λ v beyond. ground arith))
    ∙ ap (λ left. ok (sync_code s.vm_maps n (vpn + 1) rc') (record s { vm_maps = left }))
        (unmapped_next n vpn s.vm_maps)

-- A missing page gives 1 whatever was the code before, and with none missing the code stays.
sync_code_cases :
    (n vpn : ℕ) (vm : ℕ → Option Vme)
    → ((rc : ℕ) → sync_code vm n vpn rc ≡ 1) ⊎ ((rc : ℕ) → sync_code vm n vpn rc ≡ rc)
unfolding sync_code
sync_code_cases zero vpn vm = inr (λ rc. refl)
sync_code_cases (suc n) vpn vm = elim (sync_code_cases n (vpn + 1) vm) [
  | inl missing ↦ inl (λ rc. missing _)
  | inr same ↦ here (vm vpn) same
]
  where
    here :
        (o : Option Vme)
        → ((rc : ℕ) → sync_code vm n (vpn + 1) rc ≡ rc)
        → ((rc : ℕ) → sync_code vm n (vpn + 1) (elim o [ none ↦ 1 | some e ↦ rc ]) ≡ 1)
          ⊎ ((rc : ℕ) → sync_code vm n (vpn + 1) (elim o [ none ↦ 1 | some e ↦ rc ]) ≡ rc)
    here none same = inl (λ rc. same 1)
    here (some e) same = inr same

sync_code_again :
    (n vpn : ℕ) (vm : ℕ → Option Vme)
    → sync_code vm n vpn (sync_code vm n vpn 0) ≡ sync_code vm n vpn 0
sync_code_again n vpn vm = elim (sync_code_cases n vpn vm) [
  | inl missing ↦ missing (sync_code vm n vpn 0) ∙ sym (missing 0)
  | inr same ↦ same (sync_code vm n vpn 0)
]

code_of_clear_entry :
    (invalidate : Bool) (o : Option Vme) (rc : ℕ)
    → elim (clear_entry invalidate o) as (λ x. ℕ) [ none ↦ 1 | some e ↦ rc ]
      ≡ elim o as (λ x. ℕ) [ none ↦ 1 | some e ↦ rc ]
unfolding clear_entry
code_of_clear_entry invalidate none rc = refl
code_of_clear_entry invalidate (some e) rc = elim (Bool-cases (invalidate && e.present)) [
  | inl clears ↦ rw clears refl
  | inr keeps ↦ rw keeps refl
]

code_of_cleared :
    (invalidate : Bool) (n vpn : ℕ) (vm : ℕ → Option Vme) (v rc : ℕ)
    → elim (cleared invalidate n vpn vm v) as (λ x. ℕ) [ none ↦ 1 | some e ↦ rc ]
      ≡ elim (vm v) as (λ x. ℕ) [ none ↦ 1 | some e ↦ rc ]
code_of_cleared invalidate n vpn vm v rc = elim (Bool-cases (in_range n vpn v)) [
  | inl inside ↦ rw inside (code_of_clear_entry invalidate (vm v) rc)
  | inr outside ↦ rw outside refl
]

sync_code-cleared :
    (invalidate : Bool) (n vpn : ℕ) (vm : ℕ → Option Vme) (m w rc : ℕ)
    → sync_code (cleared invalidate n vpn vm) m w rc ≡ sync_code vm m w rc
unfolding sync_code
sync_code-cleared invalidate n vpn vm zero w rc = refl
sync_code-cleared invalidate n vpn vm (suc m) w rc =
    sync_code-cleared invalidate n vpn vm m (w + 1) _
    ∙ ap (sync_code vm m (w + 1)) (code_of_cleared invalidate n vpn vm w rc)

unmapped-cleared :
    (invalidate : Bool) (n vpn : ℕ) (vm : ℕ → Option Vme)
    → unmapped n vpn (cleared invalidate n vpn vm) ≡ unmapped n vpn vm
unmapped-cleared invalidate n vpn vm = fun_ext λ v. elim (Bool-cases (in_range n vpn v)) [
  | inl inside ↦ rw inside refl
  | inr outside ↦ rw outside refl
]

-- With a device and files that serve as documented, the counts of pages in step and no count out of
-- range, every entry naming a device page below 2^24 and a page that its file has, the standard mode, and
-- each present page's device page among the application's own, behind its table, `munmap`, with no other
-- thread between its two parts, returns, each transfer shown performed by the engine's count. The files
-- are then as if each dirty page of the range (present, and writable) had been saved on its own, in
-- order, from its device page to its file page; the result is 1 just when a page of the range had no
-- entry; no page of the range has an entry then, every other has its own, the words of the present pages
-- in the table in the device memory are 0, and their device pages free; as many pages were moved as were
-- dirty, and nothing else of the state and of the device has changed.
pub munmap-Saved :
    (before : Outset) (addr length : ℕ) (s : Fio)
    → IsReady before s
    → IsReachable before s.vm_maps
    → IsOwning true s.vm_maps s
    → s.pages_xfered + page_len length < 2 ^ 64
    → Saved before s
        (dirty_pages s.vm_maps (page_len length) (addr / 4096))
        (sync_code s.vm_maps (page_len length) (addr / 4096) 0)
        (saved s.vm_maps (page_len length) (addr / 4096))
        (wipe_from true s.app_id s.vm_maps (page_len length) (addr / 4096))
        (unmapped (page_len length) (addr / 4096) s.vm_maps)
        (free_from true s.phys_base s.vm_maps (page_len length) (addr / 4096) s.ppo_to_vpn)
        (munmap addr length s)
unfolding munmap
munmap-Saved before addr length s h reach owned fits =
    let n = page_len length in
    let vpn = addr / 4096 in
    let r = msync-Saved before addr length true s h reach owned fits in
    let ppo = free_from true s.phys_base s.vm_maps n vpn s.ppo_to_vpn in
    let count = s.pages_xfered + dirty_pages s.vm_maps n vpn in
    let code = sync_code s.vm_maps n vpn 0 in
    record {
      trace = r.trace;
      returns =
          ap (λ run. and_then run (erase_from n vpn)) r.returns
          ∙ erase_from_outcome n vpn code (after s r.trace count (cleared true n vpn s.vm_maps) ppo)
          ∙ ap
              (λ c.
                ok c (after s r.trace count (unmapped n vpn (cleared true n vpn s.vm_maps)) ppo))
              (sync_code-cleared true n vpn s.vm_maps n vpn code ∙ sync_code_again n vpn s.vm_maps)
          ∙ ap (λ vm. ok code (after s r.trace count vm ppo))
              (unmapped-cleared true n vpn s.vm_maps);
      device = r.device;
      files = r.files;
      ready = record {
        healthy = r.ready.healthy;
        patient = r.ready.patient;
        app = r.ready.app;
        buf = r.ready.buf;
        channel = r.ready.channel;
        settled = r.ready.settled;
        idle = r.ready.idle;
      };
    }
