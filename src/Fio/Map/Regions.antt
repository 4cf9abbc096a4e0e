-- ===== src/Fio/Map/Regions.antt =====
-- The entries that `mmap` and `munmap` of sw/daemon/aos_fio.hpp leave in the page map.
use amorphos_fsrf.Common.{
  ℕ, zero, suc, ◌+◌, ◌*◌, ◌/◌, ◌^◌, ◌≤◌, ◌<◌, ◌≡◌, refl, ◌∙◌, ap, ◌⊎◌, inl, inr, false, ◌&&◌, ◌||◌,
  not, Option, none, some, arith, ◌==◌, ==_refl, ne→==, add64, ltb, bit_and, nonzero, ◌<<<◌,
}
use amorphos_fsrf.Fio.{Fio, Vme, ok, update, fd_find}
use amorphos_fsrf.Fio.Sync.{page_len}
use amorphos_fsrf.Fio.Control.{fd_or_zero}
use amorphos_fsrf.Fio.Map.{insert, insert_from, map_region, mmap, prot_write, map_populate}

-- No page from `vpn` on has an entry.
abbrev pub IsFree : (ℕ → Option Vme) → ℕ → Type 0
IsFree vm vpn = (v : ℕ) → vpn ≤ v → vm v ≡ none

insert_free :
    (vm : ℕ → Option Vme) (vpn : ℕ) (e : Vme)
    → vm vpn ≡ none
    → insert vm vpn e ≡ update vm vpn (some e)
insert_free vm vpn e h = rw (h, insert) refl

insert-IsFree :
    (vm : ℕ → Option Vme) (vpn : ℕ) (e : Vme)
    → IsFree vm vpn
    → IsFree (update vm vpn (some e)) (vpn + 1)
insert-IsFree vm vpn e h v p = rw (ne→== vpn v (λ q. omega arith)) (h v (omega arith))

insert_from_outside :
    (n vpn : ℕ) (e : Vme) (vm : ℕ → Option Vme) (v : ℕ)
    → IsFree vm vpn
    → (v < vpn) ⊎ (vpn + n ≤ v)
    → insert_from n vpn e vm v ≡ vm v
unfolding insert_from
insert_from_outside zero vpn e vm v h out = refl
insert_from_outside (suc n) vpn e vm v h out = rw (insert_free vm vpn e (h vpn (omega arith))) (
    insert_from_outside n (vpn + 1) (record e { fd_pn = add64 e.fd_pn 1 }) (update vm vpn (some e))
      v (insert-IsFree vm vpn e h) (ground arith)
    ∙ rw (ne→== vpn v (ground arith)) refl)

insert_from_inside :
    (n vpn : ℕ) (e : Vme) (vm : ℕ → Option Vme) (k : ℕ)
    → IsFree vm vpn
    → k < n
    → e.fd_pn + n < 2 ^ 64
    → insert_from n vpn e vm (vpn + k) ≡ some (record e { fd_pn = e.fd_pn + k })
unfolding insert_from
insert_from_inside zero vpn e vm k h p fits = absurd (omega arith)
insert_from_inside (suc n) vpn e vm zero h p fits =
    let here : vpn + 0 ≡ vpn = omega arith in
    let same : e.fd_pn ≡ e.fd_pn + 0 = omega arith in
    rw (insert_free vm vpn e (h vpn (omega arith)), here)
      (insert_from_outside n (vpn + 1) (record e { fd_pn = add64 e.fd_pn 1 })
          (update vm vpn (some e)) vpn (insert-IsFree vm vpn e h) (inl (omega arith))
        ∙ rw (==_refl vpn) refl
        ∙ ap (λ x. some (record e { fd_pn = x })) same)
insert_from_inside (suc n) vpn e vm (suc k) h p fits =
    let next : vpn + suc k ≡ vpn + 1 + k = omega arith in
    let one : add64 e.fd_pn 1 ≡ e.fd_pn + 1 = omega arith in
    let sum : e.fd_pn + 1 + k ≡ e.fd_pn + suc k = omega arith in
    rw (insert_free vm vpn e (h vpn (omega arith)), next, one)
      (insert_from_inside n (vpn + 1) (record e { fd_pn = e.fd_pn + 1 }) (update vm vpn (some e)) k
          (insert-IsFree vm vpn e h) (omega arith) (omega arith)
        ∙ ap (λ x. some (record e { fd_pn = x })) sum)

or_zero : Option ℕ → ℕ
or_zero o = elim o [ none ↦ 0 | some v ↦ v ]

-- The entry of a page of a new region: not on the device yet.
abbrev pub new_entry : ℕ → ℕ → ℕ → Vme
new_entry true_fd fd_pn prot = record {
  ppn = 0;
  fd_pn = fd_pn;
  fd = true_fd;
  present = false;
  writable = nonzero (bit_and prot prot_write);
}

-- The region of `n` pages behind those of `s`.
pub record IsRegion (s : Fio) (n true_fd fd_pn prot : ℕ) (s' : Fio) : Type 0 where
  pub next : s'.next_vpn ≡ s.next_vpn + n
  pub entries :
      (k : ℕ) → k < n → s'.vm_maps (s.next_vpn + k) ≡ some (new_entry true_fd (fd_pn + k) prot)
  pub others : (v : ℕ) → (v < s.next_vpn) ⊎ (s.next_vpn + n ≤ v) → s'.vm_maps v ≡ s.vm_maps v
  pub free : IsFree s'.vm_maps s'.next_vpn

map_region-IsRegion :
    (n true_fd fd_pn prot : ℕ) (s : Fio)
    → IsFree s.vm_maps s.next_vpn
    → s.next_vpn + n < 2 ^ 64
    → fd_pn + n < 2 ^ 64
    → IsRegion s n true_fd fd_pn prot (map_region n (new_entry true_fd fd_pn prot) s)
unfolding map_region
map_region-IsRegion n true_fd fd_pn prot s h fits place =
    let next : add64 s.next_vpn n ≡ s.next_vpn + n = omega arith in
    let e = new_entry true_fd fd_pn prot in
    record {
      next = next;
      entries = λ k p. insert_from_inside n s.next_vpn e s.vm_maps k h p place;
      others = λ v out. insert_from_outside n s.next_vpn e s.vm_maps v h out;
      free = λ v p.
          insert_from_outside n s.next_vpn e s.vm_maps v h (inr (omega (arith, next)))
          ∙ h v (omega (arith, next));
    }

-- With a descriptor that is open, no page from the next one on mapped, and the new region below
-- 2^32 pages, a mapping that is not populated returns the region's address, which is that of the
-- next page. Each of its pages then has an entry that is not present, of the file, with the right to
-- write that was asked for and with consecutive places in the file from the offset on; all other
-- pages are as before, and no page behind the region is mapped.
pub mmap-IsRegion :
    (length prot flags fd offset true_fd : ℕ) (s : Fio)
    → fd_find fd s.fd_map ≡ some true_fd
    → 1 ≤ true_fd
    → IsFree s.vm_maps s.next_vpn
    → s.next_vpn + page_len length ≤ 2 ^ 32
    → offset < 2 ^ 64
    → ((nonzero (bit_and flags map_populate) || s.physical) && not s.phys_overflow) ≡ false
    → (s' : Fio) × (mmap length prot flags fd offset s ≡ ok (s.next_vpn * 4096) s')
      × IsRegion s (page_len length) true_fd (offset / 4096) prot s'
unfolding mmap or_zero
mmap-IsRegion length prot flags fd offset true_fd s found positive h fits off quiet =
    let n : ℕ = page_len length in
    let known : fd_or_zero fd s ≡ true_fd = ap (λ (o : Option ℕ). or_zero o) found in
    let good : (true_fd == 0) ≡ false = ground arith in
    let sum : add64 s.next_vpn n ≡ s.next_vpn + n = omega arith in
    let below : ltb (2 ^ 32) (s.next_vpn + n) ≡ false = ground arith in
    let address : s.next_vpn <<< 12 ≡ s.next_vpn * 4096 = omega arith in
    (
      map_region n (new_entry true_fd (offset / 4096) prot) s,
      rw (known, good, sum, below, quiet, address) refl,
      map_region-IsRegion n true_fd (offset / 4096) prot s h (omega arith) (omega arith),
    )
