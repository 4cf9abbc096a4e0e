-- ===== src/Fio/Sync/Clearing.antt =====
-- How `msync` of sw/daemon/aos_fio.hpp takes a page out of the TLB, and clears its entry.
use amorphos_fsrf.Common.{
  ◌/◌, ◌==◌, ne→==, ◌≤◌, ℕ, zero, suc, ◌+◌, ◌%◌, ◌<◌, ◌≡◌, refl, ◌∙◌, ap, Bool, Bool-cases, inl,
  inr, true, false, ◌&&◌, Option, none, some, arith, sub64, ltb, ◌∷◌, if◌then◌else◌,
}
use amorphos_fsrf.Host.{Trace, World, log, mem_bar, poked}
use amorphos_fsrf.Fpga.{write_mem_reg}
use amorphos_fsrf.Host.Memory.{Page, set_word}
use amorphos_fsrf.Fio.Sync.Address.{tlb_place, table_end, place_page}
use amorphos_fsrf.Fio.{Fio, Vme, Run, ok, Cmd, and_then, pure, update, invalid_vpn}
use amorphos_fsrf.Fio.Ready.{with_trace}
use amorphos_fsrf.Fio.Sync.{drop_tlb, write_tlb_dram, drop_entry, set_ppo, tlb_addr}

-- With invalidation, the entry of a present page is no longer present, and its device page is free.
unfoldable pub clear_page : Bool → ℕ → Option Vme → (ℕ → Option Vme) → ℕ → Option Vme
clear_page invalidate vpn none vm = vm
clear_page invalidate vpn (some e) vm =
    if invalidate && e.present
    then update vm vpn (some (record e { ppn = 0; present = false }))
    else vm

unfoldable pub free_page : Bool → ℕ → Option Vme → (ℕ → ℕ) → ℕ → ℕ
free_page invalidate base none ppo = ppo
free_page invalidate base (some e) ppo =
    if invalidate && e.present then update ppo (sub64 e.ppn base) invalid_vpn else ppo

-- The word of its entry in the application's table becomes 0.
unfoldable pub wipe_page : Bool → ℕ → ℕ → Option Vme → (ℕ → Page) → ℕ → Page
wipe_page invalidate app vpn none device = device
wipe_page invalidate app vpn (some e) device =
    if invalidate && e.present then set_word (tlb_place app vpn) 0 device else device

unfoldable pub wipe_from : Bool → ℕ → (ℕ → Option Vme) → ℕ → ℕ → (ℕ → Page) → ℕ → Page
wipe_from invalidate app old zero vpn device = device
wipe_from invalidate app old (suc n) vpn device =
    wipe_from invalidate app old n (vpn + 1) (wipe_page invalidate app vpn (old vpn) device)

-- Where the device pages that an invalidation does not touch begin.
abbrev pub table_low : Bool → ℕ → ℕ
table_low invalidate app = if invalidate then table_end app else 0

pub wipe_page_above :
    (invalidate : Bool) (app vpn : ℕ) (o : Option Vme) (device : ℕ → Page) (p : ℕ)
    → table_low invalidate app ≤ p
    → wipe_page invalidate app vpn o device p ≡ device p
unfolding wipe_page
wipe_page_above invalidate app vpn none device p above = refl
wipe_page_above false app vpn (some e) device p above = refl
wipe_page_above true app vpn (some e) device p above = elim (Bool-cases e.present) [
  | inr keeps ↦ rw keeps refl
  | inl clears ↦
      let other : (p == tlb_place app vpn / 4096) ≡ false =
        ne→== p (tlb_place app vpn / 4096) (λ q. omega (arith, q, above, place_page app vpn)) in
      rw clears (unfold set_word in rw other refl)
]

-- Page by page, `n` pages from `vpn` on, with the entries of `old`.
unfoldable pub clear_from : Bool → (ℕ → Option Vme) → ℕ → ℕ → (ℕ → Option Vme) → ℕ → Option Vme
clear_from invalidate old zero vpn vm = vm
clear_from invalidate old (suc n) vpn vm =
    clear_from invalidate old n (vpn + 1) (clear_page invalidate vpn (old vpn) vm)

unfoldable pub free_from : Bool → ℕ → (ℕ → Option Vme) → ℕ → ℕ → (ℕ → ℕ) → ℕ → ℕ
free_from invalidate base old zero vpn ppo = ppo
free_from invalidate base old (suc n) vpn ppo =
    free_from invalidate base old n (vpn + 1) (free_page invalidate base (old vpn) ppo)

-- The state with more events, another count, and other pages.
abbrev pub after : Fio → Trace → ℕ → (ℕ → Option Vme) → (ℕ → ℕ) → Fio
after s t n vm ppo = record (with_trace s t n) { vm_maps = vm; ppo_to_vpn = ppo }

-- What an invalidation asks for: the standard mode, and the page's device page among the
-- application's own, behind its table.
abbrev pub IsOwned : Bool → Vme → Fio → Type 0
IsOwned invalidate e s =
    (invalidate && e.present) ≡ true
    → (s.standard ≡ true) × (sub64 e.ppn s.phys_base < s.ppo_size) × (table_end s.app_id ≤ e.ppn)

write_mem_reg_world :
    (a v : ℕ) (w : World) → a % 8 ≡ 0 → (write_mem_reg a v w).world ≡ log (poked mem_bar a v) w
unfolding write_mem_reg
write_mem_reg_world a v w h = ground arith

pub if_true : {A : Type 0} → (b : Bool) (x y : A) → b ≡ true → (if b then x else y) ≡ x
if_true b x y e = rw e refl

pub if_false : {A : Type 0} → (b : Bool) (x y : A) → b ≡ false → (if b then x else y) ≡ y
if_false b x y e = rw e refl

pub and_then_ok :
    {A B : Type 0}
    → (r : Run A) (a : A) (s : Fio) (k : A → Cmd B) → r ≡ ok a s
    → and_then r k ≡ k a s
and_then_ok r a s k e = ap (λ x. and_then x k) e

pub write_tlb_dram_outcome :
    (vpn a entry : ℕ) (s : Fio)
    → tlb_addr s.app_id vpn ≡ some a
    → a % 8 ≡ 0
    → write_tlb_dram vpn entry s
      ≡ ok tt (with_trace s (poked mem_bar a entry ∷ s.world.trace) s.pages_xfered)
unfolding write_tlb_dram
write_tlb_dram_outcome vpn a entry s at aligned =
    rw (at, write_tlb_dram)
      (ap (λ w. ok tt (record s { world = w })) (write_mem_reg_world a entry s.world aligned))

pub drop_tlb_outcome :
    (vpn huge a : ℕ) (s : Fio)
    → s.standard ≡ true
    → tlb_addr s.app_id vpn ≡ some a
    → a % 8 ≡ 0
    → drop_tlb vpn huge s
      ≡ ok huge (with_trace s (poked mem_bar a 0 ∷ s.world.trace) s.pages_xfered)
unfolding drop_tlb
drop_tlb_outcome vpn huge a s standard at aligned =
    if_true s.standard _ _ standard
    ∙ and_then_ok (write_tlb_dram vpn 0 s) tt
        (with_trace s (poked mem_bar a 0 ∷ s.world.trace) s.pages_xfered) (λ _. pure huge)
        (write_tlb_dram_outcome vpn a 0 s at aligned)

-- The page's entry is cleared and its device page freed.
pub drop_entry_outcome :
    (invalidate : Bool) (vpn : ℕ) (e : Vme) (s : Fio)
    → IsOwned invalidate e s
    → (if invalidate && e.present then drop_entry vpn e else pure tt) s
      ≡ ok tt (record s {
        vm_maps = clear_page invalidate vpn (some e) s.vm_maps;
        ppo_to_vpn = free_page invalidate s.phys_base (some e) s.ppo_to_vpn;
      })
unfolding drop_entry set_ppo clear_page free_page
drop_entry_outcome invalidate vpn e s owned = elim (Bool-cases (invalidate && e.present)) [
  | inl clears ↦
      let within : ltb (sub64 e.ppn s.phys_base) s.ppo_size ≡ true =
        let bound = (owned clears).1 in ground arith in
      rw clears (rw within refl)
  | inr keeps ↦ rw keeps refl
]
