-- ===== src/Fio/Populate/Entering.antt =====
-- `tlb_populate` of sw/daemon/aos_fio.hpp in the mode that keeps the TLB in the device memory: the
-- entries that it leaves, and the virtual pages of the device pages.
use amorphos_fsrf.Common.{
  ℕ, zero, suc, ◌+◌, ◌-◌, ◌%◌, ◌^◌, ◌≤◌, ◌<◌, ◌≡◌, ◌≢◌, refl, ◌∙◌, ap, Bool, true, Option, some,
  ◌∷◌, arith, sub64, ltb, ne→==, fun_ext,
}
use amorphos_fsrf.Host.{Trace, mem_bar, poked}
use amorphos_fsrf.Host.Memory.{
  Outset, Page, Memory, replay, apply, commanded, outstanding, set_word,
}
use amorphos_fsrf.Fio.{Fio, Vme, Run, ok, pure, update, entry_or_zero}
use amorphos_fsrf.Fio.Ready.{IsReady, with_trace}
use amorphos_fsrf.Fio.Sync.{set_ppo, tlb_addr, write_tlb_dram}
use amorphos_fsrf.Fio.Sync.Address.{tlb_addr_place, tlb_place}
use amorphos_fsrf.Fio.Sync.Clearing.{after, if_true, and_then_ok, write_tlb_dram_outcome}
use amorphos_fsrf.Fio.Populate.{Limits, dram_entry, fill_tlb, populate_page, tlb_populate_from}
use amorphos_fsrf.Fio.Populate.Placed.{
  placed, enter_from, own_from, entered, owned, enter_from_cell, own_from_cell,
}
use amorphos_fsrf.Fio.Populate.Tables.{table_word, table_from, rights_of, dram_entry_sum}

-- The run returns with these entries, the device changed by `fill`, and the state and the memory
-- otherwise as before.
pub record Entered {A : Type 0} (before : Outset) (s : Fio) (a : A) (vm : ℕ → Option Vme)
    (ppo : ℕ → ℕ) (fill : (ℕ → Page) → ℕ → Page) (r : Run A) : Type 0 where
  pub trace : Trace
  pub returns : r ≡ ok a (after s trace s.pages_xfered vm ppo)
  pub memory :
      (m : Memory)
      → replay before trace m ≡ record (replay before s.world.trace m) {
        device = fill (replay before s.world.trace m).device;
      }
  pub ready : IsReady before (after s trace s.pages_xfered vm ppo)

fill_tlb_outcome :
    (vpn ppn last a : ℕ) (writable : Bool) (l : Limits) (s : Fio)
    → s.standard ≡ true
    → tlb_addr s.app_id vpn ≡ some a
    → a % 8 ≡ 0
    → fill_tlb vpn ppn last writable l s
      ≡ ok l (
          with_trace s
            (poked mem_bar a (dram_entry vpn ppn writable) ∷ s.world.trace)
            s.pages_xfered)
unfolding fill_tlb
fill_tlb_outcome vpn ppn last a writable l s standard at aligned =
    if_true s.standard _ _ standard
    ∙ and_then_ok (write_tlb_dram vpn (dram_entry vpn ppn writable) s) tt
        (with_trace s (poked mem_bar a (dram_entry vpn ppn writable) ∷ s.world.trace)
          s.pages_xfered)
        (λ _. pure l) (write_tlb_dram_outcome vpn a (dram_entry vpn ppn writable) s at aligned)

set_ppo_outcome :
    (ppo vpn : ℕ) (s : Fio)
    → ppo < s.ppo_size
    → set_ppo ppo vpn s ≡ ok tt (record s { ppo_to_vpn = update s.ppo_to_vpn ppo vpn })
unfolding set_ppo
set_ppo_outcome ppo vpn s within = if_true (ltb ppo s.ppo_size) _ _ (ground arith)

update_again :
    (vm : ℕ → Option Vme) (v : ℕ) (a b : Option Vme) → update (update vm v a) v b ≡ update vm v b
update_again vm v a b = fun_ext λ w. ground arith

update_other :
    (vm : ℕ → Option Vme) (v : ℕ) (o : Option Vme) (w : ℕ) → v ≢ w → update vm v o w ≡ vm w
update_other vm v o w other = rw (ne→== v w other) refl

module _ (before : Outset) (last : ℕ) (l : Limits) where
  populate_page-Entered :
      (vpn ppn : ℕ) (s : Fio)
      → IsReady before s
      → s.standard ≡ true
      → sub64 ppn s.phys_base < s.ppo_size
      → vpn < 2 ^ 36
      → ppn < 2 ^ 24
      → Entered before s l
          (update s.vm_maps vpn (some (placed ppn (s.vm_maps vpn))))
          (update s.ppo_to_vpn (sub64 ppn s.phys_base) vpn)
          (set_word (tlb_place s.app_id vpn) (table_word vpn ppn (rights_of s.vm_maps vpn)))
          (populate_page vpn ppn last l s)
  unfolding populate_page replay apply commanded outstanding
  populate_page-Entered vpn ppn s h standard within near reach =
      let slot = tlb_addr_place s.app_id vpn h.app in
      let place = tlb_place s.app_id vpn in
      let old = entry_or_zero (s.vm_maps vpn) in
      let touched : Fio = record s { vm_maps = update s.vm_maps vpn (some old) } in
      let trace' : Trace = poked mem_bar place (dram_entry vpn ppn old.writable) ∷ s.world.trace in
      let filled : Fio = with_trace touched trace' s.pages_xfered in
      let entered : Fio = record filled {
        vm_maps = update filled.vm_maps vpn (some (placed ppn (s.vm_maps vpn)));
      } in
      record {
        trace = trace';
        returns =
            and_then_ok (fill_tlb vpn ppn last old.writable l touched) l filled _
              (fill_tlb_outcome vpn ppn last place old.writable l touched standard slot.0 slot.1)
            ∙ and_then_ok (set_ppo (sub64 ppn s.phys_base) vpn entered) tt _ _
                (set_ppo_outcome (sub64 ppn s.phys_base) vpn entered within)
            ∙ ap
                (λ vm. ok l (
                  after s trace' s.pages_xfered vm
                    (update s.ppo_to_vpn (sub64 ppn s.phys_base) vpn)))
                (update_again s.vm_maps vpn (some old) (some (placed ppn (s.vm_maps vpn))));
        memory = λ m.
            ap
              (λ v. record (replay before s.world.trace m) {
                device = set_word place v (replay before s.world.trace m).device;
              })
              (dram_entry_sum vpn ppn old.writable near reach);
        ready = record {
          healthy = h.healthy;
          patient = h.patient;
          app = h.app;
          buf = h.buf;
          channel = h.channel;
          settled = h.settled;
          idle = h.idle;
        };
      }

  pub tlb_populate_from-Entered :
      (rights : ℕ → Bool) (n vpn ppn : ℕ) (s : Fio)
      → IsReady before s
      → s.standard ≡ true
      → s.phys_base ≤ ppn
      → ppn + n ≤ s.phys_base + s.ppo_size
      → ppn + n ≤ 2 ^ 24
      → vpn + n ≤ 2 ^ 36
      → ((v : ℕ) → vpn ≤ v → rights_of s.vm_maps v ≡ rights v)
      → Entered before s tt
          (enter_from n vpn ppn s.vm_maps)
          (own_from n s.phys_base vpn ppn s.ppo_to_vpn)
          (table_from s.app_id rights n vpn ppn)
          (tlb_populate_from n vpn ppn last l s)
  unfolding tlb_populate_from enter_from own_from table_from
  tlb_populate_from-Entered rights zero vpn ppn s h standard low high fits near same = record {
    trace = s.world.trace;
    returns = refl;
    memory = λ m. refl;
    ready = h;
  }
  tlb_populate_from-Entered rights (suc n) vpn ppn s h standard low high fits near same =
      let here =
        populate_page-Entered vpn ppn s h standard (omega (arith, low, high, fits))
          (omega (arith, near)) (omega (arith, fits)) in
      let later =
        tlb_populate_from-Entered rights n (vpn + 1) (ppn + 1) _ here.ready standard
          (omega (arith, low)) (omega (arith, high)) (omega (arith, fits)) (omega (arith, near))
          (λ v beyond.
            ap (λ o. (entry_or_zero o).writable)
              (update_other s.vm_maps vpn (some (placed ppn (s.vm_maps vpn))) v
                (λ q. omega (arith, q, beyond)))
            ∙ same v (omega (arith, beyond))) in
      record {
        trace = later.trace;
        returns = and_then_ok (populate_page vpn ppn last l s) l _ _ here.returns ∙ later.returns;
        memory = λ m.
            later.memory m
            ∙ ap {A = Memory} {B = Memory}
                (λ k. record k {
                  device = table_from s.app_id rights n (vpn + 1) (ppn + 1) k.device;
                })
                (here.memory m)
            ∙ ap
                (λ w. record (replay before s.world.trace m) {
                  device = table_from s.app_id rights n (vpn + 1) (ppn + 1) (
                      set_word (tlb_place s.app_id vpn) (table_word vpn ppn w)
                        (replay before s.world.trace m).device);
                })
                (same vpn (omega arith));
        ready = later.ready;
      }

pub tlb_populate_from-entered :
    (before : Outset) (last : ℕ) (l : Limits) (n vpn ppn : ℕ) (s : Fio)
    → IsReady before s
    → s.standard ≡ true
    → s.phys_base ≤ ppn
    → ppn + n ≤ s.phys_base + s.ppo_size
    → ppn + n ≤ 2 ^ 24
    → vpn + n ≤ 2 ^ 36
    → Entered before s tt
        (entered n vpn ppn s.vm_maps)
        (owned n vpn (ppn - s.phys_base) s.ppo_to_vpn)
        (table_from s.app_id (rights_of s.vm_maps) n vpn ppn)
        (tlb_populate_from n vpn ppn last l s)
tlb_populate_from-entered before last l n vpn ppn s h standard low high fits near =
    let same_vm : enter_from n vpn ppn s.vm_maps ≡ entered n vpn ppn s.vm_maps =
      fun_ext λ v. enter_from_cell n vpn ppn s.vm_maps v in
    let same_ppo : own_from n s.phys_base vpn ppn s.ppo_to_vpn
        ≡ owned n vpn (ppn - s.phys_base) s.ppo_to_vpn =
      fun_ext λ p. own_from_cell n s.phys_base vpn ppn s.ppo_to_vpn p low (omega (arith, fits)) in
    rw (same_vm, same_ppo) at
      (tlb_populate_from-Entered before last l (rights_of s.vm_maps) n vpn ppn s h standard low high
        fits near (λ v beyond. refl))
