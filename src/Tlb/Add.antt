-- ===== src/Tlb/Add.antt =====
-- `CyTLB::add` (sw/daemon/aos_fio.hpp): which pages are held afterwards.
use mathlib.Core.Bool.{false≢true}
use amorphos_fsrf.Common.{
  ℕ, ◌%◌, ◌<◌, ◌≡◌, inl, inr, true, false, Option, none, some, arith, Bool-cases, sym, ap, ◌∙◌,
}
use amorphos_fsrf.Host.{World}
use amorphos_fsrf.Tlb.{
  Huge, small, large, segment, sets, ways, Tlb, idx, vlds, set_of, victim_from, age_ways, store,
  settle, add, write_tlb, tlb_entry,
}
use amorphos_fsrf.Tlb.Ways.{
  cell, cell_refl, cell_value, set_of-mod, set_of-lt, age_ways_keeps, Found, victim_from-Found,
}
use amorphos_fsrf.Tlb.Lookup.{IsSound, Held, store-IsSound}

pub ways_pos : (huge : Huge) → 0 < ways huge
ways_pos small = omega arith
ways_pos large = omega arith
ways_pos segment = omega arith

module _ (t : Tlb) (w : World) (huge : Huge) (vpn ppn : ℕ) where
  abbrev home : ℕ
  home = set_of huge vpn

  abbrev aged : Tlb
  aged = age_ways (ways huge) 0 t huge home

  -- The arrays after the way `a` took the page.
  pub settle-some :
      (a : ℕ)
      → ((settle huge vpn ppn (t, w) (some a)).0.vpns_ ≡ store t.vpns_ huge (idx huge home a) vpn)
        × ((settle huge vpn ppn (t, w) (some a)).0.valids_
            ≡ store t.valids_ huge (idx huge home a) true)
  unfolding settle
  settle-some a =
      let k = age_ways_keeps (ways huge) 0 t huge home in
      (
        ap (λ f. store f huge (idx huge home a) vpn) k.0,
        ap (λ f. store f huge (idx huge home a) true) k.1,
      )

  pub settle_app : (a : ℕ) → (settle huge vpn ppn (t, w) (some a)).0.app_id ≡ t.app_id
  unfolding settle
  settle_app a = (age_ways_keeps (ways huge) 0 t huge home).2

  pub settle_world :
      (a : ℕ)
      → (settle huge vpn ppn (t, w) (some a)).1
        ≡ write_tlb t.app_id huge home a (tlb_entry huge vpn ppn) w
  unfolding settle write_tlb
  settle_world a =
      ap (λ app. write_tlb app huge home a (tlb_entry huge vpn ppn) w)
        (age_ways_keeps (ways huge) 0 t huge home).2

  settle-IsSound :
      (o : Option ℕ)
      → Found t huge home vpn 0 (ways huge) 0 o
      → IsSound t.vpns_ t.valids_
      → IsSound (settle huge vpn ppn (t, w) o).0.vpns_ (settle huge vpn ppn (t, w) o).0.valids_
  settle-IsSound none found s = unfold settle in s
  settle-IsSound (some a) (absent, below, keep, free) s =
      rw ((settle-some a).0, (settle-some a).1)
        (store-IsSound t.vpns_ t.valids_ huge home a vpn (set_of-lt huge vpn) below s
          (sym (set_of-mod huge vpn)) (λ j p. absent j (omega arith) p))

  settle-Held :
      (o : Option ℕ)
      → Found t huge home vpn 0 (ways huge) 0 o
      → Held
          (settle huge vpn ppn (t, w) o).0.vpns_
          (settle huge vpn ppn (t, w) o).0.valids_
          huge
          vpn
  settle-Held none (j, p, q, v, e) = unfold settle in rw (← set_of-mod huge vpn) (j, q, v, e)
  settle-Held (some a) (absent, below, keep, free) =
      rw ((settle-some a).0, (settle-some a).1, ← set_of-mod huge vpn)
        (a, below, rw (cell_refl huge home a), rw (cell_refl huge home a))

  settle-keeps :
      (o : Option ℕ) (huge' : Huge) (vpn' free_way : ℕ)
      → Found t huge home vpn 0 (ways huge) 0 o
      → free_way < ways huge
      → vlds t huge home free_way ≡ false
      → Held t.vpns_ t.valids_ huge' vpn'
      → Held
          (settle huge vpn ppn (t, w) o).0.vpns_
          (settle huge vpn ppn (t, w) o).0.valids_
          huge'
          vpn'
  settle-keeps none huge' vpn' k found hk fk held = unfold settle in held
  settle-keeps (some a) huge' vpn' k (absent, below, keep, free) hk fk (j, p, v, e) =
      rw ((settle-some a).0, (settle-some a).1)
        (elim (Bool-cases (cell huge home a huge' (vpn' % sets huge') j)) [
          | inl c ↦
              let taken = cell_value t.valids_ huge home a huge' (vpn' % sets huge') j c in
              absurd (false≢true (sym (free k (omega arith) hk fk) ∙ taken ∙ v))
          | inr c ↦ (j, p, rw c v, rw c e)
        ])

  victim : Found t huge home vpn 0 (ways huge) 0 (victim_from (ways huge) 0 0 t huge home vpn)
  victim =
      victim_from-Found t huge home vpn (ways huge) 0 (ways huge) 0 (omega arith) (ways_pos huge)

  -- In a sound mirror, each valid cell in the set of its page and no page in two ways of a set,
  -- adding a page leaves the mirror sound.
  pub add-IsSound :
      IsSound t.vpns_ t.valids_
      → IsSound (add huge vpn ppn (t, w)).0.vpns_ (add huge vpn ppn (t, w)).0.valids_
  unfolding add
  add-IsSound = settle-IsSound (victim_from (ways huge) 0 0 t huge home vpn) victim

  -- After a page was added it is held, whether it was held before or not.
  pub add-Held : Held (add huge vpn ppn (t, w)).0.vpns_ (add huge vpn ppn (t, w)).0.valids_ huge vpn
  unfolding add
  add-Held = settle-Held (victim_from (ways huge) 0 0 t huge home vpn) victim

  -- While some way of the page's set is free, adding the page evicts nothing: every page that was
  -- held, in this set or another, is held afterwards.
  pub add_keeps :
      (huge' : Huge) (vpn' free_way : ℕ)
      → free_way < ways huge
      → vlds t huge (vpn % sets huge) free_way ≡ false
      → Held t.vpns_ t.valids_ huge' vpn'
      → Held (add huge vpn ppn (t, w)).0.vpns_ (add huge vpn ppn (t, w)).0.valids_ huge' vpn'
  unfolding add
  add_keeps huge' vpn' k hk fk held =
      settle-keeps (victim_from (ways huge) 0 0 t huge home vpn) huge' vpn' k victim hk
        (rw set_of-mod fk) held
