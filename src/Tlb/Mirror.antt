-- ===== src/Tlb/Mirror.antt =====
-- The hardware TLB against the daemon's mirror (`CyTLB` of sw/daemon/aos_fio.hpp): what the
-- registers hold after `init`, `add` and `remove`.
use amorphos_fsrf.Common.{
  ◌*◌, ◌^◌, ◌⊎◌, ℕ, zero, suc, ◌+◌, ◌≤◌, ◌<◌, ◌≡◌, ◌≢◌, refl, inl, inr, Bool, true, false, ◌&&◌,
  Option, none, some, arith, ◌==◌, Bool-cases, if◌then◌else◌, sym, ap, ◌∙◌,
}
use mathlib.Core.Bool.{false≢true}
use amorphos_fsrf.Host.{World, Trace, log, poked, sys_bar}
use amorphos_fsrf.Host.Registers.{sys_reg}
use amorphos_fsrf.Fpga.Address.{write_sys_reg_world}
use amorphos_fsrf.Tlb.{
  Huge, sets, ways, Tlb, idx, vpns, vlds, set_of, victim_from, store, settle, add, remove_from,
  remove, write_tlb, tlb_entry, tlb_reg,
}
use amorphos_fsrf.Tlb.Ways.{
  cell, cell_refl, cell_eq, cell_huge, set_of-lt, Found, victim_from-Found,
}
use amorphos_fsrf.Tlb.Add.{ways_pos, settle-some, settle_app, settle_world}
use amorphos_fsrf.Tlb.Entries.{entry_sum, vpn_limit, ppn_shift, place, place_injective, reg_aligned}

write_tlb_world :
    (app : ℕ) (huge : Huge) (i j entry : ℕ) (w : World)
    → i < sets huge
    → j < ways huge
    → write_tlb app huge i j entry w ≡ log (poked sys_bar (place app huge i j) entry) w
unfolding write_tlb
write_tlb_world app huge i j entry w p q =
    write_sys_reg_world (app + 4) (tlb_reg huge i j) entry w (reg_aligned huge i j p q).0

place_same :
    (app : ℕ) (huge : Huge) (i j : ℕ) (huge' : Huge) (i' j' : ℕ)
    → i < sets huge
    → j < ways huge
    → i' < sets huge'
    → j' < ways huge'
    → cell huge i j huge' i' j' ≡ true
    → place app huge i j ≡ place app huge' i' j'
place_same app huge i j huge' i' j' p q r s c =
    let e = cell_eq huge i j huge' i' j' p q r s c in cc (e.0, e.1, e.2)

cell_of_eq :
    (huge : Huge) (i j : ℕ) (huge' : Huge) (i' j' : ℕ)
    → huge ≡ huge'
    → i ≡ i'
    → j ≡ j'
    → cell huge i j huge' i' j' ≡ true
cell_of_eq huge i j huge' i' j' a b c = rw (a, b, c) (cell_refl huge' i' j')

place_other :
    (app : ℕ) (huge : Huge) (i j : ℕ) (huge' : Huge) (i' j' : ℕ)
    → app < 4
    → i < sets huge
    → j < ways huge
    → i' < sets huge'
    → j' < ways huge'
    → cell huge i j huge' i' j' ≡ false
    → place app huge i j ≢ place app huge' i' j'
place_other app huge i j huge' i' j' ha p q r s c e =
    let x = place_injective app huge i j app huge' i' j' ha ha p q r s e in
    false≢true (sym c ∙ cell_of_eq huge i j huge' i' j' x.1 x.2 x.3)

-- A cell's register after another cell, or this one, was written.
pub write_tlb_reg :
    (app : ℕ) (huge : Huge) (i j entry : ℕ) (w : World) (huge' : Huge) (i' j' : ℕ)
    → app < 4
    → i < sets huge
    → j < ways huge
    → i' < sets huge'
    → j' < ways huge'
    → sys_reg (write_tlb app huge i j entry w).trace (place app huge' i' j')
      ≡ (if cell huge i j huge' i' j' then some entry else sys_reg w.trace (place app huge' i' j'))
unfolding sys_reg
write_tlb_reg app huge i j entry w huge' i' j' ha p q r s =
    rw (write_tlb_world app huge i j entry w p q) (elim (Bool-cases (cell huge i j huge' i' j')) [
      | inl c ↦ rw c (ground (arith, place_same app huge i j huge' i' j' p q r s c))
      | inr c ↦ rw c (ground (arith, place_other app huge i j huge' i' j' ha p q r s c))
    ])

-- A valid cell's register holds an entry for its page, a free cell's register holds 0.
abbrev pub Shows : Bool → Huge → ℕ → Option ℕ → Type 0
Shows true huge vpn r = (ppn : ℕ) × (r ≡ some (tlb_entry huge vpn ppn))
Shows false huge vpn r = r ≡ some 0

pub record Mirrors (t : Tlb) (trace : Trace) : Type 0 where
  pub app : t.app_id < 4
  pub shows :
      (huge : Huge) (i j : ℕ)
      → i < sets huge
      → j < ways huge
      → Shows (vlds t huge i j) huge (vpns t huge i j) (sys_reg trace (place t.app_id huge i j))

module _ (t : Tlb) (w : World) (huge : Huge) (i j : ℕ) (p : i < sets huge) (q : j < ways huge) where
  Mirrors-fill :
      (t' : Tlb) (vpn ppn : ℕ)
      → t'.app_id ≡ t.app_id
      → t'.vpns_ ≡ store t.vpns_ huge (idx huge i j) vpn
      → t'.valids_ ≡ store t.valids_ huge (idx huge i j) true
      → Mirrors t w.trace
      → Mirrors t' (write_tlb t.app_id huge i j (tlb_entry huge vpn ppn) w).trace
  Mirrors-fill t' vpn ppn ea ev eb m = record {
    app = rw ea m.app;
    shows = λ huge' i' j' r s.
        rw
          (
            ea,
            ev,
            eb,
            write_tlb_reg t.app_id huge i j (tlb_entry huge vpn ppn) w huge' i' j' m.app p q r s,
          )
          (elim (Bool-cases (cell huge i j huge' i' j')) [
            | inl c ↦
                rw c (ppn, ap (λ h. some (tlb_entry h vpn ppn)) (cell_huge huge i j huge' i' j' c))
            | inr c ↦ rw c (m.shows huge' i' j' r s)
          ]);
  }

  Mirrors-clear :
      (t' : Tlb)
      → t'.app_id ≡ t.app_id
      → t'.vpns_ ≡ t.vpns_
      → t'.valids_ ≡ store t.valids_ huge (idx huge i j) false
      → Mirrors t w.trace
      → Mirrors t' (write_tlb t.app_id huge i j 0 w).trace
  Mirrors-clear t' ea ev eb m = record {
    app = rw ea m.app;
    shows = λ huge' i' j' r s.
        rw (ea, ev, eb, write_tlb_reg t.app_id huge i j 0 w huge' i' j' m.app p q r s)
          (elim (Bool-cases (cell huge i j huge' i' j')) [
            | inl c ↦ rw c refl
            | inr c ↦ rw c (m.shows huge' i' j' r s)
          ]);
  }

module _ (t : Tlb) (w : World) (huge : Huge) (vpn : ℕ) where
  settle-Mirrors :
      (ppn : ℕ) (o : Option ℕ)
      → Found t huge (set_of huge vpn) vpn 0 (ways huge) 0 o
      → Mirrors t w.trace
      → Mirrors (settle huge vpn ppn (t, w) o).0 (settle huge vpn ppn (t, w) o).1.trace
  settle-Mirrors ppn none found m = unfold settle in m
  settle-Mirrors ppn (some a) (absent, below, keep, free) m =
      let i = set_of huge vpn in
      let e = settle-some t w huge vpn ppn a in
      rw (settle_world t w huge vpn ppn a) (
        Mirrors-fill t w huge i a (set_of-lt huge vpn) below (settle huge vpn ppn (t, w) (some a)).0
          vpn ppn (settle_app t w huge vpn ppn a) e.0 e.1 m)

  remove_from-Mirrors :
      (n lo hi : ℕ)
      → lo + n ≡ hi
      → hi ≤ ways huge
      → Mirrors t w.trace
      → Mirrors
          (remove_from n lo huge (set_of huge vpn) vpn (t, w)).0
          (remove_from n lo huge (set_of huge vpn) vpn (t, w)).1.trace
  unfolding remove_from
  remove_from-Mirrors zero lo hi e h m = m
  remove_from-Mirrors (suc n) lo hi e h m =
      let i = set_of huge vpn in
      elim (Bool-cases (vlds t huge i lo && vpns t huge i lo == vpn)) [
        | inl here ↦ rw here (
            Mirrors-clear t w huge i lo (set_of-lt huge vpn) (omega arith)
              (record t { valids_ = store t.valids_ huge (idx huge i lo) false }) refl refl refl m)
        | inr miss ↦ rw miss (remove_from-Mirrors n (lo + 1) hi (omega arith) h m)
      ]

  -- What became of the page: a way held it, and nothing was done; or no way did, and a way of its
  -- set, which is valid for it now, has the entry of the page in its register, every other register
  -- being as before.
  pub Added : ℕ → Tlb → World → Type 0
  Added ppn t' w' =
      (j : ℕ) × (j < ways huge)
      × (((vlds t huge (set_of huge vpn) j ≡ true)
            × (vpns t huge (set_of huge vpn) j ≡ vpn)
            × (t' ≡ t)
            × (w' ≡ w))
          ⊎ (((k : ℕ)
                → k < ways huge
                → vlds t huge (set_of huge vpn) k ≡ true
                → vpns t huge (set_of huge vpn) k ≢ vpn)
              × (vlds t' huge (set_of huge vpn) j ≡ true)
              × (vpns t' huge (set_of huge vpn) j ≡ vpn)
              × (sys_reg w'.trace (place t.app_id huge (set_of huge vpn) j)
                  ≡ some (vpn * 2 ^ (ppn_shift huge + 24) + ppn * 2 ^ ppn_shift huge + 7))
              × ((huge' : Huge) (i' j' : ℕ)
                  → i' < sets huge'
                  → j' < ways huge'
                  → cell huge (set_of huge vpn) j huge' i' j' ≡ false
                  → sys_reg w'.trace (place t.app_id huge' i' j')
                    ≡ sys_reg w.trace (place t.app_id huge' i' j'))))

  settle-Added :
      (ppn : ℕ) (o : Option ℕ)
      → Found t huge (set_of huge vpn) vpn 0 (ways huge) 0 o
      → t.app_id < 4
      → vpn < vpn_limit huge
      → ppn < 2 ^ 24
      → Added ppn (settle huge vpn ppn (t, w) o).0 (settle huge vpn ppn (t, w) o).1
  unfolding Added
  settle-Added ppn none (j, low, high, valid, held) app hv hp =
      (j, high, inl (valid, held, unfold settle in refl, unfold settle in refl))
  settle-Added ppn (some a) (absent, below, keep, free) app hv hp =
      let i = set_of huge vpn in
      let s = set_of-lt huge vpn in
      let e = settle-some t w huge vpn ppn a in
      (
        a,
        below,
        inr (
          λ k high. absent k (omega arith) high,
          rw (e.1, vlds) (rw (cell_refl huge i a) refl),
          rw (e.0, vpns) (rw (cell_refl huge i a) refl),
          rw
              (
                settle_world t w huge vpn ppn a,
                write_tlb_reg t.app_id huge i a (tlb_entry huge vpn ppn) w huge i a app s below s
                    below,
                cell_refl huge i a,
              )
              (ap some (entry_sum huge vpn ppn hv hp)),
          λ huge' i' j' r q apart.
              rw
                (
                  settle_world t w huge vpn ppn a,
                  write_tlb_reg t.app_id huge i a (tlb_entry huge vpn ppn) w huge' i' j' app s below
                      r q,
                  apart,
                )
                refl,
        ),
      )

  -- If the registers show the mirror, and the page numbers fit their fields, the registers show the
  -- mirror after a page was added. A way that held the page keeps its entry, and nothing is done;
  -- otherwise a way of the page's set is valid for it then, its register has the page's number, the
  -- device page's number and the three low bits in their places, and no other register changed.
  pub add-Mirrors :
      (ppn : ℕ)
      → vpn < vpn_limit huge
      → ppn < 2 ^ 24
      → Mirrors t w.trace
      → Mirrors (add huge vpn ppn (t, w)).0 (add huge vpn ppn (t, w)).1.trace
        × Added ppn (add huge vpn ppn (t, w)).0 (add huge vpn ppn (t, w)).1
  unfolding add
  add-Mirrors ppn hv hp m =
      let o = victim_from (ways huge) 0 0 t huge (set_of huge vpn) vpn in
      let found =
        victim_from-Found t huge (set_of huge vpn) vpn (ways huge) 0 (ways huge) 0 (omega arith)
          (ways_pos huge) in
      (settle-Mirrors ppn o found m, settle-Added ppn o found m.app hv hp)

  -- If the registers show the mirror, they show it after a page was removed.
  pub remove-Mirrors :
      Mirrors t w.trace → Mirrors (remove huge vpn (t, w)).0 (remove huge vpn (t, w)).1.trace
  unfolding remove
  remove-Mirrors = remove_from-Mirrors (ways huge) 0 (ways huge) (omega arith) (omega arith)
