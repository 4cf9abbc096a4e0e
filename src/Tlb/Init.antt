-- ===== src/Tlb/Init.antt =====
-- `CyTLB::init` (sw/daemon/aos_fio.hpp): every cell of the mirror is free and every register 0.
use amorphos_fsrf.Common.{
  ℕ, zero, suc, ◌+◌, ◌≤◌, ◌<◌, ◌≡◌, refl, ◌⊎◌, inl, inr, true, false, some, arith, Bool-cases, sym,
  ◌∙◌,
}
use mathlib.Core.Bool.{false≢true}
use amorphos_fsrf.Host.{World}
use amorphos_fsrf.Host.Registers.{sys_reg}
use amorphos_fsrf.Tlb.{
  Huge, small, large, segment, sets, ways, Tlb, vlds, init, init_way, init_ways, init_sets,
}
use amorphos_fsrf.Tlb.Ways.{cell, cell_refl, at_or_above}
use amorphos_fsrf.Tlb.Lookup.{IsSound}
use amorphos_fsrf.Tlb.Entries.{place}
use amorphos_fsrf.Tlb.Mirror.{write_tlb_reg, Mirrors}

abbrev pub Blank : Tlb × World → Huge → ℕ → ℕ → Type 0
Blank s huge i j =
    (vlds s.0 huge i j ≡ false) × (sys_reg s.1.trace (place s.0.app_id huge i j) ≡ some 0)

init_way_app :
    (huge : Huge) (i j : ℕ) (s : Tlb × World) → (init_way huge i j s).0.app_id ≡ s.0.app_id
unfolding init_way
init_way_app huge i j (t, w) = refl

init_ways_app :
    (n j : ℕ) (huge : Huge) (i : ℕ) (s : Tlb × World)
    → (init_ways n j huge i s).0.app_id ≡ s.0.app_id
unfolding init_ways
init_ways_app zero j huge i s = refl
init_ways_app (suc n) j huge i s =
    init_ways_app n (j + 1) huge i (init_way huge i j s) ∙ init_way_app huge i j s

init_sets_app :
    (n i : ℕ) (huge : Huge) (s : Tlb × World) → (init_sets n i huge s).0.app_id ≡ s.0.app_id
unfolding init_sets
init_sets_app zero i huge s = refl
init_sets_app (suc n) i huge s =
    init_sets_app n (i + 1) huge (init_ways (ways huge) 0 huge i s)
    ∙ init_ways_app (ways huge) 0 huge i s

module _ (huge' : Huge) (i' j' : ℕ) (p' : i' < sets huge') (q' : j' < ways huge') where
  way-Blank :
      (huge : Huge) (i j : ℕ) (s : Tlb × World)
      → s.0.app_id < 4
      → i < sets huge
      → j < ways huge
      → (cell huge i j huge' i' j' ≡ true) ⊎ Blank s huge' i' j'
      → Blank (init_way huge i j s) huge' i' j'
  unfolding init_way
  way-Blank huge i j (t, w) ha p q h =
      rw (write_tlb_reg t.app_id huge i j 0 w huge' i' j' ha p q p' q')
        (elim (Bool-cases (cell huge i j huge' i' j')) [
          | inl c ↦ rw c (refl, refl)
          | inr c ↦ rw c (elim h [ inl d ↦ absurd (false≢true (sym c ∙ d)) | inr b ↦ b ])
        ])

  ways_keep :
      (n j hi : ℕ) (huge : Huge) (i : ℕ) (s : Tlb × World)
      → s.0.app_id < 4
      → i < sets huge
      → j + n ≡ hi
      → hi ≤ ways huge
      → Blank s huge' i' j'
      → Blank (init_ways n j huge i s) huge' i' j'
  unfolding init_ways
  ways_keep zero j hi huge i s ha p e h b = b
  ways_keep (suc n) j hi huge i s ha p e h b =
      ways_keep n (j + 1) hi huge i (init_way huge i j s) (rw init_way_app ha) p (omega arith) h
        (way-Blank huge i j s ha p (omega arith) (inr b))

  ways_reach :
      (n j hi : ℕ) (s : Tlb × World)
      → s.0.app_id < 4
      → j + n ≡ hi
      → hi ≤ ways huge'
      → j ≤ j'
      → j' < hi
      → Blank (init_ways n j huge' i' s) huge' i' j'
  unfolding init_ways
  ways_reach zero j hi s ha e h lo up = absurd (omega arith)
  ways_reach (suc n) j hi s ha e h lo up = elim (at_or_above j j' lo) [
    | inl here ↦
        ways_keep n (j + 1) hi huge' i' (init_way huge' i' j s) (rw init_way_app ha) p'
          (omega arith) h
          (way-Blank huge' i' j s ha p' (omega arith) (inl (rw here (cell_refl huge' i' j'))))
    | inr above ↦
        ways_reach n (j + 1) hi (init_way huge' i' j s) (rw init_way_app ha) (omega arith) h above
          up
  ]

  sets_keep :
      (n i hi : ℕ) (huge : Huge) (s : Tlb × World)
      → s.0.app_id < 4
      → i + n ≡ hi
      → hi ≤ sets huge
      → Blank s huge' i' j'
      → Blank (init_sets n i huge s) huge' i' j'
  unfolding init_sets
  sets_keep zero i hi huge s ha e h b = b
  sets_keep (suc n) i hi huge s ha e h b =
      sets_keep n (i + 1) hi huge (init_ways (ways huge) 0 huge i s) (rw init_ways_app ha)
        (omega arith) h
        (ways_keep (ways huge) 0 (ways huge) huge i s ha (omega arith) (omega arith) (omega arith)
          b)

  sets_reach :
      (n i hi : ℕ) (s : Tlb × World)
      → s.0.app_id < 4
      → i + n ≡ hi
      → hi ≤ sets huge'
      → i ≤ i'
      → i' < hi
      → Blank (init_sets n i huge' s) huge' i' j'
  unfolding init_sets
  sets_reach zero i hi s ha e h lo up = absurd (omega arith)
  sets_reach (suc n) i hi s ha e h lo up = elim (at_or_above i i' lo) [
    | inl here ↦
        sets_keep n (i + 1) hi huge' (init_ways (ways huge') 0 huge' i s) (rw init_ways_app ha)
          (omega arith) h
          (rw here (
            ways_reach (ways huge') 0 (ways huge') s ha (omega arith) (omega arith) (omega arith)
              q'))
    | inr above ↦
        sets_reach n (i + 1) hi (init_ways (ways huge') 0 huge' i s) (rw init_ways_app ha)
          (omega arith) h above up
  ]

module _ (s : Tlb × World) (ha : s.0.app_id < 4) where
  abbrev after_small : Tlb × World
  after_small = init_sets (sets small) 0 small s

  abbrev after_large : Tlb × World
  after_large = init_sets (sets large) 0 large after_small

  after_small_app : after_small.0.app_id < 4
  after_small_app = rw (init_sets_app (sets small) 0 small s) ha

  after_large_app : after_large.0.app_id < 4
  after_large_app = rw (init_sets_app (sets large) 0 large after_small) after_small_app

  -- `init`, whatever the arrays and the registers of one of the four applications held before: each
  -- cell of each page size is free and its register holds 0.
  pub init-Blank : (huge : Huge) (i j : ℕ) → i < sets huge → j < ways huge → Blank (init s) huge i j
  unfolding init
  init-Blank small i j p q =
      sets_keep small i j p q (sets segment) 0 (sets segment) segment after_large after_large_app
        (omega arith) (omega arith)
        (sets_keep small i j p q (sets large) 0 (sets large) large after_small after_small_app
          (omega arith) (omega arith)
          (sets_reach small i j p q (sets small) 0 (sets small) s ha (omega arith) (omega arith)
            (omega arith) p))
  init-Blank large i j p q =
      sets_keep large i j p q (sets segment) 0 (sets segment) segment after_large after_large_app
        (omega arith) (omega arith)
        (sets_reach large i j p q (sets large) 0 (sets large) after_small after_small_app
          (omega arith) (omega arith) (omega arith) p)
  init-Blank segment i j p q =
      sets_reach segment i j p q (sets segment) 0 (sets segment) after_large after_large_app
        (omega arith) (omega arith) (omega arith) p

  init_app : (init s).0.app_id ≡ s.0.app_id
  unfolding init
  init_app =
      init_sets_app (sets segment) 0 segment after_large
      ∙ init_sets_app (sets large) 0 large after_small
      ∙ init_sets_app (sets small) 0 small s

  -- `init` of one of the four applications' mirrors, whatever the arrays and the registers held
  -- before, makes it sound, and the registers show it.
  pub init-Mirrors :
      Mirrors (init s).0 (init s).1.trace × IsSound (init s).0.vpns_ (init s).0.valids_
  init-Mirrors = (
    record {
      app = rw init_app ha;
      shows = λ huge i j p q. let b = init-Blank huge i j p q in rw b.0 b.1;
    },
    record {
      placed = λ huge i j p q v. absurd (false≢true (sym (init-Blank huge i j p q).0 ∙ v));
      unique = λ huge i j k p q r v. absurd (false≢true (sym (init-Blank huge i j p q).0 ∙ v));
    },
  )
