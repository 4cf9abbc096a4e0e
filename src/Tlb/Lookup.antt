-- ===== src/Tlb/Lookup.antt =====
-- Which pages the daemon's TLB mirror holds after `CyTLB::add`, `remove` and `init`
-- (sw/daemon/aos_fio.hpp).
use mathlib.Core.Path.{subst}
use amorphos_fsrf.Common.{
  ◌∙◌, ℕ, ◌%◌, ◌<◌, ◌≡◌, ◌≢◌, inl, inr, Bool, true, false, arith, Bool-cases, sym,
}
use amorphos_fsrf.Tlb.{Huge, sets, ways, idx, store}
use amorphos_fsrf.Tlb.Ways.{cell, cell_eq}

abbrev pub Pages : Type 0
Pages = Huge → ℕ → ℕ

abbrev pub Valids : Type 0
Valids = Huge → ℕ → Bool

-- Each valid cell lies in the set of its page, and a page is in one way at most.
pub record IsSound (pages : Pages) (valids : Valids) : Type 0 where
  pub placed :
      (huge : Huge) (i j : ℕ)
      → i < sets huge
      → j < ways huge
      → valids huge (idx huge i j) ≡ true
      → pages huge (idx huge i j) % sets huge ≡ i
  pub unique :
      (huge : Huge) (i j k : ℕ)
      → i < sets huge
      → j < ways huge
      → k < ways huge
      → valids huge (idx huge i j) ≡ true
      → valids huge (idx huge i k) ≡ true
      → pages huge (idx huge i j) ≡ pages huge (idx huge i k)
      → j ≡ k

-- Some way of the page's set holds it.
abbrev pub Held : Pages → Valids → Huge → ℕ → Type 0
Held pages valids huge vpn =
    (j : ℕ) × (j < ways huge)
    × (valids huge (idx huge (vpn % sets huge) j) ≡ true)
    × (pages huge (idx huge (vpn % sets huge) j) ≡ vpn)

module _ (pages : Pages) (valids : Valids) (huge : Huge) (i a vpn : ℕ) (hi : i < sets huge)
    (ha : a < ways huge) where
  -- No way of the set holds the page.
  abbrev pub Absent : Type 0
  Absent =
      (j : ℕ) → j < ways huge → valids huge (idx huge i j) ≡ true → pages huge (idx huge i j) ≢ vpn

  Absent-at :
      (huge' : Huge) (i' : ℕ)
      → huge ≡ huge'
      → i ≡ i'
      → Absent
      → (j : ℕ) → j < ways huge'
      → valids huge' (idx huge' i' j) ≡ true
      → pages huge' (idx huge' i' j) ≢ vpn
  Absent-at huge' i' eh ei absent =
      subst (λ h. (j : ℕ) → j < ways h → valids h (idx h i' j) ≡ true → pages h (idx h i' j) ≢ vpn)
        eh
        (subst
          (λ k.
            (j : ℕ)
            → j < ways huge
            → valids huge (idx huge k j) ≡ true
            → pages huge (idx huge k j) ≢ vpn)
          ei absent)

  pub store-IsSound :
      IsSound pages valids
      → vpn % sets huge ≡ i
      → Absent
      → IsSound (store pages huge (idx huge i a) vpn) (store valids huge (idx huge i a) true)
  store-IsSound s home absent = record {
    placed = λ h i' j p q v. elim (Bool-cases (cell huge i a h i' j)) [
      | inl e ↦ rw e (let c = cell_eq huge i a h i' j hi ha p q e in rw (← c.0, home) c.1)
      | inr e ↦ rw e (s.placed h i' j p q (rw e at v))
    ];
    unique = λ h i' j k p q r v w same_page. elim (Bool-cases (cell huge i a h i' j)) [
      | inl e ↦ elim (Bool-cases (cell huge i a h i' k)) [
        | inl f ↦
            let c = cell_eq huge i a h i' j hi ha p q e in
            let d = cell_eq huge i a h i' k hi ha p r f in sym c.2 ∙ d.2
        | inr f ↦
            let c = cell_eq huge i a h i' j hi ha p q e in
            absurd (Absent-at h i' c.0 c.1 absent k r (rw f at w) (sym (rw (e, f) at same_page)))
      ]
      | inr e ↦ elim (Bool-cases (cell huge i a h i' k)) [
        | inl f ↦
            let d = cell_eq huge i a h i' k hi ha p r f in
            absurd (Absent-at h i' d.0 d.1 absent j q (rw e at v) (rw (e, f) at same_page))
        | inr f ↦ s.unique h i' j k p q r (rw e at v) (rw f at w) (rw (e, f) at same_page)
      ]
    ];
  }

  pub clear-IsSound : IsSound pages valids → IsSound pages (store valids huge (idx huge i a) false)
  clear-IsSound s = record {
    placed = λ h i' j p q v. s.placed h i' j p q (ground arith);
    unique = λ h i' j k p q r v w. s.unique h i' j k p q r (ground arith) (ground arith);
  }
