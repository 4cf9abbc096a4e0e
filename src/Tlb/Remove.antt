-- ===== src/Tlb/Remove.antt =====
-- `CyTLB::remove` (sw/daemon/aos_fio.hpp): which pages are held afterwards.
use mathlib.Core.Bool.{false≢true}
use amorphos_fsrf.Common.{
  ℕ, zero, suc, ◌+◌, ◌%◌, ◌≤◌, ◌<◌, ◌≡◌, ◌≢◌, refl, ◌⊎◌, inl, inr, true, false, ◌&&◌, arith, ◌==◌,
  Bool-cases, sym, ap, ◌∙◌,
}
use amorphos_fsrf.Host.{World}
use amorphos_fsrf.Tlb.{Huge, sets, ways, Tlb, idx, vpns, vlds, set_of, store, remove_from, remove}
use amorphos_fsrf.Tlb.Ways.{
  cell, cell_refl, cell_value, cell_huge, set_of-mod, set_of-lt, at_or_above,
}
use amorphos_fsrf.Tlb.Lookup.{IsSound, Held, clear-IsSound}

module _ (t : Tlb) (w : World) (huge : Huge) (vpn : ℕ) where
  -- The loop from way `lo` on: no way holds the page and nothing changes, or one does and is
  -- cleared.
  abbrev pub Cleared : ℕ → ℕ → ℕ → Tlb → Type 0
  Cleared i lo hi t' =
      (((j : ℕ) → lo ≤ j → j < hi → vlds t huge i j ≡ true → vpns t huge i j ≢ vpn) × (t' ≡ t))
      ⊎ ((j : ℕ) × (j < hi)
          × (vlds t huge i j ≡ true)
          × (vpns t huge i j ≡ vpn)
          × (t' ≡ record t { valids_ = store t.valids_ huge (idx huge i j) false }))

  pub remove_from-Cleared :
      (n i lo hi : ℕ) → lo + n ≡ hi → Cleared i lo hi (remove_from n lo huge i vpn (t, w)).0
  unfolding remove_from
  remove_from-Cleared zero i lo hi e = inl (λ j p q. absurd (omega arith), refl)
  remove_from-Cleared (suc n) i lo hi e =
      elim (Bool-cases (vlds t huge i lo && vpns t huge i lo == vpn)) [
        | inl here ↦ rw here (inr (lo, omega arith, ground arith, ground arith, refl))
        | inr miss ↦ rw miss (later (remove_from-Cleared n i (lo + 1) hi (omega arith)) miss)
      ]
    where
      later :
          Cleared i (lo + 1) hi (remove_from n (lo + 1) huge i vpn (t, w)).0
          → (vlds t huge i lo && vpns t huge i lo == vpn) ≡ false
          → Cleared i lo hi (remove_from n (lo + 1) huge i vpn (t, w)).0
      later (inl (absent, e)) miss = inl (
        λ j p q v. elim (at_or_above lo j p) [
          | inl same_way ↦ λ held. ground arith
          | inr above ↦ absent j above q v
        ],
        e,
      )
      later (inr c) miss = inr c

  abbrev home : ℕ
  home = set_of huge vpn

  cleared : Cleared home 0 (ways huge) (remove huge vpn (t, w)).0
  cleared = unfold remove in remove_from-Cleared (ways huge) home 0 (ways huge) (omega arith)

  Cleared-IsSound :
      (t' : Tlb)
      → Cleared home 0 (ways huge) t'
      → IsSound t.vpns_ t.valids_
      → IsSound t'.vpns_ t'.valids_
  Cleared-IsSound t' (inl (absent, e)) s = rw e s
  Cleared-IsSound t' (inr (j, p, v, q, e)) s =
      rw e (clear-IsSound t.vpns_ t.valids_ huge home j vpn (set_of-lt huge vpn) p s)

  Cleared-not_Held :
      (t' : Tlb)
      → Cleared home 0 (ways huge) t'
      → IsSound t.vpns_ t.valids_
      → ¬ Held t'.vpns_ t'.valids_ huge vpn
  Cleared-not_Held t' (inl (absent, e)) s held = gone (rw (e, ← set_of-mod huge vpn) at held)
    where
      gone :
          ((j : ℕ) × (j < ways huge)
            × (t.valids_ huge (idx huge home j) ≡ true)
            × (t.vpns_ huge (idx huge home j) ≡ vpn))
          → ⊥
      gone (j, p, v, q) = absent j (omega arith) p v q
  Cleared-not_Held t' (inr (j, p, v, q, e)) s held = gone (rw (e, ← set_of-mod huge vpn) at held)
    where
      gone :
          ((k : ℕ) × (k < ways huge)
            × (store t.valids_ huge (idx huge home j) false huge (idx huge home k) ≡ true)
            × (t.vpns_ huge (idx huge home k) ≡ vpn))
          → ⊥
      gone (k, r, u, x) = elim (Bool-cases (cell huge home j huge home k)) [
        | inl c ↦ false≢true (rw c at u)
        | inr c ↦
            let e = s.unique huge home j k (set_of-lt huge vpn) p r v (rw c at u) (q ∙ sym x) in
            false≢true
              (sym c ∙ ap (λ a. cell huge home j huge home a) (sym e) ∙ cell_refl huge home j)
      ]

  Cleared-keeps :
      (t' : Tlb) (huge' : Huge) (vpn' : ℕ)
      → Cleared home 0 (ways huge) t'
      → (huge ≡ huge' → vpn' ≢ vpn)
      → Held t.vpns_ t.valids_ huge' vpn'
      → Held t'.vpns_ t'.valids_ huge' vpn'
  Cleared-keeps t' huge' vpn' (inl (absent, e)) other held = rw e held
  Cleared-keeps t' huge' vpn' (inr (j, p, v, q, e)) other (k, r, u, x) =
      rw e (elim (Bool-cases (cell huge home j huge' (vpn' % sets huge') k)) [
        | inl c ↦ absurd (
            other (cell_huge huge home j huge' (vpn' % sets huge') k c)
              (sym x ∙ sym (cell_value t.vpns_ huge home j huge' (vpn' % sets huge') k c) ∙ q))
        | inr c ↦ (k, r, rw c u, x)
      ])

  -- Removing a page from a sound mirror leaves it sound.
  pub remove-IsSound :
      IsSound t.vpns_ t.valids_
      → IsSound (remove huge vpn (t, w)).0.vpns_ (remove huge vpn (t, w)).0.valids_
  remove-IsSound = Cleared-IsSound (remove huge vpn (t, w)).0 cleared

  -- After a page was removed from a sound mirror, no way of its set holds it.
  pub remove-not_Held :
      IsSound t.vpns_ t.valids_
      → ¬ Held (remove huge vpn (t, w)).0.vpns_ (remove huge vpn (t, w)).0.valids_ huge vpn
  remove-not_Held = Cleared-not_Held (remove huge vpn (t, w)).0 cleared

  -- Removing a page loses no other: a page of another size, or another page of the same size,
  -- that was held is held afterwards.
  pub remove_keeps :
      (huge' : Huge) (vpn' : ℕ)
      → (huge ≡ huge' → vpn' ≢ vpn)
      → Held t.vpns_ t.valids_ huge' vpn'
      → Held (remove huge vpn (t, w)).0.vpns_ (remove huge vpn (t, w)).0.valids_ huge' vpn'
  remove_keeps huge' vpn' = Cleared-keeps (remove huge vpn (t, w)).0 huge' vpn' cleared
