-- ===== src/Fio/Sync/Wiped.antt =====
-- The words of the TLB's table after `msync` of sw/daemon/aos_fio.hpp has invalidated present pages.
use mathlib.Core.Path.{subst}
use amorphos_fsrf.Common.{
  ℕ, zero, suc, ◌+◌, ◌/◌, ◌%◌, ◌≤◌, ◌<◌, ◌≡◌, refl, Bool, Bool-cases, inl, inr, true, ◌&&◌, Option,
  none, some, arith, ◌==◌, ==_refl, ==_iff,
}
use amorphos_fsrf.Host.Memory.{Page, set_word}
use amorphos_fsrf.Fio.{Vme}
use amorphos_fsrf.Fio.Sync.Address.{tlb_place}
use amorphos_fsrf.Fio.Sync.Clearing.{wipe_page, wipe_from}

-- The word of a page in an application's table.
abbrev pub table_entry : ℕ → ℕ → (ℕ → Page) → ℕ
table_entry app vpn device = device (tlb_place app vpn / 4096) (tlb_place app vpn % 4096 / 8)

set_word_here : (a v : ℕ) (d : ℕ → Page) → set_word a v d (a / 4096) (a % 4096 / 8) ≡ v
unfolding set_word
set_word_here a v d = rw (==_refl (a / 4096), ==_refl (a % 4096 / 8)) refl

set_word_zero : (a : ℕ) (d : ℕ → Page) (p i : ℕ) → d p i ≡ 0 → set_word a 0 d p i ≡ 0
unfolding set_word
set_word_zero a d p i was = elim (Bool-cases (p == a / 4096)) [
  | inr other ↦ rw other was
  | inl page ↦ elim (Bool-cases (i == a % 4096 / 8)) [
    | inl word ↦ rw (page, word) refl
    | inr other ↦ rw (page, other) was
  ]
]

wipe_page_zero :
    (invalidate : Bool) (app vpn : ℕ) (o : Option Vme) (d : ℕ → Page) (p i : ℕ)
    → d p i ≡ 0
    → wipe_page invalidate app vpn o d p i ≡ 0
unfolding wipe_page
wipe_page_zero invalidate app vpn none d p i was = was
wipe_page_zero invalidate app vpn (some e) d p i was = elim (Bool-cases (invalidate && e.present)) [
  | inl clears ↦ rw clears (set_word_zero (tlb_place app vpn) d p i was)
  | inr keeps ↦ rw keeps was
]

wipe_from_zero :
    (invalidate : Bool) (app : ℕ) (old : ℕ → Option Vme) (n vpn : ℕ) (d : ℕ → Page) (p i : ℕ)
    → d p i ≡ 0
    → wipe_from invalidate app old n vpn d p i ≡ 0
unfolding wipe_from
wipe_from_zero invalidate app old zero vpn d p i was = was
wipe_from_zero invalidate app old (suc n) vpn d p i was =
    wipe_from_zero invalidate app old n (vpn + 1) (wipe_page invalidate app vpn (old vpn) d) p i
      (wipe_page_zero invalidate app vpn (old vpn) d p i was)

wipe_page_entry :
    (app vpn : ℕ) (o : Option Vme) (e : Vme) (d : ℕ → Page)
    → o ≡ some e
    → e.present ≡ true
    → table_entry app vpn (wipe_page true app vpn o d) ≡ 0
unfolding wipe_page
wipe_page_entry app vpn o e d found present =
    rw (found, wipe_page) (rw present (set_word_here (tlb_place app vpn) 0 d))

-- The words of the present pages of the range are 0.
pub wipe_from_entry :
    (app : ℕ) (old : ℕ → Option Vme) (n vpn : ℕ) (d : ℕ → Page) (v : ℕ) (e : Vme)
    → vpn ≤ v
    → v < vpn + n
    → old v ≡ some e
    → e.present ≡ true
    → table_entry app v (wipe_from true app old n vpn d) ≡ 0
unfolding wipe_from
wipe_from_entry app old zero vpn d v e low high found present = absurd (omega arith)
wipe_from_entry app old (suc n) vpn d v e low high found present = elim (Bool-cases (v == vpn)) [
  | inl here ↦
      let same : v ≡ vpn = (==_iff v vpn).0 here in
      wipe_from_zero true app old n (vpn + 1) (wipe_page true app vpn (old vpn) d)
        (tlb_place app v / 4096) (tlb_place app v % 4096 / 8)
        (subst (λ w. table_entry app v (wipe_page true app w (old w) d) ≡ 0) same
          (wipe_page_entry app v (old v) e d found present))
  | inr other ↦
      wipe_from_entry app old n (vpn + 1) (wipe_page true app vpn (old vpn) d) v e
        (ground (arith, other, low)) (omega (arith, high)) found present
]
