-- ===== src/Fio/Sync/Cells.antt =====
-- The entries that `msync` of sw/daemon/aos_fio.hpp leaves, cell by cell.
use amorphos_fsrf.Common.{
  ℕ, zero, suc, ◌+◌, ◌≤◌, ◌≡◌, ◌≢◌, refl, sym, ◌∙◌, ap, Bool, Bool-cases, inl, inr, true, false,
  ◌&&◌, Option, none, some, arith, leb, ltb, ◌==◌, ==_iff, ne→==, if◌then◌else◌, fun_ext,
}
use amorphos_fsrf.Fio.{Vme}
use amorphos_fsrf.Fio.Sync.Clearing.{clear_page, clear_from}

-- With invalidation a present page is no longer present; its file, place and right stay.
unfoldable pub clear_entry : Bool → Option Vme → Option Vme
clear_entry invalidate none = none
clear_entry invalidate (some e) =
    if invalidate && e.present then some (record e { ppn = 0; present = false }) else some e

abbrev pub in_range : ℕ → ℕ → ℕ → Bool
in_range n vpn v = leb vpn v && ltb v (vpn + n)

-- In the range of `n` pages from `vpn` on.
abbrev pub cleared : Bool → ℕ → ℕ → (ℕ → Option Vme) → ℕ → Option Vme
cleared invalidate n vpn vm v = if in_range n vpn v then clear_entry invalidate (vm v) else vm v

clear_page_here :
    (invalidate : Bool) (vpn v : ℕ) (o : Option Vme) (vm : ℕ → Option Vme)
    → (vpn == v) ≡ true
    → vm v ≡ o
    → clear_page invalidate vpn o vm v ≡ clear_entry invalidate o
unfolding clear_page clear_entry
clear_page_here invalidate vpn v none vm at same = same
clear_page_here invalidate vpn v (some e) vm at same = elim (Bool-cases (invalidate && e.present)) [
  | inl clears ↦ rw (clears, at) refl
  | inr keeps ↦ rw keeps same
]

pub clear_page_there :
    (invalidate : Bool) (vpn : ℕ) (o : Option Vme) (vm : ℕ → Option Vme) (v : ℕ)
    → vpn ≢ v
    → clear_page invalidate vpn o vm v ≡ vm v
unfolding clear_page
clear_page_there invalidate vpn none vm v other = refl
clear_page_there invalidate vpn (some e) vm v other = elim (Bool-cases (invalidate && e.present)) [
  | inl clears ↦ rw (clears, ne→== vpn v other) refl
  | inr keeps ↦ rw keeps refl
]

module _ (invalidate : Bool) (old : ℕ → Option Vme) where
  clear_from_cell :
      (n vpn : ℕ) (vm : ℕ → Option Vme) (v : ℕ)
      → ((w : ℕ) → vpn ≤ w → vm w ≡ old w)
      → clear_from invalidate old n vpn vm v
        ≡ (if in_range n vpn v then clear_entry invalidate (old v) else vm v)
  unfolding clear_from
  clear_from_cell zero vpn vm v same = ground arith
  clear_from_cell (suc n) vpn vm v same =
      let vm' = clear_page invalidate vpn (old vpn) vm in
      let later = clear_from_cell n (vpn + 1) vm' v (λ w beyond.
        clear_page_there invalidate vpn (old vpn) vm w (λ q. omega (arith, q, beyond))
        ∙ same w (omega (arith, beyond))) in
      later ∙ elim (Bool-cases (vpn == v)) [
        | inl at ↦
            let here : vpn ≡ v = (==_iff vpn v).0 at in
            let cell' : vm' v ≡ clear_entry invalidate (old v) =
              clear_page_here invalidate vpn v (old vpn) vm at
                (same v (omega (arith, here)) ∙ ap old (sym here))
              ∙ ap (λ w. clear_entry invalidate (old w)) here in
            ground (arith, here, cell')
        | inr away ↦
            let there : vpn ≢ v = λ q. ground (arith, away, q) in
            ground (arith, there, clear_page_there invalidate vpn (old vpn) vm v there)
      ]

pub clear_from-cleared :
    (invalidate : Bool) (n vpn : ℕ) (vm : ℕ → Option Vme)
    → clear_from invalidate vm n vpn vm ≡ cleared invalidate n vpn vm
clear_from-cleared invalidate n vpn vm =
    fun_ext λ v. clear_from_cell invalidate vm n vpn vm v (λ w beyond. refl)
