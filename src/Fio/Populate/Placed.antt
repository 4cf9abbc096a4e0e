-- ===== src/Fio/Populate/Placed.antt =====
-- The entries and the virtual pages of the device pages that `tlb_populate` of sw/daemon/aos_fio.hpp
-- leaves.
use amorphos_fsrf.Common.{
  ℕ, zero, suc, ◌+◌, ◌-◌, ◌^◌, ◌≤◌, ◌<◌, ◌≡◌, ◌≢◌, refl, sym, ◌∙◌, ap, Bool-cases, inl, inr, true,
  false, Option, some, arith, sub64, ◌==◌, ==_iff, ne→==, if◌then◌else◌,
}
use amorphos_fsrf.Fio.{Vme, update, entry_or_zero}
use amorphos_fsrf.Fio.Sync.Cells.{in_range}

-- The page is present, at a device page; its file, place and right stay.
abbrev pub placed : ℕ → Option Vme → Vme
placed ppn o = record (entry_or_zero o) { ppn = ppn; present = true }

-- `n` pages from `vpn` on are at the device pages from `ppn` on, and the other way round.
unfoldable pub enter_from : ℕ → ℕ → ℕ → (ℕ → Option Vme) → ℕ → Option Vme
enter_from zero vpn ppn vm = vm
enter_from (suc n) vpn ppn vm =
    enter_from n (vpn + 1) (ppn + 1) (update vm vpn (some (placed ppn (vm vpn))))

unfoldable pub own_from : ℕ → ℕ → ℕ → ℕ → (ℕ → ℕ) → ℕ → ℕ
own_from zero base vpn ppn ppo = ppo
own_from (suc n) base vpn ppn ppo =
    own_from n base (vpn + 1) (ppn + 1) (update ppo (sub64 ppn base) vpn)

-- The same cell by cell.
abbrev pub entered : ℕ → ℕ → ℕ → (ℕ → Option Vme) → ℕ → Option Vme
entered n vpn ppn vm v = if in_range n vpn v then some (placed (ppn + (v - vpn)) (vm v)) else vm v

abbrev pub owned : ℕ → ℕ → ℕ → (ℕ → ℕ) → ℕ → ℕ
owned n vpn start ppo p = if in_range n start p then vpn + (p - start) else ppo p

pub enter_from_cell :
    (n vpn ppn : ℕ) (vm : ℕ → Option Vme) (v : ℕ)
    → enter_from n vpn ppn vm v ≡ entered n vpn ppn vm v
unfolding enter_from
enter_from_cell zero vpn ppn vm v = ground arith
enter_from_cell (suc n) vpn ppn vm v =
    let vm' = update vm vpn (some (placed ppn (vm vpn))) in
    enter_from_cell n (vpn + 1) (ppn + 1) vm' v ∙ (elim (Bool-cases (vpn == v)) [
      | inl at ↦
          let here : vpn ≡ v = (==_iff vpn v).0 at in
          let first : ppn + (v - vpn) ≡ ppn = omega (arith, here) in
          let cell : some (placed ppn (vm vpn)) ≡ some (placed (ppn + (v - vpn)) (vm v)) =
            ap (λ w. some (placed ppn (vm w))) here
            ∙ ap (λ p. some (placed p (vm v))) (sym first) in
          ground (arith, at, here, cell)
      | inr away ↦
          let there : vpn ≢ v = λ q. ground (arith, away, q) in
          let same : vm' v ≡ vm v = rw (ne→== vpn v there) refl in
          let next : (vpn < v) → ppn + 1 + (v - (vpn + 1)) ≡ ppn + (v - vpn) =
            λ q. omega (arith, q) in
          elim (Bool-cases (in_range n (vpn + 1) v)) [
            | inl inside ↦
                let below : vpn < v = ground (arith, inside) in
                let both : in_range (suc n) vpn v ≡ true = ground (arith, inside) in
                rw (inside, both)
                  (ap (λ o. some (placed (ppn + 1 + (v - (vpn + 1))) o)) same
                    ∙ ap (λ p. some (placed p (vm v))) (next below))
            | inr outside ↦
                let both : in_range (suc n) vpn v ≡ false = ground (arith, outside, there) in
                rw (outside, both) same
          ]
    ])

pub own_from_cell :
    (n base vpn ppn : ℕ) (ppo : ℕ → ℕ) (p : ℕ)
    → base ≤ ppn
    → ppn + n < 2 ^ 64
    → own_from n base vpn ppn ppo p ≡ owned n vpn (ppn - base) ppo p
unfolding own_from
own_from_cell zero base vpn ppn ppo p low fits = ground arith
own_from_cell (suc n) base vpn ppn ppo p low fits =
    let place : sub64 ppn base ≡ ppn - base = omega (arith, low, fits) in
    let next : ppn + 1 - base ≡ ppn - base + 1 = omega (arith, low) in
    own_from_cell n base (vpn + 1) (ppn + 1) (update ppo (sub64 ppn base) vpn) p
      (omega (arith, low)) (omega (arith, fits))
    ∙ rw (place, next) (ground arith)
