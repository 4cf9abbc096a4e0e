-- ===== src/Tlb/Ways.antt =====
-- The cells of the TLB arrays, and the choice of a way (`idx` and the loop of `CyTLB::add` in
-- sw/daemon/aos_fio.hpp).
use amorphos_fsrf.Common.{
  ℕ, zero, suc, ◌+◌, ◌*◌, ◌%◌, ◌≤◌, ◌<◌, ◌≡◌, ◌≢◌, refl, ◌⊎◌, inl, inr, Bool, true, false, ◌&&◌,
  Option, none, some, arith, ◌==◌, ==_iff, ==_refl, Bool-cases, if◌then◌else◌,
}
use mathlib.Core.Path.{ap₂}
use amorphos_fsrf.Common.Bits.{or_shift_low, and_low_mask}
use amorphos_fsrf.Tlb.{
  Huge, small, large, segment, same, orders, sets, ways, Tlb, idx, vpns, vlds, set_of, preferred,
  victim_from, age_ways,
}

pub same_refl : (huge : Huge) → same huge huge ≡ true
same_refl small = refl
same_refl large = refl
same_refl segment = refl

pub same→eq : (huge huge' : Huge) → same huge huge' ≡ true → huge ≡ huge'
same→eq small small h = refl
same→eq large large h = refl
same→eq segment segment h = refl
same→eq small large h = cc
same→eq small segment h = cc
same→eq large small h = cc
same→eq large segment h = cc
same→eq segment small h = cc
same→eq segment large h = cc

pub set_of-mod : (huge : Huge) (vpn : ℕ) → set_of huge vpn ≡ vpn % sets huge
unfolding set_of
set_of-mod huge vpn = and_low_mask (orders huge) vpn

pub set_of-lt : (huge : Huge) (vpn : ℕ) → set_of huge vpn < sets huge
set_of-lt small vpn = rw set_of-mod (omega arith)
set_of-lt large vpn = rw set_of-mod (omega arith)
set_of-lt segment vpn = rw set_of-mod (omega arith)

pub idx_sum :
    (huge : Huge) (i j : ℕ) → i < sets huge → j < ways huge → idx huge i j ≡ i * ways huge + j
unfolding idx
idx_sum small i j hi hj = or_shift_low 2 i j hj (omega arith)
idx_sum large i j hi hj = or_shift_low 1 i j hj (omega arith)
idx_sum segment i j hi hj = or_shift_low 2 i j hj (omega arith)

idx_injective :
    (huge : Huge) (i j i' j' : ℕ)
    → i < sets huge
    → j < ways huge
    → i' < sets huge
    → j' < ways huge
    → idx huge i j ≡ idx huge i' j'
    → (i ≡ i') × (j ≡ j')
idx_injective small i j i' j' a b c d e =
    omega (arith, idx_sum small i j a b, idx_sum small i' j' c d)
idx_injective large i j i' j' a b c d e =
    omega (arith, idx_sum large i j a b, idx_sum large i' j' c d)
idx_injective segment i j i' j' a b c d e =
    omega (arith, idx_sum segment i j a b, idx_sum segment i' j' c d)

-- Whether the second cell is the first.
abbrev pub cell : Huge → ℕ → ℕ → Huge → ℕ → ℕ → Bool
cell huge i j huge' i' j' = same huge huge' && idx huge i j == idx huge' i' j'

pub cell_refl : (huge : Huge) (i j : ℕ) → cell huge i j huge i j ≡ true
cell_refl huge i j = rw (same_refl huge) (==_refl (idx huge i j))

pub cell_eq :
    (huge : Huge) (i j : ℕ) (huge' : Huge) (i' j' : ℕ)
    → i < sets huge
    → j < ways huge
    → i' < sets huge'
    → j' < ways huge'
    → cell huge i j huge' i' j' ≡ true
    → (huge ≡ huge') × (i ≡ i') × (j ≡ j')
cell_eq small i j small i' j' a b c d e =
    let p = idx_injective small i j i' j' a b c d ((==_iff _ _).0 e) in (refl, p.0, p.1)
cell_eq large i j large i' j' a b c d e =
    let p = idx_injective large i j i' j' a b c d ((==_iff _ _).0 e) in (refl, p.0, p.1)
cell_eq segment i j segment i' j' a b c d e =
    let p = idx_injective segment i j i' j' a b c d ((==_iff _ _).0 e) in (refl, p.0, p.1)
cell_eq small i j large i' j' a b c d e = cc
cell_eq small i j segment i' j' a b c d e = cc
cell_eq large i j small i' j' a b c d e = cc
cell_eq large i j segment i' j' a b c d e = cc
cell_eq segment i j small i' j' a b c d e = cc
cell_eq segment i j large i' j' a b c d e = cc

and_left : (a b : Bool) → (a && b) ≡ true → a ≡ true
and_left a b h = ground arith

and_right : (a b : Bool) → (a && b) ≡ true → b ≡ true
and_right a b h = ground arith

-- The same cell of an array.
pub cell_value :
    {A : Type 0} (f : Huge → ℕ → A) (huge : Huge) (i j : ℕ) (huge' : Huge) (i' j' : ℕ)
    → cell huge i j huge' i' j' ≡ true
    → f huge (idx huge i j) ≡ f huge' (idx huge' i' j')
cell_value f huge i j huge' i' j' e =
    ap₂ f (same→eq huge huge' (and_left (same huge huge') _ e))
      ((==_iff (idx huge i j) (idx huge' i' j')).0 (and_right (same huge huge') _ e))

pub cell_huge :
    (huge : Huge) (i j : ℕ) (huge' : Huge) (i' j' : ℕ)
    → cell huge i j huge' i' j' ≡ true
    → huge ≡ huge'
cell_huge huge i j huge' i' j' e = same→eq huge huge' (and_left (same huge huge') _ e)

-- The ageing of a set changes no page and no valid bit.
pub age_ways_keeps :
    (n j : ℕ) (t : Tlb) (huge : Huge) (i : ℕ)
    → ((age_ways n j t huge i).vpns_ ≡ t.vpns_)
      × ((age_ways n j t huge i).valids_ ≡ t.valids_)
      × ((age_ways n j t huge i).app_id ≡ t.app_id)
unfolding age_ways
age_ways_keeps zero j t huge i = (refl, refl, refl)
age_ways_keeps (suc n) j t huge i = age_ways_keeps n (j + 1) _ huge i

pub at_or_above : (lo j : ℕ) → lo ≤ j → (lo ≡ j) ⊎ (lo + 1 ≤ j)
at_or_above lo j h = grind arith

-- What the loop that looks for a victim finds among the ways from `lo` to `hi`, with `a` the
-- candidate so far: a way that holds the page, or a victim, where no way holds it; and a victim
-- that is free if the candidate or any of the ways is.
module _ (t : Tlb) (huge : Huge) (i vpn : ℕ) where
  abbrev pub Found : ℕ → ℕ → ℕ → Option ℕ → Type 0
  Found lo hi a none =
      (j : ℕ) × (lo ≤ j) × (j < hi) × (vlds t huge i j ≡ true) × (vpns t huge i j ≡ vpn)
  Found lo hi a (some b) =
      ((j : ℕ) → lo ≤ j → j < hi → vlds t huge i j ≡ true → vpns t huge i j ≢ vpn)
      × (b < hi)
      × (vlds t huge i a ≡ false → vlds t huge i b ≡ false)
      × ((j : ℕ) → lo ≤ j → j < hi → vlds t huge i j ≡ false → vlds t huge i b ≡ false)

  abbrev best : ℕ → ℕ → ℕ
  best a lo = if preferred t huge i a lo then lo else a

  best-lt : (a lo hi : ℕ) → a < hi → lo < hi → best a lo < hi
  best-lt a lo hi h k = ground arith

  best_free_old : (a lo : ℕ) → vlds t huge i a ≡ false → vlds t huge i (best a lo) ≡ false
  best_free_old a lo f = ground arith

  best_free_new : (a lo : ℕ) → vlds t huge i lo ≡ false → vlds t huge i (best a lo) ≡ false
  best_free_new a lo f = elim (Bool-cases (vlds t huge i a)) [
    | inl v ↦ rw (f, v) f
    | inr v ↦ best_free_old a lo v
  ]

  Found-step :
      (lo hi a : ℕ) (o : Option ℕ)
      → (vlds t huge i lo && vpns t huge i lo == vpn) ≡ false
      → Found (lo + 1) hi (best a lo) o
      → Found lo hi a o
  Found-step lo hi a none miss (j, p, q, v, w) = (j, omega arith, q, v, w)
  Found-step lo hi a (some b) miss (absent, below, keep, free) = (
    λ j p q v. elim (at_or_above lo j p) [
      | inl e ↦ λ w. ground arith
      | inr above ↦ absent j above q v
    ],
    below,
    λ f. keep (best_free_old a lo f),
    λ j p q f. elim (at_or_above lo j p) [
      | inl e ↦ keep (best_free_new a lo (rw e f))
      | inr above ↦ free j above q f
    ],
  )

  pub victim_from-Found :
      (n lo hi a : ℕ) → lo + n ≡ hi → a < hi → Found lo hi a (victim_from n lo a t huge i vpn)
  unfolding victim_from
  victim_from-Found zero lo hi a e h =
      (λ j p q. absurd (omega arith), h, λ f. f, λ j p q. absurd (omega arith))
  victim_from-Found (suc n) lo hi a e h =
      elim (Bool-cases (vlds t huge i lo && vpns t huge i lo == vpn)) [
        | inl here ↦ rw here (lo, omega arith, omega arith, ground arith, ground arith)
        | inr miss ↦ rw miss (
            Found-step lo hi a (victim_from n (lo + 1) (best a lo) t huge i vpn) miss (
              victim_from-Found n (lo + 1) hi (best a lo) (omega arith)
                (best-lt a lo hi h (omega arith))))
      ]
