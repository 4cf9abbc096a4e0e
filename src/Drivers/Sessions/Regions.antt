-- ===== src/Drivers/Sessions/Regions.antt =====
-- Sessions with one region, two and three, and programs that run behind tests of their arguments.
use amorphos_fsrf.Common.{
  ℕ, ◌^◌, Bool, true, false, ◌&&◌, Option, none, some, List, [], ◌∷◌, ltb, ◌==◌, ◌≡◌, refl,
  Bool-cases, ==_refl, ==_iff, inl, inr,
}
use mathlib.Core.Bool.{false≢true}
use amorphos_fsrf.Client.{Call, aos_file_open, aos_file_close, aos_mmap, aos_munmap}
use amorphos_fsrf.Setup.{Settings, parse_std_args}
use amorphos_fsrf.Drivers.{Phase, Main, aborted, undefined, program}
use amorphos_fsrf.Drivers.Programs.{assert_that, with_settings, shift_one}
use amorphos_fsrf.Drivers.Sessions.{Held, nothing, perform}

abbrev pub Gives : (List Phase → Type 0) → Main → Type 0
Gives P aborted = Unit {0}
Gives P undefined = Unit {0}
Gives P (program phases) = P phases

module _ (P : List Phase → Type 0) where
  pub assert_that-Gives : (b : Bool) (m : Main) → Gives P m → Gives P (assert_that b m)
  unfolding assert_that
  assert_that-Gives true m h = h
  assert_that-Gives false m h = tt

  pub with_settings-Gives :
      (args : List ℕ) (m : Settings → Main)
      → ((s : Settings) → Gives P (m s))
      → Gives P (with_settings args m)
  unfolding with_settings
  with_settings-Gives args m h =
      elim (parse_std_args args) as (λ o. Gives P (elim o [ none ↦ aborted | some s ↦ m s ])) [
        | none ↦ tt
        | some s ↦ h s
      ]

  pub shift_one-Gives :
      (length : ℕ) (m : ℕ → Main) → Gives P (m (2 ^ length)) → Gives P (shift_one length m)
  unfolding shift_one
  shift_one-Gives length m h = elim (Bool-cases (ltb length 31)) [
    | inl e ↦ rw e h
    | inr e ↦ rw e tt
  ]

both : (b c : Bool) → (b && c) ≡ true → (b ≡ true) × (c ≡ true)
both true true h = (refl, refl)
both true false h = (refl, h)
both false c h = (h, absurd (false≢true h))

same_region : (x y m n : ℕ) → ((x == y) && (m == n)) ≡ true → (x ≡ y) × (m ≡ n)
same_region x y m n h =
    let (p, q) = both (x == y) (m == n) h in ((==_iff x y).0 p, (==_iff m n).0 q)

-- Sessions with one region, two and three.  What else the calls carry changes nothing.
module _ (f : ℕ) (addr : ℕ → ℕ) where
  abbrev pub left_with : ℕ → Option Held
  left_with n = some (record { files = []; regions = []; mapped = n })

  abbrev pub mapping : ℕ → Call
  mapping n = aos_mmap 0 n 0 0 f 0

  pub one_region :
      (n : ℕ)
      → perform f addr
          (aos_file_open [] ∷ mapping n ∷ aos_munmap (addr 0) n ∷ aos_file_close f ∷ [])
          nothing
        ≡ left_with 1
  unfolding perform
  one_region n = simp ==_refl

  pub two_regions :
      (n n' : ℕ)
      → perform f addr
          (aos_file_open []
            ∷ mapping n
            ∷ mapping n'
            ∷ aos_munmap (addr 0) n
            ∷ aos_munmap (addr 1) n'
            ∷ aos_file_close f
            ∷ [])
          nothing
        ≡ left_with 2
  unfolding perform
  two_regions n n' = elim (Bool-cases ((addr 1 == addr 0) && (n' == n))) [
    | inl same ↦ let (p, q) = same_region (addr 1) (addr 0) n' n same in simp (==_refl, p, q)
    | inr other ↦ simp (==_refl, other)
  ]

  pub three_regions :
      (n n' n'' : ℕ)
      → perform f addr
          (aos_file_open []
            ∷ mapping n
            ∷ mapping n'
            ∷ mapping n''
            ∷ aos_munmap (addr 0) n
            ∷ aos_munmap (addr 1) n'
            ∷ aos_munmap (addr 2) n''
            ∷ aos_file_close f
            ∷ [])
          nothing
        ≡ left_with 3
  unfolding perform
  three_regions n n' n'' = elim (Bool-cases ((addr 2 == addr 0) && (n'' == n))) [
    | inl same ↦ let (p, q) = same_region (addr 2) (addr 0) n'' n same in simp (==_refl, p, q)
    | inr other ↦ elim (Bool-cases ((addr 1 == addr 0) && (n' == n))) [
      | inl same ↦
          let (p, q) = same_region (addr 1) (addr 0) n' n same in simp (==_refl, other, p, q)
      | inr last_two ↦ elim (Bool-cases ((addr 2 == addr 1) && (n'' == n'))) [
        | inl same ↦
            let (p, q) = same_region (addr 2) (addr 1) n'' n' same in simp (==_refl, last_two, p, q)
        | inr apart ↦ simp (==_refl, other, last_two, apart)
      ]
    ]
  ]
