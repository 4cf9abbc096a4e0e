-- ===== src/Multi/Slots.antt =====
-- What a round does to each application.
use amorphos_fsrf.Common.{
  ℕ, suc, ◌+◌, ◌≤◌, ◌≡◌, refl, sym, Bool, true, false, List, [], ◌==◌, if◌then◌else◌, arith, ◌∙◌,
  Bool-cases, inl, inr,
}
use mathlib.Core.Bool.{false≢true}
use native.Mathlib.Decide.{dec_lt}
use amorphos_fsrf.Client.{Call}
use amorphos_fsrf.Multi.{
  Slot, stop_slot, go_on, check_pgrnk, check_rng, check_sha, check_aes, has_bit, is_zero,
  command_clear,
}

-- A read that shows the application done, or does not.
unfoldable pub polled : Bool → List Call → ℕ → ℕ → Slot → Slot
polled ok commands runs_left round s =
    if s.done then s else if ok then stop_slot commands runs_left round s else go_on s

module _ (reads : ℕ → ℕ → ℕ) (runs_left round : ℕ) (s : Slot) where
  pub check_sha-polled :
      check_sha reads runs_left round s ≡ polled (has_bit reads 1 s) command_clear runs_left round s
  unfolding check_sha polled
  check_sha-polled = refl

  pub check_aes-polled :
      check_aes reads runs_left round s ≡ polled (is_zero reads 3 s) [] runs_left round s
  unfolding check_aes polled
  check_aes-polled = refl

  pub check_rng-polled :
      (rng_prev : ℕ)
      → (check_rng reads runs_left round s rng_prev).0
        ≡ polled (reads 0 s.next == rng_prev) [] runs_left round s
  unfolding check_rng polled
  check_rng-polled rng_prev = ground arith

-- Some read after the ones made so far, and no more than `d` reads later, shows the application done.
abbrev pub Within : (ℕ → Bool) → ℕ → ℕ → Type 0
Within ok d next = (q : ℕ) × (next ≤ q) × (q ≤ next + d) × (ok q ≡ true)

pub later : (ok : ℕ → Bool) (n q : ℕ) → n ≤ q → ok n ≡ false → ok q ≡ true → suc n ≤ q
later ok n q lo not_now shown = elim (dec_lt n q) [
  | yes more ↦ more
  | no same ↦ let e : q ≡ n = omega arith in absurd (false≢true (sym not_now ∙ rw (sym e) shown))
]

-- A poll ends the wait, or brings its end nearer.
module _ (ok : ℕ → Bool) (commands : List Call) (runs_left round d : ℕ) (s : Slot) where
  pub polled_last :
      s.done ≡ false
      → Within ok 0 s.next
      → (polled (ok s.next) commands runs_left round s).done ≡ true
  unfolding polled
  polled_last going (q, lo, hi, shown) =
      let same : q ≡ s.next = omega arith in
      let now : ok s.next ≡ true = rw (sym same) shown in ground (arith, now, going)

  pub polled_nearer :
      s.done ≡ false
      → Within ok (suc d) s.next
      → (polled (ok s.next) commands runs_left round s).done ≡ false
      → Within ok d (polled (ok s.next) commands runs_left round s).next
  unfolding polled
  polled_nearer going (q, lo, hi, shown) more = elim (Bool-cases (ok s.next)) [
    | inl now ↦ absurd (ground (arith, now, going, more))
    | inr not_now ↦ rw (going, not_now) (q, later ok s.next q lo not_now shown, omega arith, shown)
  ]

pub polled_done :
    (ok : Bool) (commands : List Call) (runs_left round : ℕ) (s : Slot)
    → s.done ≡ true
    → polled ok commands runs_left round s ≡ s
unfolding polled
polled_done ok commands runs_left round s done = rw done refl

pub check_pgrnk_done :
    (reads : ℕ → ℕ → ℕ) (round : ℕ) (s : Slot) (runs_left : ℕ)
    → s.done ≡ true
    → check_pgrnk reads round s runs_left ≡ (s, runs_left)
unfolding check_pgrnk
check_pgrnk_done reads round s runs_left done = simp done
