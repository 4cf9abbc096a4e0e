-- ===== src/Multi/Waiting.antt =====
-- The last rounds of multi.cpp: once no run is left, the loop waits for all four applications.
use amorphos_fsrf.Common.{
  ℕ, zero, suc, ◌<◌, ◌≡◌, refl, sym, ◌∙◌, ap, Bool, true, false, some, List, [], bit_and, ◌==◌,
  arith, Bool-cases, inl, inr,
}
use mathlib.Core.Bool.{false≢true}
use native.Mathlib.Decide.{dec_lt}
use amorphos_fsrf.Client.{Call}
use amorphos_fsrf.Multi.{
  Slot, Multi, has_bit, is_zero, start_apps, check_apps, is_over, run_loop, command_clear,
  check_rng,
}
use amorphos_fsrf.Multi.Slots.{
  polled, Within, polled_last, polled_nearer, polled_done, check_pgrnk_done, check_sha-polled,
  check_aes-polled, check_rng-polled,
}
use amorphos_fsrf.Multi.Invariant.{
  IsSeen, IsGood, start-IsBusy, start_none_left, start-runs_left, start-IsGood, check-IsGood,
}

-- At any time, no more than `d` further reads show an application done: a set bit 1, a count of 0,
-- or, for rng, a value that is read twice in a row.
pub record Serves (reads : ℕ → ℕ → ℕ) (d : ℕ) : Type 0 where
  pub rng_shows : (k : ℕ) → Within (λ q. reads 0 (suc q) == reads 0 q) d k
  pub sha_shows : (k : ℕ) → Within (λ q. bit_and (reads 1 q) 0x2 == 0x2) d k
  pub pgrnk_shows : (k : ℕ) → Within (λ q. bit_and (reads 2 q) 0x2 == 0x2) d k
  pub aes_shows : (k : ℕ) → Within (λ q. reads 3 q == 0) d k

abbrev pub Awaits : (ℕ → Bool) → ℕ → Slot → Type 0
Awaits ok d s = s.done ≡ false → Within ok d s.next

Awaits-next :
    (ok : ℕ → Bool) (commands : List Call) (runs_left round d : ℕ) (s : Slot)
    → Awaits ok (suc d) s
    → Awaits ok d (polled (ok s.next) commands runs_left round s)
Awaits-next ok commands runs_left round d s waits = elim (Bool-cases s.done) [
  | inl done ↦
      rw (polled_done (ok s.next) commands runs_left round s done)
        (λ going. absurd (false≢true (sym going ∙ done)))
  | inr going ↦ polled_nearer ok commands runs_left round d s going (waits going)
]

Awaits-last :
    (ok : ℕ → Bool) (commands : List Call) (runs_left round : ℕ) (s : Slot)
    → Awaits ok 0 s
    → (polled (ok s.next) commands runs_left round s).done ≡ true
Awaits-last ok commands runs_left round s waits = elim (Bool-cases s.done) [
  | inl done ↦ rw (polled_done (ok s.next) commands runs_left round s done) done
  | inr going ↦ polled_last ok commands runs_left round 0 s going (waits going)
]

-- Whether a read of rng gives what the one before gave.
abbrev pub repeats : (ℕ → ℕ → ℕ) → ℕ → Bool
repeats reads zero = false
repeats reads (suc p) = reads 0 (suc p) == reads 0 p

repeats_seen :
    (reads : ℕ → ℕ → ℕ) (runs_left round : ℕ) (s : Slot) (rng_prev : ℕ)
    → IsSeen reads s rng_prev
    → (check_rng reads runs_left round s rng_prev).0
      ≡ polled (repeats reads s.next) [] runs_left round s
repeats_seen reads runs_left round s rng_prev seen = elim (Bool-cases s.done) [
  | inl done ↦
      check_rng-polled reads runs_left round s rng_prev
      ∙ polled_done (reads 0 s.next == rng_prev) [] runs_left round s done
      ∙ sym (polled_done (repeats reads s.next) [] runs_left round s done)
  | inr going ↦
      let (p, at, prev) = seen going in
      check_rng-polled reads runs_left round s rng_prev
      ∙ ap (λ b. polled b [] runs_left round s) (rw (sym at, prev) refl)
]

module _ (reads : ℕ → ℕ → ℕ) (rng_value : ℕ) (aes_commands : List Call) where
  abbrev pub body : ℕ → Multi → Multi
  body round t =
      check_apps reads rng_value aes_commands round (start_apps reads rng_value aes_commands t)

  -- From a state, the loop ends in time.
  abbrev pub Ends : ℕ → ℕ → Multi → Type 0
  Ends fuel round t =
      (u : Multi) × (run_loop reads rng_value aes_commands fuel round t ≡ some u)
      × IsGood reads u
      × (is_over reads rng_value aes_commands u ≡ true)

  pub body-IsGood : (round : ℕ) (t : Multi) → IsGood reads t → IsGood reads (body round t)
  body-IsGood round t good =
      check-IsGood reads rng_value aes_commands round (start_apps reads rng_value aes_commands t)
        (elim (dec_lt 0 t.runs_left) [
          | yes more ↦ inl (start-IsBusy reads rng_value aes_commands t more)
          | no zero_left ↦ inr (omega (arith, start-runs_left reads rng_value aes_commands t))
        ])
        (start-IsGood reads rng_value aes_commands t good)

  pub Ends-step :
      (fuel round : ℕ) (t : Multi)
      → IsGood reads t
      → (is_over reads rng_value aes_commands (body round t) ≡ false
          → Ends fuel (suc round) (body round t))
      → Ends (suc fuel) round t
  unfolding run_loop
  Ends-step fuel round t good go =
      elim (Bool-cases (is_over reads rng_value aes_commands (body round t))) [
        | inl over ↦ (body round t, rw over refl, body-IsGood round t good, over)
        | inr more ↦ let (u, ran, fine, over) = go more in (u, rw more ran, fine, over)
      ]

  -- When no run is left and the others are awaited for `d` reads at most.
  pub record Trails (d : ℕ) (t : Multi) : Type 0 where
    pub none_left : t.runs_left ≡ 0
    pub rng_due : Awaits (repeats reads) d t.rng
    pub sha_due : Awaits (λ q. bit_and (reads 1 q) 0x2 == 0x2) d t.sha
    pub aes_due : Awaits (λ q. reads 3 q == 0) d t.aes

  body_trailing :
      (round : ℕ) (t : Multi)
      → IsGood reads t
      → t.runs_left ≡ 0
      → body round t ≡ record {
        rng = polled (repeats reads t.rng.next) [] 0 round t.rng;
        sha = polled (has_bit reads 1 t.sha) command_clear 0 round t.sha;
        pgrnk = t.pgrnk;
        aes = polled (is_zero reads 3 t.aes) [] 0 round t.aes;
        rng_prev = (check_rng reads 0 round t.rng t.rng_prev).1;
        runs_left = 0;
      }
  unfolding check_apps
  body_trailing round t good none_left =
      rw (start_none_left reads rng_value aes_commands t none_left) (
        rw (check_pgrnk_done reads round t.pgrnk t.runs_left (good.counted.last none_left)) (
          rw (none_left) (
            rw
              (
                sym (repeats_seen reads 0 round t.rng t.rng_prev good.seen),
                sym (check_sha-polled reads 0 round t.sha),
                sym (check_aes-polled reads 0 round t.aes),
              )
              refl)))

  pub tail-Ends :
      (fuel d round : ℕ) (t : Multi) → d < fuel → IsGood reads t → Trails d t → Ends fuel round t
  tail-Ends zero d round t h good trails = absurd (omega arith)
  tail-Ends (suc fuel) zero round t h good trails = Ends-step fuel round t good (
      rw (body_trailing round t good trails.none_left) (λ more. absurd (
        ground (
          arith,
          more,
          good.counted.last trails.none_left,
          Awaits-last (repeats reads) [] 0 round t.rng trails.rng_due,
          Awaits-last (λ q. bit_and (reads 1 q) 0x2 == 0x2) command_clear 0 round t.sha
              trails.sha_due,
          Awaits-last (λ q. reads 3 q == 0) [] 0 round t.aes trails.aes_due,
        ))))
  tail-Ends (suc fuel) (suc d) round t h good trails = Ends-step fuel round t good (λ more.
      tail-Ends fuel d (suc round) (body round t) (omega arith) (body-IsGood round t good) (
        rw (body_trailing round t good trails.none_left) (record {
          none_left = refl;
          rng_due = Awaits-next (repeats reads) [] 0 round d t.rng trails.rng_due;
          sha_due =
              Awaits-next (λ q. bit_and (reads 1 q) 0x2 == 0x2) command_clear 0 round d t.sha
                trails.sha_due;
          aes_due = Awaits-next (λ q. reads 3 q == 0) [] 0 round d t.aes trails.aes_due;
        })))
