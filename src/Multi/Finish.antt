-- ===== src/Multi/Finish.antt =====
-- The loop of multi.cpp ends, and what has happened by then.
use amorphos_fsrf.Common.{
  ℕ, zero, suc, ◌+◌, ◌-◌, ◌*◌, ◌<◌, ◌≤◌, ◌≡◌, refl, ◌∙◌, ap, Bool, true, false, some, List, bit_and,
  ◌==◌, arith, Bool-cases, ◌⊎◌, inl, inr,
}
use amorphos_fsrf.Client.{Call}
use amorphos_fsrf.Multi.{
  Slot, Multi, check_pgrnk, start_apps, check_apps, is_over, run_loop, start_state, start_slot,
}
use amorphos_fsrf.Multi.Slots.{Within, later}
use amorphos_fsrf.Multi.Kept.{tally, is_set}
use amorphos_fsrf.Multi.Invariant.{
  IsSeen, IsGood, start-IsBusy, start-runs_left, start_state-IsGood,
}
use amorphos_fsrf.Multi.Waiting.{
  Serves, Awaits, repeats, body, Ends, body-IsGood, Ends-step, Trails, tail-Ends,
}

pred_cases : (l : ℕ) → (l ≡ 0) ⊎ ((k : ℕ) × (l ≡ suc k))
pred_cases zero = inl refl
pred_cases (suc k) = inr (k, refl)

-- A read that does not show it brings what is awaited one read nearer.
wait_on :
    (ok : ℕ → Bool) (e n : ℕ) → ok n ≡ false → Within ok e n → (0 < e) × Within ok (e - 1) (suc n)
wait_on ok e n not_shown (q, lo, hi, shown) =
    let beyond = later ok n q lo not_shown shown in
    (omega (arith, beyond), (q, beyond, omega (arith, beyond), shown))

module _ (reads : ℕ → ℕ → ℕ) (rng_value : ℕ) (aes_commands : List Call) where
  start-next : (t : Multi) → (start_apps reads rng_value aes_commands t).pgrnk.next ≡ t.pgrnk.next
  unfolding start_apps start_slot
  start-next t = ground arith

  -- A round in which PageRank is seen done, and one in which it is not.
  body_shown :
      (round l : ℕ) (t : Multi)
      → IsGood reads t
      → t.runs_left ≡ suc l
      → bit_and (reads 2 t.pgrnk.next) 0x2 == 0x2 ≡ true
      → (body reads rng_value aes_commands round t).runs_left ≡ l
  unfolding check_apps check_pgrnk
  body_shown round l t good left shown =
      let clears = good.counted.clears in
      ground (
        arith,
        left,
        shown,
        clears,
        start-next t,
        start-runs_left reads rng_value aes_commands t,
        (start-IsBusy reads rng_value aes_commands t (omega (arith, left))).pgrnk_busy,
      )

  body_not_shown :
      (round l : ℕ) (t : Multi)
      → t.runs_left ≡ suc l
      → bit_and (reads 2 t.pgrnk.next) 0x2 == 0x2 ≡ false
      → ((body reads rng_value aes_commands round t).runs_left ≡ suc l)
        × ((body reads rng_value aes_commands round t).pgrnk.next ≡ suc t.pgrnk.next)
  unfolding check_apps check_pgrnk
  body_not_shown round l t left not_shown = ground (
    arith,
    left,
    not_shown,
    start-next t,
    start-runs_left reads rng_value aes_commands t,
    (start-IsBusy reads rng_value aes_commands t (omega (arith, left))).pgrnk_busy,
  )

  module _ (d : ℕ) (serves : Serves reads d) where
    rng_repeats : (s : Slot) (rng_prev : ℕ) → IsSeen reads s rng_prev → Awaits (repeats reads) d s
    rng_repeats s rng_prev seen going =
        let (p, at, prev) = seen going in
        let (q, lo, hi, same) = serves.rng_shows p in
        (suc q, omega (arith, at), omega (arith, at), same)

    good-Trails :
        (t : Multi) → IsGood reads t → t.runs_left ≡ 0 → Trails reads rng_value aes_commands d t
    good-Trails t good none_left = record {
      none_left = none_left;
      rng_due = rng_repeats t.rng t.rng_prev good.seen;
      sha_due = λ going. serves.sha_shows t.sha.next;
      aes_due = λ going. serves.aes_shows t.aes.next;
    }

    -- With `l + 1` runs left, the next of which is seen done within `e` further reads.
    head-Ends :
        (fuel l e round : ℕ) (t : Multi)
        → suc e + l * suc d + suc d ≤ fuel
        → IsGood reads t
        → t.runs_left ≡ suc l
        → Within (λ q. bit_and (reads 2 q) 0x2 == 0x2) e t.pgrnk.next
        → Ends reads rng_value aes_commands fuel round t
    head-Ends zero l e round t h good left due = absurd (omega arith)
    head-Ends (suc fuel) l e round t h good left due =
        let u = body reads rng_value aes_commands round t in
        let fine = body-IsGood reads rng_value aes_commands round t good in
        elim (Bool-cases (bit_and (reads 2 t.pgrnk.next) 0x2 == 0x2)) [
          | inl shown ↦
              let fewer = body_shown round l t good left shown in
              Ends-step reads rng_value aes_commands fuel round t good λ more. elim (pred_cases l) [
                | inl none_left ↦
                    tail-Ends reads rng_value aes_commands fuel d (suc round) u
                      (omega (arith, h, none_left)) fine (good-Trails u fine (fewer ∙ none_left))
                | inr (k, some_left) ↦
                    head-Ends fuel k d (suc round) u
                      (omega (arith, h, ap (λ (n : ℕ). n * suc d) some_left)) fine
                      (fewer ∙ some_left) (serves.pgrnk_shows u.pgrnk.next)
              ]
          | inr not_shown ↦
              let (same, read) = body_not_shown round l t left not_shown in
              let (some_wait, due_later) =
                wait_on (λ q. bit_and (reads 2 q) 0x2 == 0x2) e t.pgrnk.next not_shown due in
              Ends-step reads rng_value aes_commands fuel round t good λ more.
                head-Ends fuel l (e - 1) (suc round) u (omega (arith, h, some_wait)) fine same
                  (rw read due_later)
        ]

    run_loop-Ends : Ends reads rng_value aes_commands (26 * suc d) 0 start_state
    run_loop-Ends =
        head-Ends (26 * suc d) 24 d 0 start_state (omega arith) (start_state-IsGood reads) refl
          (serves.pgrnk_shows 0)

-- Wherever no more than `d` further reads ever show an application done, the loop ends within
-- 26 * (d + 1) rounds; no run is left then and all four applications are done; PageRank was started
-- and cleared 25 times, which is the count of its runs, and the other accelerator with a clear was
-- cleared as often as it was started; and the end of each application was taken.
pub run_loop_ends :
    (reads : ℕ → ℕ → ℕ) (rng_value : ℕ) (aes_commands : List Call) (d : ℕ)
    → Serves reads d
    → (u : Multi) × (run_loop reads rng_value aes_commands (26 * suc d) 0 start_state ≡ some u)
      × (is_over reads rng_value aes_commands u ≡ true)
      × (tally 1 u.pgrnk.sent ≡ 25)
      × (tally 16 u.pgrnk.sent ≡ 25)
      × (u.pgrnk.runs ≡ 25)
      × (tally 1 u.sha.sent ≡ tally 16 u.sha.sent)
      × (is_set u.rng.ended ≡ true)
      × (is_set u.sha.ended ≡ true)
      × (is_set u.pgrnk.ended ≡ true)
      × (is_set u.aes.ended ≡ true)
run_loop_ends reads rng_value aes_commands d serves =
    let (u, ran, good, over) = run_loop-Ends reads rng_value aes_commands d serves in
    let left : u.runs_left ≡ 0 = ground (arith, over) in
    let rng_done : u.rng.done ≡ true = ground (arith, over) in
    let sha_done : u.sha.done ≡ true = ground (arith, over) in
    let pgrnk_done : u.pgrnk.done ≡ true = ground (arith, over) in
    let aes_done : u.aes.done ≡ true = ground (arith, over) in
    (
      u,
      ran,
      over,
      ground (arith, good.counted.starts, left, pgrnk_done),
      omega (arith, good.counted.clears, left),
      ground (arith, good.counted.starts, good.counted.runs, left, pgrnk_done),
      ground (arith, good.cleared, sha_done),
      good.rng_ended left rng_done,
      good.sha_ended left sha_done,
      good.pgrnk_ended left pgrnk_done,
      good.aes_ended left aes_done,
    )
