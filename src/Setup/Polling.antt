-- ===== src/Setup/Polling.antt =====
-- `finish_runs` of sw/app/utils.hpp: the host polls a register of each application until all of them
-- have finished.  What the registers return is a parameter: `reads app k` is what the `k`-th read of
-- the application's register gives.  The clock counts the rounds of the outer loop.
use amorphos_fsrf.Common.{
  ℕ, zero, suc, Bool, true, false, Option, none, some, add64, bit_and, ltb, ◌==◌, if◌then◌else◌,
}

-- What the vectors and `end` hold for one application, and how often it was read.
pub record Watch : Type 0 where
  pub next : ℕ
  pub prev_val : ℕ
  pub finished : Bool
  pub ended : ℕ

pub record Watches : Type 0 where
  pub apps : ℕ → Watch
  pub done_count : ℕ

-- The arguments of the call.
pub record Goal : Type 0 where
  pub fixed_val : Bool
  pub done_val : ℕ
  pub reg_mask : ℕ

module _ (reads : ℕ → ℕ → ℕ) (goal : Goal) where
  unfoldable pub first_watch : ℕ → Watch
  first_watch app =
      if goal.fixed_val
      then record { next = 0; prev_val = 0; finished = false; ended = 0 }
      else record { next = 1; prev_val = reads app 0; finished = false; ended = 0 }

  -- The body of the inner loop for an application that is not done.
  unfoldable pub poll_one : ℕ → ℕ → Watch → Watch
  poll_one round app w =
      let val = bit_and (reads app w.next) goal.reg_mask in
      let comp_val = if goal.fixed_val then goal.done_val else w.prev_val in
      if val == comp_val
      then record { next = suc w.next; prev_val = val; finished = true; ended = round }
      else record w { next = suc w.next; prev_val = val }

  unfoldable pub watch_one : ℕ → ℕ → Watch → Watch
  watch_one round app w = if w.finished then w else poll_one round app w

  unfoldable pub visit : ℕ → ℕ → Watches → Watches
  visit round app s =
      let before = s.apps app in
      let after = watch_one round app before in
      record {
        apps = λ j. if j == app then after else s.apps j;
        done_count =
            if before.finished
            then s.done_count
            else if after.finished
            then add64 s.done_count 1
            else s.done_count;
      }

  -- The inner loop: `n` applications from `app` on.
  unfoldable pub poll_apps : ℕ → ℕ → ℕ → Watches → Watches
  poll_apps round zero app s = s
  poll_apps round (suc n) app s = poll_apps round n (suc app) (visit round app s)

  -- The outer loop, for at most `fuel` rounds from `round` on; `none` when it goes on.
  unfoldable pub poll_rounds : ℕ → ℕ → ℕ → Watches → Option Watches
  poll_rounds zero round num_apps s = if ltb s.done_count num_apps then none else some s
  poll_rounds (suc fuel) round num_apps s =
      if ltb s.done_count num_apps
      then poll_rounds fuel (suc round) num_apps (poll_apps round num_apps 0 s)
      else some s

  unfoldable pub finish_runs : ℕ → ℕ → Option Watches
  finish_runs fuel num_apps =
      poll_rounds fuel 0 num_apps (record { apps = first_watch; done_count = 0 })
