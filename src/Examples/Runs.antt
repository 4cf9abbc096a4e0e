-- ===== src/Examples/Runs.antt =====
-- The end of a run of the host applications (sw/app/utils.hpp) on concrete registers.
use amorphos_fsrf.Common.{ℕ, ◌<◌, ◌≡◌, refl, true, some, leb, if◌then◌else◌, arith}
use amorphos_fsrf.Setup.Polling.{Watches, Goal, finish_runs}
use amorphos_fsrf.Setup.Settled.{IsFirst, settles, polled, awaited, finish_runs-IsFirst}

-- Registers whose bit 1 is set from the third read on.
abbrev third_read : ℕ → ℕ → ℕ
third_read app k = if leb 2 k then 3 else 1

-- The arguments of hls_tri.cpp.
abbrev bit_one : Goal
bit_one = record { fixed_val = true; done_val = 2; reg_mask = 2 }

settles_third : (app : ℕ) → settles third_read bit_one app 2 ≡ true
unfolding polled awaited
settles_third app = refl

finish_runs-IsFirst_example :
    (t : Watches) × (finish_runs third_read bit_one 5 4 ≡ some t)
    × ((j : ℕ)
        → j < 4
        → ((t.apps j).finished ≡ true) × IsFirst third_read bit_one j (t.apps j).ended)
finish_runs-IsFirst_example =
    finish_runs-IsFirst third_read bit_one 5 4 (omega arith)
      (λ j h. (2, omega arith, settles_third j))
