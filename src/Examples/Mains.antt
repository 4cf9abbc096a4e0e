-- ===== src/Examples/Mains.antt =====
-- The main programs of sw/app at concrete arguments, answers and registers.
use amorphos_fsrf.Common.{ℕ, ◌*◌, ◌≡◌, refl, true, some, List, [], ◌∷◌, ◌==◌, if◌then◌else◌, arith}
use amorphos_fsrf.Setup.{parse_std_args}
use amorphos_fsrf.Drivers.{Phase, Answers, Main, aborted, undefined, program, calls_of}
use amorphos_fsrf.Drivers.Programs.{assert_that, with_settings, shift_one, aes}
use amorphos_fsrf.Drivers.Sessions.{is_aes, main_of, perform, nothing}
use amorphos_fsrf.Drivers.Sessions.Tidy.{main_of-Tidy}
use amorphos_fsrf.Multi.{Multi, run_loop, start_state, is_over}
use amorphos_fsrf.Multi.Kept.{tally, is_set}
use amorphos_fsrf.Multi.Waiting.{Serves}
use amorphos_fsrf.Multi.Finish.{run_loop_ends}

abbrev answers : Answers
answers = record { fd = λ app. 3; addr = λ app k. k * 4096; unset = λ app. 0 }

abbrev phases_of : Main → List Phase
phases_of aborted = []
phases_of undefined = []
phases_of (program phases) = phases

-- Two applications that encrypt 2^10 words each.
abbrev two_apps : List ℕ
two_apps = 10 ∷ 2 ∷ []

aes_runs : main_of is_aes answers two_apps ≡ program (phases_of (main_of is_aes answers two_apps))
unfolding main_of aes assert_that with_settings shift_one parse_std_args
aes_runs = refl

main_of-Tidy_example :
    (n : ℕ) × (perform 3
        (λ k. k * 4096)
        (calls_of 1 (phases_of (main_of is_aes answers two_apps)))
        nothing
      ≡ some (record { files = []; regions = []; mapped = n }))
main_of-Tidy_example =
    main_of-Tidy is_aes answers 1 two_apps (phases_of (main_of is_aes answers two_apps)) aes_runs

-- Registers that show every application done at each read.
abbrev always_done : ℕ → ℕ → ℕ
always_done app k = if app == 3 then 0 else 2

always_done-Serves : Serves always_done 0
always_done-Serves = record {
  rng_shows = λ k. (k, omega arith, omega arith, refl);
  sha_shows = λ k. (k, omega arith, omega arith, refl);
  pgrnk_shows = λ k. (k, omega arith, omega arith, refl);
  aes_shows = λ k. (k, omega arith, omega arith, refl);
}

run_loop_ends_example :
    (u : Multi) × (run_loop always_done 7 [] 26 0 start_state ≡ some u)
    × (is_over always_done 7 [] u ≡ true)
    × (tally 1 u.pgrnk.sent ≡ 25)
    × (tally 16 u.pgrnk.sent ≡ 25)
    × (u.pgrnk.runs ≡ 25)
    × (tally 1 u.sha.sent ≡ tally 16 u.sha.sent)
    × (is_set u.rng.ended ≡ true)
    × (is_set u.sha.ended ≡ true)
    × (is_set u.pgrnk.ended ≡ true)
    × (is_set u.aes.ended ≡ true)
run_loop_ends_example = run_loop_ends always_done 7 [] 0 always_done-Serves
