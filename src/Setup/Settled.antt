-- ===== src/Setup/Settled.antt =====
-- When `finish_runs` returns, and what it holds then.
use amorphos_fsrf.Common.{
  ℕ, zero, suc, ◌+◌, ◌<◌, ◌≡◌, refl, sym, ◌∙◌, ap, Bool, true, false, some, u64_mod, bit_and, ◌==◌,
  if◌then◌else◌, arith, Bool-cases, ◌⊎◌, inl, inr,
}
use mathlib.Core.Bool.{false≢true}
use native.Mathlib.Decide.{dec_lt}
use amorphos_fsrf.Setup.Polling.{
  Watch, Watches, Goal, first_watch, poll_one, watch_one, finish_runs,
}
use amorphos_fsrf.Setup.Finishing.{watched, IsRound, poll_rounds-finish, count_none}

module _ (reads : ℕ → ℕ → ℕ) (goal : Goal) where
  -- The read of the application's register in a round, the first of which is 0.
  unfoldable pub polled : ℕ → ℕ → ℕ
  polled app r = bit_and (reads app (if goal.fixed_val then r else suc r)) goal.reg_mask

  -- What that is compared with: the value awaited, or the read before.
  unfoldable pub awaited : ℕ → ℕ → ℕ
  awaited app zero = if goal.fixed_val then goal.done_val else reads app 0
  awaited app (suc r) = if goal.fixed_val then goal.done_val else polled app r

  abbrev pub settles : ℕ → ℕ → Bool
  settles app r = polled app r == awaited app r

  -- Round `r` is the first that shows the application done.
  abbrev pub IsFirst : ℕ → ℕ → Type 0
  IsFirst app r = (settles app r ≡ true) × ((q : ℕ) → q < r → settles app q ≡ false)

  -- An application that goes on after `r` rounds has been read in each, and none showed it done.
  pub record GoesOn (app r : ℕ) (w : Watch) : Type 0 where
    going : w.finished ≡ false
    at : w.next ≡ (if goal.fixed_val then r else suc r)
    against : (if goal.fixed_val then goal.done_val else w.prev_val) ≡ awaited app r
    before : (q : ℕ) → q < r → settles app q ≡ false

  pub record Stopped (app : ℕ) (w : Watch) : Type 0 where
    stopped : w.finished ≡ true
    first : IsFirst app w.ended

  test-settles :
      (app r : ℕ) (w : Watch)
      → GoesOn app r w
      → (bit_and (reads app w.next) goal.reg_mask
          == (if goal.fixed_val then goal.done_val else w.prev_val))
        ≡ settles app r
  unfolding polled
  test-settles app r w g = rw (g.at, g.against) refl

  watch_stops :
      (app r : ℕ) (w : Watch)
      → GoesOn app r w
      → settles app r ≡ true
      → Stopped app (watch_one reads goal r app w)
  unfolding watch_one poll_one
  watch_stops app r w g yes_now =
      rw (g.going, test-settles app r w g, yes_now)
        (record { stopped = refl; first = (yes_now, g.before) })

  before_next :
      (app r : ℕ)
      → ((q : ℕ) → q < r → settles app q ≡ false)
      → settles app r ≡ false
      → (q : ℕ) → q < suc r
      → settles app q ≡ false
  before_next app r before not_now q h = elim (dec_lt q r) [
    | yes earlier ↦ before q earlier
    | no now ↦ let same : q ≡ r = omega arith in rw same not_now
  ]

  next_read : (b : Bool) (r : ℕ) → suc (if b then r else suc r) ≡ (if b then suc r else suc (suc r))
  next_read true r = refl
  next_read false r = refl

  watch_goes :
      (app r : ℕ) (w : Watch)
      → GoesOn app r w
      → settles app r ≡ false
      → GoesOn app (suc r) (watch_one reads goal r app w)
  unfolding watch_one poll_one awaited polled
  watch_goes app r w g not_now =
      rw (g.going, test-settles app r w g, not_now)
        (record {
          going = refl;
          at = ap suc g.at ∙ next_read goal.fixed_val r;
          against = rw g.at refl;
          before = before_next app r g.before not_now;
        })

  first_goes : (app : ℕ) → GoesOn app 0 (first_watch reads goal app)
  unfolding first_watch awaited
  first_goes app = record {
    going = ground arith;
    at = ground arith;
    against = ground arith;
    before = λ q h. absurd (omega arith);
  }

  watch_stays : (app r : ℕ) (w : Watch) → w.finished ≡ true → watch_one reads goal r app w ≡ w
  unfolding watch_one
  watch_stays app r w done = rw done refl

  watched-cases :
      (app r : ℕ) → GoesOn app r (watched reads goal app r) ⊎ Stopped app (watched reads goal app r)
  unfolding watched
  watched-cases app zero = inl (first_goes app)
  watched-cases app (suc r) = elim (watched-cases app r) [
    | inl g ↦ elim (Bool-cases (settles app r)) [
      | inl yes_now ↦ inr (watch_stops app r _ g yes_now)
      | inr not_now ↦ inl (watch_goes app r _ g not_now)
    ]
    | inr s ↦ inr (rw (watch_stays app r (watched reads goal app r) s.stopped) s)
  ]

  -- An application that a round before `r` shows done has stopped by then.
  watched-Stopped :
      (app q r : ℕ) → q < r → settles app q ≡ true → Stopped app (watched reads goal app r)
  watched-Stopped app q r h yes_then = elim (watched-cases app r) [
    | inl g ↦ absurd (false≢true (sym (g.before q h) ∙ yes_then))
    | inr s ↦ s
  ]

  finished-Stopped :
      (app r : ℕ)
      → (watched reads goal app r).finished ≡ true
      → IsFirst app (watched reads goal app r).ended
  finished-Stopped app r ended = elim (watched-cases app r) [
    | inl g ↦ absurd (false≢true (sym g.going ∙ ended))
    | inr s ↦ s.first
  ]

  start-IsRound :
      (num_apps : ℕ)
      → IsRound reads goal num_apps 0 (record { apps = first_watch reads goal; done_count = 0 })
  unfolding watched
  start-IsRound num_apps = record {
    each = λ j h. refl;
    counted = sym (count_none (first_watch reads goal) 0 num_apps (λ j. (first_goes j).going));
  }

  -- If for every application some round before `rounds` shows it done (its register, under the
  -- mask, has the value awaited, or the one it had at the read before), then `finish_runs` returns
  -- within that many rounds; all applications are done then, and the end of each was taken in the
  -- first round that showed it done.
  pub finish_runs-IsFirst :
      (rounds num_apps : ℕ)
      → num_apps + num_apps < u64_mod
      → ((j : ℕ) → j < num_apps → (q : ℕ) × (q < rounds) × (settles j q ≡ true))
      → (t : Watches) × (finish_runs reads goal rounds num_apps ≡ some t)
        × ((j : ℕ) → j < num_apps → ((t.apps j).finished ≡ true) × IsFirst j (t.apps j).ended)
  unfolding finish_runs
  finish_runs-IsFirst rounds num_apps small shown =
      let total : 0 + rounds ≡ rounds = omega arith in
      let (t, ran, stopped) =
        poll_rounds-finish reads goal rounds 0 num_apps _ small (start-IsRound num_apps) (λ j h.
          let (q, early, yes_then) = shown j h in
          rw total (watched-Stopped j q rounds early yes_then).stopped) in
      (
        t,
        ran,
        λ j h.
            let (finished, (k, same)) = stopped j h in
            (finished, rw same (finished-Stopped j k (rw same at finished))),
      )
