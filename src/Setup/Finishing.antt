-- ===== src/Setup/Finishing.antt =====
-- The polling ends, and for each application at the first round that shows it done.
use amorphos_fsrf.Common.{
  ℕ, zero, suc, ◌+◌, ◌<◌, ◌≤◌, ◌≡◌, refl, ◌∙◌, ap, Bool, true, false, some, u64_mod, ltb, leb,
  ==_refl, ne→==, lt→ltb, le→ltb, ◌&&◌, to_num, if◌then◌else◌, arith,
}
use native.Mathlib.Decide.{dec_lt}
use amorphos_fsrf.Setup.Polling.{
  Watch, Watches, Goal, first_watch, watch_one, visit, poll_apps, poll_rounds,
}

-- How many of `n` applications from `i` on have finished.
unfoldable pub count_finished : (ℕ → Watch) → ℕ → ℕ → ℕ
count_finished apps i zero = 0
count_finished apps i (suc n) = to_num (apps i).finished + count_finished apps (suc i) n

to_num-le : (b : Bool) → to_num b ≤ 1
to_num-le true = omega arith
to_num-le false = omega arith

le→leb : (a b : ℕ) → b < a → leb a b ≡ false
le→leb a b h = ground arith

le→leb_zero : (b : ℕ) → leb 0 b ≡ true
le→leb_zero b = ground arith

count-le : (apps : ℕ → Watch) (i n : ℕ) → count_finished apps i n ≤ n
unfolding count_finished
count-le apps i zero = omega arith
count-le apps i (suc n) = ground (arith, count-le apps (suc i) n)

count_congr :
    (a b : ℕ → Watch) (i n : ℕ)
    → ((j : ℕ) → i ≤ j → a j ≡ b j)
    → count_finished a i n ≡ count_finished b i n
unfolding count_finished
count_congr a b i zero same = refl
count_congr a b i (suc n) same =
    rw (same i (omega arith), count_congr a b (suc i) n (λ j h. same j (omega arith))) refl

count_all :
    (apps : ℕ → Watch) (i n : ℕ)
    → ((j : ℕ) → i ≤ j → j < i + n → (apps j).finished ≡ true)
    → count_finished apps i n ≡ n
unfolding count_finished
count_all apps i zero all = refl
count_all apps i (suc n) all =
    rw
      (
        all i (omega arith) (omega arith),
        count_all apps (suc i) n (λ j lo hi. all j (omega arith) (omega arith)),
      )
      (omega arith)

pub count_none :
    (apps : ℕ → Watch) (i n : ℕ)
    → ((j : ℕ) → (apps j).finished ≡ false)
    → count_finished apps i n ≡ 0
unfolding count_finished
count_none apps i zero going = refl
count_none apps i (suc n) going = rw (going i, count_none apps (suc i) n going) (omega arith)

all_counted :
    (apps : ℕ → Watch) (i n j : ℕ)
    → n ≤ count_finished apps i n
    → i ≤ j
    → j < i + n
    → (apps j).finished ≡ true
unfolding count_finished
all_counted apps i zero j full lo hi = absurd (omega arith)
all_counted apps i (suc n) j full lo hi =
    let rest = count-le apps (suc i) n in
    elim (dec_lt i j) [
      | yes later ↦ all_counted apps (suc i) n j (ground (arith, rest)) (omega arith) (omega arith)
      | no here ↦ ground (arith, rest)
    ]

module _ (reads : ℕ → ℕ → ℕ) (goal : Goal) where
  -- One application after `r` rounds, watched for itself.
  unfoldable pub watched : ℕ → ℕ → Watch
  watched app zero = first_watch reads goal app
  watched app (suc r) = watch_one reads goal r app (watched app r)

  -- The inner loop makes a round for each of its applications, and counts those that finish in it.
  poll_apps-watch :
      (round n i : ℕ) (s : Watches)
      → ((j : ℕ)
          → (poll_apps reads goal round n i s).apps j ≡ (
              if leb i j && ltb j (i + n)
              then watch_one reads goal round j (s.apps j)
              else s.apps j))
  unfolding poll_apps visit
  poll_apps-watch round zero i s j = ground arith
  poll_apps-watch round (suc n) i s j =
      ground (arith, poll_apps-watch round n (suc i) (visit reads goal round i s) j)

  -- A visit counts the application if it finishes now.
  visit-count :
      (round i : ℕ) (s : Watches)
      → s.done_count + 1 < u64_mod
      → (visit reads goal round i s).done_count + to_num (s.apps i).finished
        ≡ s.done_count + to_num (watch_one reads goal round i (s.apps i)).finished
  unfolding visit watch_one
  visit-count round i s small = ground arith

  visit_here :
      (round i : ℕ) (s : Watches)
      → (visit reads goal round i s).apps i ≡ watch_one reads goal round i (s.apps i)
  unfolding visit
  visit_here round i s = rw (==_refl i) refl

  visit_others :
      (round i : ℕ) (s : Watches) (j : ℕ) → i < j → (visit reads goal round i s).apps j ≡ s.apps j
  unfolding visit
  visit_others round i s j later = rw (ne→== j i (omega arith)) refl

  poll_apps_past :
      (round n i : ℕ) (s : Watches)
      → (poll_apps reads goal round n (suc i) (visit reads goal round i s)).apps i
        ≡ watch_one reads goal round i (s.apps i)
  poll_apps_past round n i s =
      poll_apps-watch round n (suc i) (visit reads goal round i s) i
      ∙ rw (le→leb (suc i) i (omega arith)) (visit_here round i s)

  poll_apps-count :
      (round n i : ℕ) (s : Watches)
      → s.done_count + n < u64_mod
      → (poll_apps reads goal round n i s).done_count + count_finished s.apps i n
        ≡ s.done_count + count_finished (poll_apps reads goal round n i s).apps i n
  unfolding poll_apps count_finished
  poll_apps-count round zero i s small = refl
  poll_apps-count round (suc n) i s small =
      let v = visit reads goal round i s in
      let here = visit-count round i s (omega arith) in
      let one = to_num-le (watch_one reads goal round i (s.apps i)).finished in
      let later = poll_apps-count round n (suc i) v (omega (arith, here, one)) in
      let same =
        count_congr v.apps s.apps (suc i) n (λ j h. visit_others round i s j (omega arith)) in
      rw (poll_apps_past round n i s) (omega (arith, here, later, same))

  -- After `r` rounds every application is where it would be alone, and the finished ones are counted.
  pub record IsRound (num_apps r : ℕ) (s : Watches) : Type 0 where
    pub each : (j : ℕ) → j < num_apps → s.apps j ≡ watched j r
    pub counted : s.done_count ≡ count_finished s.apps 0 num_apps

  poll_apps-IsRound :
      (num_apps r : ℕ) (s : Watches)
      → num_apps + num_apps < u64_mod
      → IsRound num_apps r s
      → IsRound num_apps (suc r) (poll_apps reads goal r num_apps 0 s)
  unfolding watched
  poll_apps-IsRound num_apps r s small ok =
      let counts =
        poll_apps-count r num_apps 0 s (omega (arith, ok.counted, count-le s.apps 0 num_apps)) in
      record {
        each = λ j h.
            poll_apps-watch r num_apps 0 s j
            ∙ rw (lt→ltb j (0 + num_apps) (omega arith), le→leb_zero j, ok.each j h) refl;
        counted = omega (arith, ok.counted, counts);
      }

  all_stopped :
      (num_apps r : ℕ) (s : Watches)
      → IsRound num_apps r s
      → num_apps ≤ s.done_count
      → (j : ℕ) → j < num_apps
      → ((s.apps j).finished ≡ true) × ((k : ℕ) × (s.apps j ≡ watched j k))
  all_stopped num_apps r s ok full j h = (
    all_counted s.apps 0 num_apps j (omega (arith, ok.counted)) (omega arith) (omega arith),
    (r, ok.each j h),
  )

  all_done :
      (num_apps r : ℕ) (s : Watches)
      → IsRound num_apps r s
      → ((j : ℕ) → j < num_apps → (watched j r).finished ≡ true)
      → s.done_count ≡ num_apps
  all_done num_apps r s ok ends =
      ok.counted
      ∙ count_all s.apps 0 num_apps (λ j lo hi.
        ap (λ (w : Watch). w.finished) (ok.each j (omega arith)) ∙ ends j (omega arith))

  pub poll_rounds-finish :
      (fuel r num_apps : ℕ) (s : Watches)
      → num_apps + num_apps < u64_mod
      → IsRound num_apps r s
      → ((j : ℕ) → j < num_apps → (watched j (r + fuel)).finished ≡ true)
      → (t : Watches) × (poll_rounds reads goal fuel r num_apps s ≡ some t)
        × ((j : ℕ)
            → j < num_apps
            → ((t.apps j).finished ≡ true) × ((k : ℕ) × (t.apps j ≡ watched j k)))
  unfolding poll_rounds
  poll_rounds-finish zero r num_apps s small ok ends =
      let now : r + 0 ≡ r = omega arith in
      let full = all_done num_apps r s ok (λ j h. rw now at (ends j h)) in
      (
        s,
        rw (le→ltb s.done_count num_apps (omega (arith, full))) refl,
        all_stopped num_apps r s ok (omega (arith, full)),
      )
  poll_rounds-finish (suc fuel) r num_apps s small ok ends = elim (dec_lt s.done_count num_apps) [
    | yes some_left ↦
        let later : r + suc fuel ≡ suc r + fuel = omega arith in
        let (t, ran, stopped) =
          poll_rounds-finish fuel (suc r) num_apps _ small (poll_apps-IsRound num_apps r s small ok)
            (λ j h. rw later at (ends j h)) in
        (t, rw (lt→ltb s.done_count num_apps some_left) ran, stopped)
    | no none_left ↦ (
      s,
      rw (le→ltb s.done_count num_apps (omega arith)) refl,
      all_stopped num_apps r s ok (omega arith),
    )
  ]
