-- ===== src/Multi/Invariant.antt =====
-- What holds of multi.cpp between two rounds.
use amorphos_fsrf.Common.{
  ℕ, suc, ◌<◌, ◌≡◌, refl, sym, ◌∙◌, false, List, [], ◌∷◌, ◌==◌, arith, Bool-cases, ◌⊎◌, inl, inr,
}
use mathlib.Core.Bool.{false≢true}
use native.Mathlib.Decide.{dec_lt}
use amorphos_fsrf.Client.{Call, aos_cntrlreg_write}
use amorphos_fsrf.Multi.{
  Slot, Multi, start_slot, check_pgrnk, check_rng, start_rng, has_bit, is_zero, rng_app,
  command_run, command_clear, start_apps, check_apps, start_state,
}
use amorphos_fsrf.Multi.Slots.{check_sha-polled, check_aes-polled, check_rng-polled}
use amorphos_fsrf.Multi.Kept.{
  tally, IsCounted, IsCleared, IsEnded, start-IsCounted, check-IsCounted, start-IsCleared,
  polled-IsCleared, polled-IsEnded, check_pgrnk-IsEnded,
}

-- The value that the next read of rng is compared with is that of the read before.
abbrev pub IsSeen : (ℕ → ℕ → ℕ) → Slot → ℕ → Type 0
IsSeen reads s rng_prev = s.done ≡ false → (p : ℕ) × (suc p ≡ s.next) × (rng_prev ≡ reads rng_app p)

start_rng-IsSeen :
    (reads : ℕ → ℕ → ℕ) (rng_value : ℕ) (s : Slot) (rng_prev : ℕ)
    → IsSeen reads s rng_prev
    → IsSeen reads (start_rng reads rng_value s rng_prev).0 (start_rng reads rng_value s rng_prev).1
unfolding start_rng start_slot
start_rng-IsSeen reads rng_value s rng_prev seen = elim (Bool-cases s.done) [
  | inl done ↦ simp done (λ going. (s.next, refl, refl))
  | inr going ↦ simp going (λ still. seen going)
]

check_rng-IsSeen :
    (reads : ℕ → ℕ → ℕ) (runs_left round : ℕ) (s : Slot) (rng_prev : ℕ)
    → IsSeen reads s rng_prev
    → IsSeen reads
        (check_rng reads runs_left round s rng_prev).0
        (check_rng reads runs_left round s rng_prev).1
unfolding check_rng
check_rng-IsSeen reads runs_left round s rng_prev seen = elim (Bool-cases s.done) [
  | inl done ↦ simp done (λ still. absurd (false≢true (sym still)))
  | inr going ↦ elim (Bool-cases (reads rng_app s.next == rng_prev)) [
    | inl same ↦ simp (going, same) (λ still. absurd (false≢true (sym still)))
    | inr other ↦ simp (going, other) (λ still. (s.next, refl, refl))
  ]
]

pub record IsGood (reads : ℕ → ℕ → ℕ) (t : Multi) : Type 0 where
  pub counted : IsCounted t.runs_left t.pgrnk
  pub cleared : IsCleared t.sha
  pub seen : IsSeen reads t.rng t.rng_prev
  pub rng_ended : IsEnded t.runs_left t.rng
  pub sha_ended : IsEnded t.runs_left t.sha
  pub pgrnk_ended : IsEnded t.runs_left t.pgrnk
  pub aes_ended : IsEnded t.runs_left t.aes

-- All four accelerators are at work.
pub record IsBusy (t : Multi) : Type 0 where
  pub rng_busy : t.rng.done ≡ false
  pub sha_busy : t.sha.done ≡ false
  pub pgrnk_busy : t.pgrnk.done ≡ false
  pub aes_busy : t.aes.done ≡ false

module _ (reads : ℕ → ℕ → ℕ) (rng_value : ℕ) (aes_commands : List Call) where
  start_slot_busy : (commands : List Call) (s : Slot) → (start_slot commands s).done ≡ false
  unfolding start_slot
  start_slot_busy commands s = ground arith

  pub start-IsBusy :
      (t : Multi) → 0 < t.runs_left → IsBusy (start_apps reads rng_value aes_commands t)
  unfolding start_apps start_rng
  start-IsBusy t more = ground (
    arith,
    start_slot_busy (aos_cntrlreg_write 0x0 rng_value ∷ []) t.rng,
    start_slot_busy command_run t.sha,
    start_slot_busy command_run t.pgrnk,
    start_slot_busy aes_commands t.aes,
  )

  pub start_none_left :
      (t : Multi) → t.runs_left ≡ 0 → start_apps reads rng_value aes_commands t ≡ t
  unfolding start_apps
  start_none_left t none_left = ground (arith, none_left)

  pub start-runs_left :
      (t : Multi) → (start_apps reads rng_value aes_commands t).runs_left ≡ t.runs_left
  unfolding start_apps
  start-runs_left t = ground arith

  -- Every application started that was not at work.
  abbrev pub all_started : Multi → Multi
  all_started t = record {
    rng = (start_rng reads rng_value t.rng t.rng_prev).0;
    sha = start_slot command_run t.sha;
    pgrnk = start_slot command_run t.pgrnk;
    aes = start_slot aes_commands t.aes;
    rng_prev = (start_rng reads rng_value t.rng t.rng_prev).1;
    runs_left = t.runs_left;
  }

  start_some_left :
      (t : Multi) → 0 < t.runs_left → start_apps reads rng_value aes_commands t ≡ all_started t
  unfolding start_apps
  start_some_left t more = ground (arith, more)

  pub start-IsGood :
      (t : Multi) → IsGood reads t → IsGood reads (start_apps reads rng_value aes_commands t)
  start-IsGood t good = elim (dec_lt 0 t.runs_left) [
    | no zero_left ↦ rw (start_none_left t (omega arith)) good
    | yes more ↦ rw (start_some_left t more) (record {
      counted = start-IsCounted t.runs_left t.pgrnk more good.counted;
      cleared = start-IsCleared t.sha good.cleared;
      seen = start_rng-IsSeen reads rng_value t.rng t.rng_prev good.seen;
      rng_ended = λ none_left done. absurd (omega arith);
      sha_ended = λ none_left done. absurd (omega arith);
      pgrnk_ended = λ none_left done. absurd (omega arith);
      aes_ended = λ none_left done. absurd (omega arith);
    })
  ]

  -- An application that may have no end yet is at work, or runs are left after the round too.
  later-IsEnded :
      (round : ℕ) (u : Multi) (s : Slot)
      → IsCounted u.runs_left u.pgrnk
      → (s.done ≡ false) ⊎ (u.runs_left ≡ 0)
      → IsEnded u.runs_left s
      → IsEnded (check_pgrnk reads round u.pgrnk u.runs_left).1 s
  later-IsEnded round u s counted (inl busy) ended none_left done =
      absurd (false≢true (sym busy ∙ done))
  later-IsEnded round u s counted (inr zero_left) ended none_left done = ended zero_left done

  pub check-IsGood :
      (round : ℕ) (u : Multi)
      → IsBusy u ⊎ (u.runs_left ≡ 0)
      → IsGood reads u
      → IsGood reads (check_apps reads rng_value aes_commands round u)
  unfolding check_apps
  check-IsGood round u busy good =
      let left = (check_pgrnk reads round u.pgrnk u.runs_left).1 in
      record {
        counted = check-IsCounted reads round u.runs_left u.pgrnk good.counted;
        cleared =
            rw (check_sha-polled reads left round u.sha)
              (polled-IsCleared (has_bit reads 1 u.sha) left round u.sha good.cleared);
        seen = check_rng-IsSeen reads left round u.rng u.rng_prev good.seen;
        rng_ended = rw (check_rng-polled reads left round u.rng u.rng_prev) (
            polled-IsEnded (reads 0 u.rng.next == u.rng_prev) [] left round u.rng (
              later-IsEnded round u u.rng good.counted
                (elim busy [ inl b ↦ inl b.rng_busy | inr z ↦ inr z ]) good.rng_ended));
        sha_ended = rw (check_sha-polled reads left round u.sha) (
            polled-IsEnded (has_bit reads 1 u.sha) command_clear left round u.sha (
              later-IsEnded round u u.sha good.counted
                (elim busy [ inl b ↦ inl b.sha_busy | inr z ↦ inr z ]) good.sha_ended));
        pgrnk_ended = check_pgrnk-IsEnded reads round u.runs_left u.pgrnk good.pgrnk_ended;
        aes_ended = rw (check_aes-polled reads left round u.aes) (
            polled-IsEnded (is_zero reads 3 u.aes) [] left round u.aes (
              later-IsEnded round u u.aes good.counted
                (elim busy [ inl b ↦ inl b.aes_busy | inr z ↦ inr z ]) good.aes_ended));
      }

pub start_state-IsGood : (reads : ℕ → ℕ → ℕ) → IsGood reads start_state
unfolding tally
start_state-IsGood reads = record {
  counted = record { starts = refl; clears = refl; runs = refl; last = λ e. refl };
  cleared = refl;
  seen = λ still. absurd (false≢true (sym still));
  rng_ended = λ e. absurd (omega (arith, e));
  sha_ended = λ e. absurd (omega (arith, e));
  pgrnk_ended = λ e. absurd (omega (arith, e));
  aes_ended = λ e. absurd (omega (arith, e));
}
