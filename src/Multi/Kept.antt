-- ===== src/Multi/Kept.antt =====
-- How a start and a check change the counts of one application.
use amorphos_fsrf.Common.{
  ℕ, ◌+◌, ◌<◌, ◌≡◌, refl, Bool, true, false, Option, none, some, List, [], ◌∷◌, ◌++◌, ◌&&◌, ◌==◌,
  if◌then◌else◌, arith, Bool-cases, ==_iff, inl, inr,
}
use amorphos_fsrf.Client.{
  Call, aos_cntrlreg_read, aos_cntrlreg_write, aos_file_open, aos_file_close, aos_mmap, aos_munmap,
  aos_msync, aos_set_mode,
}
use amorphos_fsrf.Multi.{
  Slot, start_slot, check_pgrnk, has_bit, pgrnk_app, command_run, command_clear,
}
use amorphos_fsrf.Multi.Slots.{polled, polled_done, check_pgrnk_done}

-- How often a value was written to the control register.
unfoldable pub tally : ℕ → List Call → ℕ
tally v [] = 0
tally v (aos_cntrlreg_write reg w ∷ calls) =
    (if (reg == 0) && (w == v) then 1 else 0) + tally v calls
tally v (_ ∷ calls) = tally v calls

pub tally-append : (v : ℕ) (xs ys : List Call) → tally v (xs ++ ys) ≡ tally v xs + tally v ys
unfolding tally
tally-append v [] ys = omega arith
tally-append v (aos_cntrlreg_write reg w ∷ xs) ys = omega (arith, tally-append v xs ys)
tally-append v (aos_cntrlreg_read reg ∷ xs) ys = tally-append v xs ys
tally-append v (aos_file_open path ∷ xs) ys = tally-append v xs ys
tally-append v (aos_file_close fd ∷ xs) ys = tally-append v xs ys
tally-append v (aos_mmap addr length prot flags fd offset ∷ xs) ys = tally-append v xs ys
tally-append v (aos_munmap addr length ∷ xs) ys = tally-append v xs ys
tally-append v (aos_msync addr length flags ∷ xs) ys = tally-append v xs ys
tally-append v (aos_set_mode mode data_ ∷ xs) ys = tally-append v xs ys

abbrev pub is_set : Option ℕ → Bool
is_set none = false
is_set (some t) = true

abbrev pub running : Slot → ℕ
running s = if s.done then 0 else 1

-- A run of PageRank is counted when it is seen done.
pub record IsCounted (runs_left : ℕ) (s : Slot) : Type 0 where
  pub starts : tally 1 s.sent + runs_left ≡ 25 + running s
  pub clears : tally 16 s.sent + runs_left ≡ 25
  pub runs : s.runs ≡ tally 1 s.sent
  pub last : runs_left ≡ 0 → s.done ≡ true

abbrev pub IsCleared : Slot → Type 0
IsCleared s = tally 1 s.sent ≡ tally 16 s.sent + running s

-- Once no run is left, an application that is done has its end.
abbrev pub IsEnded : ℕ → Slot → Type 0
IsEnded runs_left s = runs_left ≡ 0 → s.done ≡ true → is_set s.ended ≡ true

pub start-IsCounted :
    (runs_left : ℕ) (s : Slot)
    → 0 < runs_left
    → IsCounted runs_left s
    → IsCounted runs_left (start_slot command_run s)
unfolding start_slot tally
start-IsCounted runs_left s some_left c =
    ground (arith, tally-append 1 s.sent command_run, tally-append 16 s.sent command_run)

pub check-IsCounted :
    (reads : ℕ → ℕ → ℕ) (round runs_left : ℕ) (s : Slot)
    → IsCounted runs_left s
    → IsCounted (check_pgrnk reads round s runs_left).1 (check_pgrnk reads round s runs_left).0
unfolding check_pgrnk tally
check-IsCounted reads round runs_left s c = elim (Bool-cases s.done) [
  | inl done ↦ rw (check_pgrnk_done reads round s runs_left done) c
  | inr going ↦ elim (Bool-cases (has_bit reads pgrnk_app s)) [
    | inl shown ↦
        rw (going, shown)
          (ground (
            arith,
            going,
            tally-append 1 s.sent command_clear,
            tally-append 16 s.sent command_clear,
          ))
    | inr not_shown ↦ rw (going, not_shown) (ground (arith, going))
  ]
]

pub start-IsCleared : (s : Slot) → IsCleared s → IsCleared (start_slot command_run s)
unfolding start_slot tally
start-IsCleared s c =
    ground (arith, tally-append 1 s.sent command_run, tally-append 16 s.sent command_run)

pub polled-IsCleared :
    (ok : Bool) (runs_left round : ℕ) (s : Slot)
    → IsCleared s
    → IsCleared (polled ok command_clear runs_left round s)
unfolding polled tally
polled-IsCleared ok runs_left round s c = elim (Bool-cases s.done) [
  | inl done ↦ rw (polled_done ok command_clear runs_left round s done) c
  | inr going ↦ rw going (
      ground
        (arith, going, tally-append 1 s.sent command_clear, tally-append 16 s.sent command_clear))
]

pub polled-IsEnded :
    (ok : Bool) (commands : List Call) (runs_left round : ℕ) (s : Slot)
    → IsEnded runs_left s
    → IsEnded runs_left (polled ok commands runs_left round s)
unfolding polled
polled-IsEnded ok commands runs_left round s e = ground (arith, e)

pub check_pgrnk-IsEnded :
    (reads : ℕ → ℕ → ℕ) (round runs_left : ℕ) (s : Slot)
    → IsEnded runs_left s
    → IsEnded (check_pgrnk reads round s runs_left).1 (check_pgrnk reads round s runs_left).0
unfolding check_pgrnk
check_pgrnk-IsEnded reads round runs_left s e = elim (Bool-cases s.done) [
  | inl done ↦ rw (check_pgrnk_done reads round s runs_left done) e
  | inr going ↦ elim (Bool-cases (has_bit reads pgrnk_app s)) [
    | inl shown ↦ rw (going, shown) (λ none_left done. rw ((==_iff _ 0).1 none_left) refl)
    | inr not_shown ↦ rw (going, not_shown) (λ none_left done. absurd (ground (arith, going, done)))
  ]
]
