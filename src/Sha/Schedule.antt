-- ===== src/Sha/Schedule.antt =====
-- The sixteen words that the digester shifts are a window on the message schedule.
use amorphos_fsrf.Common.{
  ℕ, zero, suc, ◌+◌, ◌%◌, ◌^◌, ◌<◌, ◌≡◌, refl, ◌∙◌, List, [], ◌∷◌, ◌++◌, length, drop, get_or-drop,
  get_or-append_left, length-append, All, All-append, All-get_or, arith,
}
use native.Mathlib.Numerals.{unary_clauses}
use amorphos_fsrf.Sha.{word, shift_in, s0, s1}
use amorphos_fsrf.Sha.Logic.{s0-small_sigma0, s1-small_sigma1}
use amorphos_fsrf.Sha.Reference.{schedule, next_word}

-- Every item is a 32-bit word.
abbrev pub AreWords : List ℕ → Type 0
AreWords ws = All (λ w. w < 2 ^ 32) ws

pub length-schedule : (block : List ℕ) (n : ℕ) → length (schedule block n) ≡ length block + n
unfolding schedule
length-schedule block zero = omega arith
length-schedule block (suc n) = simp length-append (omega (arith, length-schedule block n))

next_word-lt : (ws : List ℕ) (n : ℕ) → next_word ws n < 2 ^ 32
unfolding next_word
next_word-lt ws n = omega arith

pub schedule-AreWords : (block : List ℕ) (n : ℕ) → AreWords block → AreWords (schedule block n)
unfolding schedule
schedule-AreWords block zero h = h
schedule-AreWords block (suc n) h =
    All-append _ (schedule block n) _ (schedule-AreWords block n h) (next_word-lt _ n, tt)

pub word-lt : (ws : List ℕ) (i : ℕ) → AreWords ws → word ws i < 2 ^ 32
word-lt ws i h = All-get_or (λ w. w < 2 ^ 32) ws i 0 h (omega arith)

-- Words of the schedule do not change as it grows.
pub word_stable :
    (block : List ℕ) (n k i : ℕ)
    → i < length block + n
    → word (schedule block (n + k)) i ≡ word (schedule block n) i
unfolding schedule
word_stable block n zero i h = simp unary_clauses refl
word_stable block n (suc k) i h =
    let ws = schedule block (n + k) in
    let inside : i < length ws = omega (arith, length-schedule block (n + k)) in
    simp unary_clauses
      (get_or-append_left ws (next_word ws (n + k) ∷ []) i 0 inside ∙ word_stable block n k i h)

-- Words `n` and up of the schedule once it has grown by `n`.
unfoldable pub window : List ℕ → ℕ → List ℕ
window block n = drop n (schedule block n)

drop-shift_in :
    (n : ℕ) (ws : List ℕ) (x : ℕ)
    → n < length ws
    → drop (suc n) (ws ++ x ∷ []) ≡ shift_in (drop n ws) x
drop-shift_in n [] x h = absurd (omega arith)
drop-shift_in zero (w ∷ ws) x h = refl
drop-shift_in (suc n) (w ∷ ws) x h = drop-shift_in n ws x (omega arith)

pub word-window :
    (block : List ℕ) (n i : ℕ) → word (window block n) i ≡ word (schedule block n) (n + i)
unfolding window
word-window block n i = get_or-drop n i (schedule block n) 0

-- The new word of the digester is the next one of the schedule.
pub window_step :
    (block : List ℕ) (n : ℕ)
    → AreWords block
    → 0 < length block
    → shift_in (window block n) (
        (s1 (word (window block n) 14)
          + word (window block n) 9
          + s0 (word (window block n) 1)
          + word (window block n) 0)
        % 2 ^ 32)
      ≡ window block (suc n)
unfolding window schedule next_word
window_step block n words some_word =
    let ws = schedule block n in
    let bound = λ (i : ℕ). word-lt ws i (schedule-AreWords block n words) in
    rw
      (
        word-window block n 14,
        word-window block n 9,
        word-window block n 1,
        word-window block n 0,
        s1-small_sigma1 (word ws (n + 14)) (bound (n + 14)),
        s0-small_sigma0 (word ws (n + 1)) (bound (n + 1)),
        drop-shift_in n ws (next_word ws n) (omega (arith, length-schedule block n)),
      )
      (simp unary_clauses refl)
