-- ===== src/PageRank/Sums.antt =====
-- Sums of runs of an array.
use amorphos_fsrf.Common.{ℕ, zero, suc, ◌+◌, ◌<◌, ◌≤◌, ◌≡◌, refl, arith, suc_plus, plus_suc}
use native.Mathlib.Decide.{dec_lt}
use amorphos_fsrf.PageRank.{Array, put}
use amorphos_fsrf.PageRank.Reference.{sum_from}

pub sum_from_congr :
    (f g : Array) (k j n : ℕ)
    → ((i : ℕ) → i < n → f (k + i) ≡ g (j + i))
    → sum_from f k n ≡ sum_from g j n
unfolding sum_from
sum_from_congr f g k j zero same = refl
sum_from_congr f g k j (suc n) same = ground (
  arith,
  same 0 (omega arith),
  sum_from_congr f g (suc k) (suc j) n
      (λ i h. ground (arith, same (suc i) (omega arith), plus_suc k i, plus_suc j i)),
)

pub sum_from_split :
    (f : Array) (k n m : ℕ) → sum_from f k (n + m) ≡ sum_from f k n + sum_from f (k + n) m
unfolding sum_from
sum_from_split f k zero m = ground arith
sum_from_split f k (suc n) m =
    ground (arith, suc_plus n m, plus_suc k n, sum_from_split f (suc k) n m)

pub sum_from_zero : (f : Array) (k n : ℕ) → ((i : ℕ) → i < n → f (k + i) ≡ 0) → sum_from f k n ≡ 0
unfolding sum_from
sum_from_zero f k zero none_left = refl
sum_from_zero f k (suc n) none_left = ground (
  arith,
  none_left 0 (omega arith),
  sum_from_zero f (suc k) n (λ i h. ground (arith, none_left (suc i) (omega arith), plus_suc k i)),
)

-- A value in the run is a part of its sum.
pub le-sum_from : (f : Array) (k n j : ℕ) → k ≤ j → j < k + n → f j ≤ sum_from f k n
unfolding sum_from
le-sum_from f k zero j low high = absurd (omega arith)
le-sum_from f k (suc n) j low high = elim (dec_lt k j) [
  | yes later ↦ omega (arith, le-sum_from f (suc k) n j (omega arith) (omega arith))
  | no here ↦ ground arith
]

sum_from-put_before : (f : Array) (k n j x : ℕ) → j < k → sum_from (put f j x) k n ≡ sum_from f k n
unfolding sum_from
sum_from-put_before f k zero j x before = refl
sum_from-put_before f k (suc n) j x before =
    ground (arith, sum_from-put_before f (suc k) n j x (omega arith))

-- A write into the run replaces what was there in the sum.
pub sum_from-put :
    (f : Array) (k n j x : ℕ)
    → k ≤ j
    → j < k + n
    → sum_from (put f j x) k n + f j ≡ sum_from f k n + x
unfolding sum_from
sum_from-put f k zero j x low high = absurd (omega arith)
sum_from-put f k (suc n) j x low high = elim (dec_lt k j) [
  | yes later ↦ ground (arith, sum_from-put f (suc k) n j x (omega arith) (omega arith))
  | no here ↦ ground (arith, sum_from-put_before f (suc k) n j x (omega arith))
]
