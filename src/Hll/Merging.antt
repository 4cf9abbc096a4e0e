-- ===== src/Hll/Merging.antt =====
-- The sum of the buckets is exact, and saturates only when all of them are empty.
use amorphos_fsrf.Common.{
  ℕ, zero, suc, ◌+◌, ◌-◌, ◌*◌, ◌<◌, ◌≤◌, ◌^◌, ◌≡◌, ◌⊎◌, inl, inr, true, refl, ◌∙◌, ap, List, [],
  ◌∷◌, length, All, leb, if◌then◌else◌, arith,
}
use Prim.Native.Nat.{min}
use native.Mathlib.Nat.{pow-le-pow_right}
use amorphos_fsrf.PageRank.{done, read, ◌>>=◌}
use amorphos_fsrf.Hll.{accumulate, accumulate_loop, accu_max, num_buckets_m, bucket_bits}

-- The exact sum of 2^-rank, in units of 2^-17.
unfoldable pub rank_sum : List ℕ → ℕ
rank_sum [] = 0
rank_sum (rank ∷ rest) = 2 ^ (17 - rank) + rank_sum rest

accumulate_loop-min :
    (ranks : List ℕ) (sum : ℕ)
    → All (λ r. r ≤ 17) ranks
    → sum ≤ accu_max
    → accumulate_loop (length ranks) ranks sum ≡ done (min (sum + rank_sum ranks) accu_max)
unfolding accumulate_loop rank_sum read
accumulate_loop-min [] sum fit small = ap done (omega arith)
accumulate_loop-min (rank ∷ rest) sum (h, fit) small =
    let next = sum + 2 ^ (17 - rank) in
    let within : leb rank 17 ≡ true = ground arith in
    let step : (if leb next accu_max then next else accu_max) ≡ min next accu_max = ground arith in
    rw (within, step)
      (accumulate_loop-min rest (min next accu_max) fit (omega arith) ∙ ap done (omega arith))

-- A bucket adds at most 1, and less than 1 unless it is empty.
term-le : (r : ℕ) → 2 ^ (17 - r) ≤ 2 ^ 17
term-le r = pow-le-pow_right {n = 2} (omega arith) {j = 17} (omega arith)

sum-le : (ranks : List ℕ) → rank_sum ranks ≤ length ranks * 2 ^ 17
unfolding rank_sum
sum-le [] = omega arith
sum-le (r ∷ rest) = omega (arith, term-le r, sum-le rest)

sum_full :
    (ranks : List ℕ)
    → (rank_sum ranks < length ranks * 2 ^ 17)
      ⊎ (All (λ r. r ≡ 0) ranks × (rank_sum ranks ≡ length ranks * 2 ^ 17))
unfolding rank_sum
sum_full [] = inr (tt, refl)
sum_full (zero ∷ rest) = elim (sum_full rest) [
  | inl less ↦ inl (omega (arith, less))
  | inr (empty, full) ↦ inr ((refl, empty), omega (arith, full))
]
sum_full (suc r ∷ rest) =
    let half : 2 ^ (17 - suc r) ≤ 2 ^ 16 =
      pow-le-pow_right {n = 2} (omega arith) {j = 16} (omega arith) in
    inl (omega (arith, half, sum-le rest))

buckets_number : num_buckets_m ≡ 65536
unfolding num_buckets_m bucket_bits
buckets_number = refl

-- For one rank of at most 17 from each bucket, `accumulate` returns, and converts one sum to a float:
-- the exact sum of 2^-rank, in units of 2^-17, unless every bucket is empty; then that would be 2^33
-- units, and it converts one unit less.
pub accumulate-exact {ℓ} :
    {F : Type ℓ} (to_float : ℕ → F) (ranks : List ℕ)
    → length ranks ≡ num_buckets_m
    → All (λ r. r ≤ 17) ranks
    → ((rank_sum ranks < 2 ^ 33) × (accumulate to_float ranks ≡ done (to_float (rank_sum ranks))))
      ⊎ (All (λ r. r ≡ 0) ranks
          × (rank_sum ranks ≡ 2 ^ 33)
          × (accumulate to_float ranks ≡ done (to_float (2 ^ 33 - 1))))
unfolding accumulate
accumulate-exact to_float ranks size fit =
    let sum : accumulate_loop num_buckets_m ranks 0 ≡ done (min (0 + rank_sum ranks) accu_max) =
      rw size at (accumulate_loop-min ranks 0 fit (omega arith)) in
    let float : accumulate to_float ranks ≡ done (to_float (min (0 + rank_sum ranks) accu_max)) =
      ap (λ o. o >>= λ summation. done (to_float summation)) sum in
    elim (sum_full ranks) [
      | inl less ↦ inl (
        omega (arith, less, size, buckets_number),
        float ∙ ap (λ n. done (to_float n)) (omega (arith, less, size, buckets_number)),
      )
      | inr (empty, full) ↦ inr (
        empty,
        omega (arith, full, size, buckets_number),
        float ∙ ap (λ n. done (to_float n)) (omega (arith, full, size, buckets_number)),
      )
    ]
