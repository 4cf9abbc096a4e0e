-- ===== src/Examples/Accelerators.antt =====
-- The accelerators of hw/design on concrete inputs.
use amorphos_fsrf.Common.{
  ℕ, ◌+◌, ◌-◌, ◌*◌, ◌%◌, ◌^◌, some, u64_mod, ◌<◌, ◌≤◌, ◌≡◌, ◌⊎◌, length, All, zero, suc, refl, true,
  List, [], ◌∷◌, arith,
}
use amorphos_fsrf.PageRank.{Array, done, starved, put, pgrnk}
use amorphos_fsrf.PageRank.Stages.{stream}
use amorphos_fsrf.Triangles.{triangle}
use amorphos_fsrf.Triangles
use amorphos_fsrf.Triangles.Reference.{triangles}
use amorphos_fsrf.Triangles.Counting.{triangle-triangles}
use amorphos_fsrf.Triangles.Tests.{two_vertices, two_vertices-IsNeighbour}
use amorphos_fsrf.Hll.{
  BucketMeta, Filler, rank_of, fill_one, fill_bucket, accumulate, num_buckets_m,
}
use amorphos_fsrf.Hll.Buckets.{best, fill_bucket-best}
use amorphos_fsrf.Hll.Flaws.{fill_one_lowers}
use amorphos_fsrf.Hll.Merging.{rank_sum, accumulate-exact}
use amorphos_fsrf.PageRank.Reference.{first_edge, ranks_over}
use amorphos_fsrf.PageRank.Iteration.{pgrnk_outcome}
use amorphos_fsrf.Graphs.{
  Line, comment, numbers, Written, matrix2graph, repeat, skip_comments, coordinates,
}
use amorphos_fsrf.Graphs.Drawn.{matrix_file, edge_list}
use amorphos_fsrf.Graphs.Layout.{words_from}
use amorphos_fsrf.Graphs.Conversion.{IsMatrix, matrix2graph-pgrnk}
use amorphos_fsrf.Sha.{initial_state, zero_sums, sha256_transform, sha256_fpga}
use amorphos_fsrf.Sha.Reference.{compress}
use amorphos_fsrf.Sha.Schedule.{AreWords}
use amorphos_fsrf.Sha.Compression.{sha256_transform-compress}
use amorphos_fsrf.Sha.Tests.{abc_block}
use amorphos_fsrf.Sha.Digest.{totals, initial_state-IsState, sha256_fpga-totals}

abc_block-AreWords : AreWords abc_block
abc_block-AreWords = ground arith

sha256_transform-compress_example :
    sha256_transform initial_state abc_block ≡ compress initial_state abc_block
sha256_transform-compress_example =
    sha256_transform-compress initial_state abc_block initial_state-IsState abc_block-AreWords refl

sha256_fpga-totals_example : sha256_fpga (λ i. abc_block) 2 ≡ totals (λ i. abc_block) 2 0 zero_sums
sha256_fpga-totals_example = sha256_fpga-totals (λ i. abc_block) 2 (λ i. (abc_block-AreWords, refl))

-- Eight vertices in a row of edges, each from itself.
abbrev one_each : Array
one_each = λ i. 1

abbrev itself : Array
itself = λ e. e

pgrnk_outcome_example :
    ((first_edge one_each 8 ≤ 8)
      × (pgrnk 8 8 one_each itself itself one_each
          ≡ done (ranks_over 8 one_each itself itself one_each)))
    ⊎ ((8 < first_edge one_each 8) × (pgrnk 8 8 one_each itself itself one_each ≡ starved))
pgrnk_outcome_example = pgrnk_outcome 8 8 one_each itself itself one_each refl refl (omega arith)

-- A matrix of two rows with one entry.
abbrev one_entry : List Line
one_entry = comment ∷ numbers (2 ∷ 2 ∷ 1 ∷ []) ∷ numbers (1 ∷ 2 ∷ []) ∷ []

one_entry-IsMatrix : IsMatrix true one_entry 2 1
unfolding skip_comments coordinates
one_entry-IsMatrix = record {
  more = [];
  body = numbers (1 ∷ 2 ∷ []) ∷ [];
  header = refl;
  some_rows = omega arith;
  some_entries = omega arith;
  complete = omega arith;
  in_range = ((omega arith, omega arith, omega arith, omega arith), tt);
  rows_fit = omega arith;
  edges_fit = omega arith;
}

matrix2graph-pgrnk_example :
    (w : Written) × (matrix2graph true one_entry ≡ done w)
    × (w.file ≡ matrix_file 2 2 (edge_list true 1 one_entry-IsMatrix.body))
    × (first_edge (words_from w.file 0) w.final_verts ≡ w.final_edges)
    × (pgrnk w.final_verts w.final_edges
          (words_from w.file 0)
          (words_from w.file (2 * w.final_verts))
          (words_from w.file (2 * w.final_verts + w.final_edges))
          one_each
        ≡ done (
            ranks_over w.final_verts
              (words_from w.file 0)
              (words_from w.file (2 * w.final_verts))
              (words_from w.file (2 * w.final_verts + w.final_edges))
              one_each))
matrix2graph-pgrnk_example = matrix2graph-pgrnk true one_entry 2 1 one_each one_entry-IsMatrix

-- A filler of empty buckets, as at the start.
abbrev empty_filler : Filler
empty_filler = record {
  buckets = λ b. 0;
  bucket1 = 0;
  bucket2 = 0;
  bucket3 = 0;
  bucket4 = 0;
  rank1 = 0;
  rank2 = 0;
  rank3 = 0;
  rank4 = 0;
}

abbrev item : ℕ → ℕ → BucketMeta
item bucket zeros = record { bucket_num = bucket; num_zeros = zeros; valid = 1; last = 0 }

fill_bucket-best_example :
    (t : Filler) × (fill_bucket 2 (item 7 3 ∷ item 5 1 ∷ []) empty_filler
      ≡ done (stream (λ b. best b (item 7 3 ∷ item 5 1 ∷ []) 0) 0 num_buckets_m, t))
    × ((b : ℕ) → b < num_buckets_m → t.buckets b ≡ 0)
fill_bucket-best_example =
    fill_bucket-best (item 7 3 ∷ item 5 1 ∷ []) empty_filler (λ b. refl)
      (
        omega arith,
        omega arith,
        omega arith,
        omega arith,
        (omega arith, omega arith, omega arith, omega arith, tt),
      )

-- The filler once bucket 7 holds rank 4 and another bucket got rank 1.
abbrev filled : Filler
filled = record empty_filler { buckets = put (λ b. 0) 7 4; bucket1 = 5; rank1 = 1 }

fill_one_lowers_example :
    (fill_one (item 7 2) (fill_one (item 7 0) filled)).buckets 7 ≡ rank_of (item 7 2)
unfolding rank_of
fill_one_lowers_example =
    fill_one_lowers (item 7 0) (item 7 2) filled (omega arith) (omega arith) (omega arith)
      (omega arith) refl (omega arith) (omega arith) (omega arith)

length-repeat : (n x : ℕ) → length (repeat n x) ≡ n
unfolding repeat
length-repeat zero x = refl
length-repeat (suc n) x = omega (arith, length-repeat n x)

All-repeat : (n x : ℕ) → x ≤ 17 → All (λ r. r ≤ 17) (repeat n x)
unfolding repeat
All-repeat zero x h = tt
All-repeat (suc n) x h = (h, All-repeat n x h)

accumulate-exact_example :
    ((rank_sum (repeat num_buckets_m 1) < 2 ^ 33)
      × (accumulate (λ n. n) (repeat num_buckets_m 1) ≡ done (rank_sum (repeat num_buckets_m 1))))
    ⊎ (All (λ r. r ≡ 0) (repeat num_buckets_m 1)
        × (rank_sum (repeat num_buckets_m 1) ≡ 2 ^ 33)
        × (accumulate (λ n. n) (repeat num_buckets_m 1) ≡ done (2 ^ 33 - 1)))
accumulate-exact_example =
    accumulate-exact (λ n. n) (repeat num_buckets_m 1) (length-repeat num_buckets_m 1)
      (All-repeat num_buckets_m 1 (omega arith))

triangle-triangles_example :
    (ret : Triangles.Ret) × (triangle two_vertices two_vertices two_vertices 1 ≡ some ret)
    × (ret.num_tris ≡ triangles two_vertices two_vertices two_vertices 0 0 4 % u64_mod)
triangle-triangles_example =
    triangle-triangles two_vertices two_vertices two_vertices 1 (omega arith)
      two_vertices-IsNeighbour
