-- ===== src/Triangles/Tests.antt =====
-- The graph of hw/design/hls_tri/src/test_tri.cpp, and one of two vertices in one wide word.
use amorphos_fsrf.Common.{
  ℕ, zero, suc, ◌*◌, ◌<◌, ◌≡◌, refl, inl, inr, some, List, [], ◌∷◌, get_or, u64_max, arith,
}
use amorphos_fsrf.PageRank.{Array}
use amorphos_fsrf.Triangles.{
  ◌>>=◌, triangle, first_blocks, first_words, first_item, second_blocks, second_words, second_item,
  third_blocks, match_words, request, request_short, no_reqs,
}
use amorphos_fsrf.Triangles.Reference.{triangles, corners, linked}
use amorphos_fsrf.Triangles.Counting.{IsNeighbour}

abbrev words : List ℕ → Array
words ws = λ i. get_or ws i u64_max

abbrev test_graph : Array
test_graph = words (
    8 ∷ 10 ∷ 12 ∷ 18 ∷ 24 ∷ 30 ∷ u64_max ∷ u64_max ∷ 0 ∷ 6 ∷ u64_max ∷ u64_max ∷ 0 ∷ 6 ∷ 20 ∷ 22
    ∷ 24 ∷ 30 ∷ u64_max ∷ u64_max ∷ 12 ∷ 18 ∷ u64_max ∷ u64_max ∷ 0 ∷ 6 ∷ 12 ∷ 18 ∷ 32 ∷ 34
    ∷ u64_max ∷ u64_max ∷ 24 ∷ 30 ∷ [])

-- Both count its one triangle, over five wide words.
test_counted : (triangle test_graph test_graph test_graph 5 >>= λ r. some r.num_tris) ≡ some 1
unfolding triangle first_blocks first_words first_item second_blocks second_words second_item
    third_blocks match_words request request_short no_reqs
test_counted = refl

test_walked : triangles test_graph test_graph test_graph 0 0 20 ≡ 1
unfolding triangles corners linked
test_walked = refl

-- Two vertices, each the neighbour of the other.
abbrev pub two_vertices : Array
two_vertices = words (4 ∷ 6 ∷ u64_max ∷ u64_max ∷ 0 ∷ 2 ∷ [])

pub two_vertices-IsNeighbour :
    (p : ℕ) → p < 4 * 1 → IsNeighbour two_vertices two_vertices two_vertices p
two_vertices-IsNeighbour zero h = inr (
  (refl, refl, omega arith, omega arith),
  λ q lo hi. let only : q ≡ 2 = omega arith in rw only (refl, refl, omega arith, omega arith),
)
two_vertices-IsNeighbour (suc zero) h = inl refl
two_vertices-IsNeighbour (suc (suc zero)) h = inr (
  (refl, refl, omega arith, omega arith),
  λ q lo hi. let only : q ≡ 0 = omega arith in rw only (refl, refl, omega arith, omega arith),
)
two_vertices-IsNeighbour (suc (suc (suc zero))) h = inl refl
two_vertices-IsNeighbour (suc (suc (suc (suc p)))) h = absurd (omega arith)
