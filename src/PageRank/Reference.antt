-- ===== src/PageRank/Reference.antt =====
-- One iteration of PageRank by random access, with no streams: each vertex has a run of the edges.
use amorphos_fsrf.Common.{ℕ, zero, suc, ◌+◌, ◌*◌, ◌/◌, ◌%◌, ltb, nonzero, if◌then◌else◌, u64_mod}
use amorphos_fsrf.PageRank.{Array}

-- The exact sum of `n` values of `f` from `k` on.
unfoldable pub sum_from : Array → ℕ → ℕ → ℕ
sum_from f k zero = 0
sum_from f k (suc n) = f k + sum_from f (suc k) n

abbrev pub in_count : Array → ℕ → ℕ
in_count vertices v = vertices (2 * v)

abbrev pub out_count : Array → ℕ → ℕ
out_count vertices v = vertices (2 * v + 1)

-- The first of the edges of vertex `v`: those of the vertices before it come first.
unfoldable pub first_edge : Array → ℕ → ℕ
first_edge vertices zero = 0
first_edge vertices (suc v) = first_edge vertices v + in_count vertices v

-- What the in-neighbours of `v` weigh together.
unfoldable pub in_weight : Array → Array → Array → ℕ → ℕ
in_weight vertices edges inputs v =
    sum_from (λ e. inputs (edges e)) (first_edge vertices v) (in_count vertices v) % u64_mod

-- What `v` gives to each vertex that it points to.
unfoldable pub rank : Array → Array → Array → ℕ → ℕ
rank vertices edges inputs = λ v.
    if nonzero (out_count vertices v)
    then in_weight vertices edges inputs v / out_count vertices v
    else 0

-- The ranks of the first `n` vertices, over what an array held.
unfoldable pub ranks_over : ℕ → Array → Array → Array → Array → Array
ranks_over n vertices edges inputs outputs =
    λ v. if ltb v n then rank vertices edges inputs v else outputs v
