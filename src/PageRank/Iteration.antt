-- ===== src/PageRank/Iteration.antt =====
-- A run of `pgrnk` from its arrays to its outcome.
use amorphos_fsrf.Common.{
  ℕ, zero, suc, ◌+◌, ◌-◌, ◌%◌, ◌<◌, ◌≤◌, ◌≡◌, refl, ◌∙◌, ap, fun_ext, plus_suc, ◌⊎◌, inl, inr,
  arith,
}
use native.Mathlib.Decide.{dec_lt}
use amorphos_fsrf.PageRank.{
  done, starved, ◌>>=◌, Array, fetch_verts, fetch_edges, write_weights, sum_weights, div_weights,
  pgrnk,
}
use amorphos_fsrf.PageRank.Reference.{
  sum_from, first_edge, in_count, out_count, in_weight, rank, ranks_over,
}
use amorphos_fsrf.PageRank.Stages.{
  stream, verts_loop-stream, edges_loop-stream, fetch_weights-stream, sum_weights-stream,
  sum_weights-starved, div_weights-stream, write_loop-stream, written-lookup,
}

-- The counts of `n` vertices from `v` on lead from the first edge of `v` to that of `v + n`.
first_edge_lem :
    (vertices : Array) (n v : ℕ)
    → first_edge vertices v + sum_from (in_count vertices) v n ≡ first_edge vertices (v + n)
unfolding first_edge sum_from
first_edge_lem vertices zero v = ground arith
first_edge_lem vertices (suc n) v = ground (arith, first_edge_lem vertices n (suc v), plus_suc v n)

pub all_edges :
    (vertices : Array) (n : ℕ) → sum_from (in_count vertices) 0 n ≡ first_edge vertices n
unfolding first_edge
all_edges vertices n = ground (arith, first_edge_lem vertices n 0)

-- Both processes that fetch do so, and the weights are streamed in the order of the edges.
pgrnk_fetched :
    (n m : ℕ) (vertices edges inputs outputs : Array)
    → n % 8 ≡ 0
    → m % 8 ≡ 0
    → pgrnk n m vertices edges inputs outputs ≡ (
        sum_weights n (stream (in_count vertices) 0 n) (stream (λ e. inputs (edges e)) 0 m)
        >>= λ weights. div_weights n weights (stream (out_count vertices) 0 n) >>= λ out_weights.
            write_weights n out_weights outputs)
unfolding pgrnk fetch_verts fetch_edges
pgrnk_fetched n m vertices edges inputs outputs hn hm =
    rw
      (
        hn,
        hm,
        verts_loop-stream vertices n 0,
        edges_loop-stream edges m 0,
        fetch_weights-stream inputs edges m 0,
      )
      refl

-- Enough edges: the processes meet no empty stream.
pub pgrnk-ranks :
    (n m : ℕ) (vertices edges inputs outputs : Array)
    → n % 8 ≡ 0
    → m % 8 ≡ 0
    → first_edge vertices n ≤ m
    → pgrnk n m vertices edges inputs outputs ≡ done (ranks_over n vertices edges inputs outputs)
unfolding write_weights first_edge ranks_over rank
pgrnk-ranks n m vertices edges inputs outputs hn hm enough =
    let split : m ≡ sum_from (in_count vertices) 0 n + (m - first_edge vertices n) =
      omega (arith, all_edges vertices n) in
    rw
      (
        pgrnk_fetched n m vertices edges inputs outputs hn hm,
        split,
        sum_weights-stream vertices edges inputs n 0 (m - first_edge vertices n),
        div_weights-stream (in_weight vertices edges inputs) (out_count vertices) n 0,
        hn,
        write_loop-stream (rank vertices edges inputs) outputs n 0,
      )
      (ap done
        (fun_ext λ v. written-lookup (rank vertices edges inputs) outputs n 0 v ∙ ground arith))

starves :
    (n m : ℕ) (vertices edges inputs outputs : Array)
    → n % 8 ≡ 0
    → m % 8 ≡ 0
    → m < first_edge vertices n
    → pgrnk n m vertices edges inputs outputs ≡ starved
starves n m vertices edges inputs outputs hn hm short =
    rw
      (
        pgrnk_fetched n m vertices edges inputs outputs hn hm,
        sum_weights-starved (λ e. inputs (edges e)) (in_count vertices) n 0 0 m
            (omega (arith, all_edges vertices n)),
      )
      refl

-- For counts of vertices and edges that are multiples of 8, and at most 32 edges, which the streams
-- hold, more than the vertices count in-edges: with at least as many edges as they count, `pgrnk`
-- finishes, and leaves in `outputs` for each vertex the sum modulo 2^64 of the weights of its
-- in-neighbours divided by its count of out-edges, or 0 if that count is 0, the array past the vertices
-- being as before; with fewer edges it never finishes, since the summing process reads a stream that
-- nothing more is written to.
pub pgrnk_outcome :
    (n m : ℕ) (vertices edges inputs outputs : Array)
    → n % 8 ≡ 0
    → m % 8 ≡ 0
    → m ≤ first_edge vertices n + 32
    → ((first_edge vertices n ≤ m)
        × (pgrnk n m vertices edges inputs outputs
            ≡ done (ranks_over n vertices edges inputs outputs)))
      ⊎ ((m < first_edge vertices n) × (pgrnk n m vertices edges inputs outputs ≡ starved))
pgrnk_outcome n m vertices edges inputs outputs hn hm surplus =
    elim (dec_lt m (first_edge vertices n)) [
      | yes short ↦ inr (short, starves n m vertices edges inputs outputs hn hm short)
      | no enough ↦
          inl (omega arith, pgrnk-ranks n m vertices edges inputs outputs hn hm (omega arith))
    ]
