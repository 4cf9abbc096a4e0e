-- ===== src/PageRank/Stages.antt =====
-- What each process of pagerank.cpp does with streams that hold what it reads.
use amorphos_fsrf.Common.{
  ℕ, zero, suc, suc_plus, add64, leb, ◌&&◌, ◌+◌, ◌-◌, ◌/◌, ◌%◌, ◌<◌, ◌≡◌, refl, List, [], ◌∷◌, ltb,
  nonzero, if◌then◌else◌, u64_mod, arith,
}
use native.Mathlib.Decide.{dec_le}
use amorphos_fsrf.PageRank.{
  done, starved, read, Array, verts_loop, edges_loop, fetch_weights, sum_loop, sum_weights,
  div_weights, put, write_loop,
}
use amorphos_fsrf.PageRank.Reference.{sum_from, first_edge, in_count, out_count, in_weight}

-- The stream of `n` values of `f` from `i` on.
unfoldable pub stream : Array → ℕ → ℕ → List ℕ
stream f i zero = []
stream f i (suc n) = f i ∷ stream f (suc i) n

pub verts_loop-stream :
    (vertices : Array) (n i : ℕ)
    → verts_loop vertices n i ≡ (stream (in_count vertices) i n, stream (out_count vertices) i n)
unfolding verts_loop stream
verts_loop-stream vertices zero i = refl
verts_loop-stream vertices (suc n) i = rw (verts_loop-stream vertices n (suc i)) refl

pub edges_loop-stream : (edges : Array) (n i : ℕ) → edges_loop edges n i ≡ stream edges i n
unfolding edges_loop stream
edges_loop-stream edges zero i = refl
edges_loop-stream edges (suc n) i = rw (edges_loop-stream edges n (suc i)) refl

pub fetch_weights-stream :
    (weights edges : Array) (n i : ℕ)
    → fetch_weights n weights (stream edges i n) ≡ done (stream (λ e. weights (edges e)) i n)
unfolding fetch_weights stream read
fetch_weights-stream weights edges zero i = refl
fetch_weights-stream weights edges (suc n) i =
    rw (fetch_weights-stream weights edges n (suc i)) refl

-- `n` reads of a stream of `m` values or more leave the rest of it.
sum_loop-stream :
    (w : Array) (n sum i m : ℕ)
    → sum < u64_mod
    → sum_loop n sum (stream w i (n + m))
      ≡ done ((sum + sum_from w i n) % u64_mod, stream w (i + n) m)
unfolding sum_loop sum_from stream read
sum_loop-stream w zero sum i m h = ground arith
sum_loop-stream w (suc n) sum i m h =
    rw (suc_plus n m)
      (ground (arith, sum_loop-stream w n (add64 sum (w i)) (suc i) m (omega arith)))

sum_loop-starved : (w : Array) (n sum i k : ℕ) → k < n → sum_loop n sum (stream w i k) ≡ starved
unfolding sum_loop stream read
sum_loop-starved w zero sum i k h = absurd (omega arith)
sum_loop-starved w (suc n) sum i zero h = refl
sum_loop-starved w (suc n) sum i (suc k) h =
    sum_loop-starved w n (add64 sum (w i)) (suc i) k (omega arith)

-- The counts of `n` vertices from `v` on, with a stream of weights that holds all they count.
pub sum_weights-stream :
    (vertices edges inputs : Array) (n v m : ℕ)
    → sum_weights n (stream (in_count vertices) v n) (
        stream
          (λ e. inputs (edges e))
          (first_edge vertices v)
          (sum_from (in_count vertices) v n + m))
      ≡ done (stream (in_weight vertices edges inputs) v n)
unfolding sum_weights sum_from first_edge stream read in_weight
sum_weights-stream vertices edges inputs zero v m = refl
sum_weights-stream vertices edges inputs (suc n) v m =
    let w = λ (e : ℕ). inputs (edges e) in
    let later = sum_from (in_count vertices) (suc v) n in
    let split : in_count vertices v + later + m ≡ in_count vertices v + (later + m) = omega arith in
    rw
      (
        split,
        sum_loop-stream w (in_count vertices v) 0 (first_edge vertices v) (later + m) (omega arith),
        sum_weights-stream vertices edges inputs n (suc v) m,
      )
      (ground arith)

-- A stream with fewer weights than the counts ask for.
pub sum_weights-starved :
    (w c : Array) (n v i k : ℕ)
    → k < sum_from c v n
    → sum_weights n (stream c v n) (stream w i k) ≡ starved
unfolding sum_weights sum_from stream read
sum_weights-starved w c zero v i k h = absurd (omega arith)
sum_weights-starved w c (suc n) v i k h = elim (dec_le (c v) k) [
  | yes enough ↦
      let left : k ≡ c v + (k - c v) = omega arith in
      rw
        (
          left,
          sum_loop-stream w (c v) 0 i (k - c v) (omega arith),
          sum_weights-starved w c n (suc v) (i + c v) (k - c v) (omega arith),
        )
        refl
  | no few ↦ rw (sum_loop-starved w (c v) 0 i k (omega arith)) refl
]

pub div_weights-stream :
    (w c : Array) (n i : ℕ)
    → div_weights n (stream w i n) (stream c i n)
      ≡ done (stream (λ v. if nonzero (c v) then w v / c v else 0) i n)
unfolding div_weights stream read
div_weights-stream w c zero i = refl
div_weights-stream w c (suc n) i = rw (div_weights-stream w c n (suc i)) refl

-- `mem` with `n` values of `f` written from `i` on.
unfoldable pub written : ℕ → ℕ → Array → Array → Array
written zero i f mem = mem
written (suc n) i f mem = written n (suc i) f (put mem i (f i))

pub write_loop-stream :
    (f mem : Array) (n i : ℕ) → write_loop n i (stream f i n) mem ≡ done (written n i f mem)
unfolding write_loop stream read written
write_loop-stream f mem zero i = refl
write_loop-stream f mem (suc n) i = write_loop-stream f (put mem i (f i)) n (suc i)

pub written-lookup :
    (f mem : Array) (n i j : ℕ)
    → written n i f mem j ≡ (if leb i j && ltb j (i + n) then f j else mem j)
unfolding written
written-lookup f mem zero i j = ground arith
written-lookup f mem (suc n) i j = ground (arith, written-lookup f (put mem i (f i)) n (suc i) j)
