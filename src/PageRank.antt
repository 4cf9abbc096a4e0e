-- ===== src/PageRank.antt =====
-- The PageRank accelerator: hw/design/hls_pgrnk/src/pagerank.cpp.  Its six processes are connected
-- by streams; a stream is the list of the values written and not yet read, so the result is that of
-- any schedule in which the processes finish.  A failed `assert` aborts, and a read that no write
-- will ever answer starves.  The four arrays are apart from each other.  The depth of the streams,
-- 32, is not modelled: in the source `fetch_weights` never finishes where more than 32 of its weights
-- are left unread.
pub mod Reference
pub mod Sums
pub mod Stages
pub mod Iteration
use amorphos_fsrf.Common.{
  ℕ, zero, suc, ◌+◌, ◌*◌, ◌/◌, ◌%◌, Bool, List, [], ◌∷◌, add64, ◌==◌, nonzero, if◌then◌else◌,
}

pub data Outcome {ℓ} (A : Type ℓ) : Type ℓ where
  done : A → Outcome A
  aborted : Outcome A
  starved : Outcome A

infixl 1 ◌>>=◌
abbrev pub ◌>>=◌ {ℓ κ} : {A : Type ℓ} {B : Type κ} → Outcome A → (A → Outcome B) → Outcome B
done a >>= f = f a
aborted >>= f = aborted
starved >>= f = starved

abbrev pub assert : Bool → Outcome {0} Unit
assert c = if c then done tt else aborted

-- A read of a stream: the value, and the stream after it.
unfoldable pub read : List ℕ → Outcome (ℕ × List ℕ)
read [] = starved
read (x ∷ rest) = done (x, rest)

-- An array of `uint64_t`.
abbrev pub Array : Type 0
Array = ℕ → ℕ

-- A 128-bit vertex `i` is words `2 i` and `2 i + 1`.
pub verts_loop : Array → ℕ → ℕ → List ℕ × List ℕ
verts_loop vertices zero i = ([], [])
verts_loop vertices (suc n) i =
    let (ie_counts, oe_counts) = verts_loop vertices n (suc i) in
    (vertices (2 * i) ∷ ie_counts, vertices (2 * i + 1) ∷ oe_counts)

pub fetch_verts : ℕ → Array → Outcome (List ℕ × List ℕ)
fetch_verts num_verts vertices =
    assert (num_verts % 8 == 0) >>= λ _. done (verts_loop vertices num_verts 0)

pub edges_loop : Array → ℕ → ℕ → List ℕ
edges_loop edges zero i = []
edges_loop edges (suc n) i = edges i ∷ edges_loop edges n (suc i)

pub fetch_edges : ℕ → Array → Outcome (List ℕ)
fetch_edges num_edges edges =
    assert (num_edges % 8 == 0) >>= λ _. done (edges_loop edges num_edges 0)

pub fetch_weights : ℕ → Array → List ℕ → Outcome (List ℕ)
fetch_weights zero weights in_edges = done []
fetch_weights (suc n) weights in_edges = read in_edges >>= λ (index, rest).
    fetch_weights n weights rest >>= λ in_weights. done (weights index ∷ in_weights)

-- The inner loop of `sum_weights`: `n` reads added to `sum`, and the stream after them.
pub sum_loop : ℕ → ℕ → List ℕ → Outcome (ℕ × List ℕ)
sum_loop zero sum in_weights = done (sum, in_weights)
sum_loop (suc n) sum in_weights =
    read in_weights >>= λ (weight, rest). sum_loop n (add64 sum weight) rest

pub sum_weights : ℕ → List ℕ → List ℕ → Outcome (List ℕ)
sum_weights zero ie_counts in_weights = done []
sum_weights (suc n) ie_counts in_weights = read ie_counts >>= λ (num_edges, counts).
    sum_loop num_edges 0 in_weights >>= λ (sum, rest).
    sum_weights n counts rest >>= λ weights. done (sum ∷ weights)

pub div_weights : ℕ → List ℕ → List ℕ → Outcome (List ℕ)
div_weights zero weights oe_counts = done []
div_weights (suc n) weights oe_counts = read weights >>= λ (weight, weights').
    read oe_counts >>= λ (oe_count, counts). div_weights n weights' counts >>= λ out_weights.
    done ((if nonzero oe_count then weight / oe_count else 0) ∷ out_weights)

abbrev pub put : Array → ℕ → ℕ → Array
put a i v = λ j. if j == i then v else a j

pub write_loop : ℕ → ℕ → List ℕ → Array → Outcome Array
write_loop zero i out_weights weights = done weights
write_loop (suc n) i out_weights weights =
    read out_weights >>= λ (weight, rest). write_loop n (suc i) rest (put weights i weight)

pub write_weights : ℕ → List ℕ → Array → Outcome Array
write_weights num_verts out_weights weights =
    assert (num_verts % 8 == 0) >>= λ _. write_loop num_verts 0 out_weights weights

-- The array `outputs` after a run.
pub pgrnk : ℕ → ℕ → Array → Array → Array → Array → Outcome Array
pgrnk num_verts num_edges vertices edges inputs outputs =
    fetch_verts num_verts vertices >>= λ (ie_counts, oe_counts).
    fetch_edges num_edges edges >>= λ in_edges.
    fetch_weights num_edges inputs in_edges >>= λ in_weights.
    sum_weights num_verts ie_counts in_weights >>= λ weights.
    div_weights num_verts weights oe_counts >>= λ out_weights.
    write_weights num_verts out_weights outputs
