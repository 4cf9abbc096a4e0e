-- ===== src/Graphs/Layout.antt =====
-- Where the parts of the file that matrix2graph.cpp writes stand.
use amorphos_fsrf.Common.{
  ℕ, zero, suc, ◌+◌, ◌*◌, ◌/◌, ◌%◌, ◌<◌, ◌≤◌, ◌≡◌, refl, ◌∙◌, List, [], ◌∷◌, ◌++◌, length, get_or,
  u64_mod, u64_max, get_or-append_right, ◌==◌, if◌then◌else◌, plus_suc, suc_plus, arith,
}
use mathlib.Core.List.{flatten}
use amorphos_fsrf.PageRank.{Array}
use amorphos_fsrf.PageRank.Reference.{sum_from, in_count, first_edge}
use amorphos_fsrf.PageRank.Sums.{sum_from_congr, sum_from_split, sum_from_zero}
use amorphos_fsrf.PageRank.Iteration.{all_edges}
use amorphos_fsrf.Graphs.{
  Degrees, vertex_words, vertex_padding, edge_words, repeat, page_padding, write_graph,
}
use amorphos_fsrf.Graphs.Counting.{IsCounted}

-- The words of a file from word `k` on.
abbrev pub words_from : List ℕ → ℕ → Array
words_from file k = λ i. get_or file (k + i) 0

length-vertex_words : (d : Degrees) (n i : ℕ) → length (vertex_words d n i) ≡ 2 * n
unfolding vertex_words
length-vertex_words d zero i = refl
length-vertex_words d (suc n) i = omega (arith, length-vertex_words d n (suc i))

double_suc : (v : ℕ) → 2 * suc v ≡ suc (suc (2 * v))
double_suc v = omega arith

in_count-vertex_words :
    (d : Degrees) (n i v : ℕ) (rest : List ℕ)
    → v < n
    → get_or (vertex_words d n i ++ rest) (2 * v) 0 ≡ d.num_in_edges (i + v)
unfolding vertex_words
in_count-vertex_words d zero i v rest h = absurd (omega arith)
in_count-vertex_words d (suc n) i zero rest h = ground arith
in_count-vertex_words d (suc n) i (suc v) rest h = ground (
  arith,
  double_suc v,
  plus_suc i v,
  suc_plus i v,
  in_count-vertex_words d n (suc i) v rest (omega arith),
)

in_count-padding :
    (extra n i v : ℕ) (rest : List ℕ)
    → v < n
    → get_or (vertex_padding extra n i ++ rest) (2 * v) 0 ≡ (if i + v == 0 then extra else 0)
unfolding vertex_padding
in_count-padding extra zero i v rest h = absurd (omega arith)
in_count-padding extra (suc n) i zero rest h = ground arith
in_count-padding extra (suc n) i (suc v) rest h =
    ground
      (arith, double_suc v, plus_suc i v, in_count-padding extra n (suc i) v rest (omega arith))

past_vertices :
    (d : Degrees) (n v : ℕ) (rest : List ℕ)
    → get_or (vertex_words d n 0 ++ rest) (2 * (n + v)) 0 ≡ get_or rest (2 * v) 0
past_vertices d n v rest =
    let place : 2 * (n + v) ≡ length (vertex_words d n 0) + 2 * v =
      omega (arith, length-vertex_words d n 0) in
    rw place (get_or-append_right (vertex_words d n 0) rest (2 * v) 0)

padding_total : (extra n : ℕ) → 0 < n → sum_from (λ v. if v == 0 then extra else 0) 0 n ≡ extra
unfolding sum_from
padding_total extra zero h = absurd (omega arith)
padding_total extra (suc n) h =
    ground (arith, sum_from_zero (λ v. if v == 0 then extra else 0) 1 n (λ i h. ground arith))

pub page_padding-pos : (n : ℕ) → 0 < page_padding n
unfolding page_padding
page_padding-pos n = omega arith

pub page_padding_whole : (n : ℕ) → (n + page_padding n) % 8 ≡ 0
unfolding page_padding
page_padding_whole n = omega arith

pub page_padding-le : (n : ℕ) → page_padding n ≤ 512
unfolding page_padding
page_padding-le n = omega arith

zero_plus : (n : ℕ) → 0 + n ≡ n
zero_plus n = omega arith

vertices_total :
    (d : Degrees) (verts : ℕ) (rest : List ℕ)
    → sum_from (in_count (words_from (vertex_words d verts 0 ++ rest) 0)) 0 verts
      ≡ sum_from d.num_in_edges 0 verts
vertices_total d verts rest =
    sum_from_congr _ _ 0 0 verts (λ i h. ground (arith, in_count-vertex_words d verts 0 i rest h))

padding_in_file :
    (d : Degrees) (verts extra n : ℕ) (rest : List ℕ)
    → 0 < n
    → sum_from
        (in_count (words_from (vertex_words d verts 0 ++ (vertex_padding extra n 0 ++ rest)) 0))
        verts
        n
      ≡ extra
padding_in_file d verts extra n rest some_padding =
    sum_from_congr _ (λ v. if v == 0 then extra else 0) verts 0 n
      (λ i h.
        rw (zero_plus (2 * (verts + i)), zero_plus i)
          (past_vertices d verts i (vertex_padding extra n 0 ++ rest)
            ∙ in_count-padding extra n 0 i rest h
            ∙ rw (zero_plus i) refl))
    ∙ padding_total extra n some_padding

count_parts :
    (vertices : Array) (n m a b : ℕ)
    → sum_from (in_count vertices) 0 n ≡ a
    → sum_from (in_count vertices) n m ≡ b
    → first_edge vertices (n + m) ≡ a + b
count_parts vertices n m a b first second =
    ground
      (arith, all_edges vertices (n + m), sum_from_split (in_count vertices) 0 n m, zero_plus n)

-- The vertices of the file, padding included, count all the edges of the file and no more.
pub file_edges :
    (verts edges : ℕ) (d : Degrees)
    → IsCounted verts edges d
    → first_edge (words_from (write_graph verts edges d).file 0) (verts + page_padding verts)
      ≡ edges + page_padding edges
unfolding write_graph flatten
file_edges verts edges d ok =
    let extra = page_padding edges in
    let after = flatten (
      edge_words d.in_edges verts 0
      ∷ repeat extra verts
      ∷ repeat verts (u64_max / verts)
      ∷ repeat (page_padding verts) 0
      ∷ repeat verts 0
      ∷ repeat (page_padding verts) 0
      ∷ []) in
    let body = vertices_total d verts (vertex_padding extra (page_padding verts) 0 ++ after) in
    let padding =
      padding_in_file d verts extra (page_padding verts) after (page_padding-pos verts) in
    count_parts _ verts (page_padding verts) edges extra (body ∙ ok.total) padding

-- The two counts that are printed, when they do not wrap.
pub printed_counts :
    (verts edges : ℕ) (d : Degrees)
    → verts + 512 < u64_mod
    → edges + 512 < u64_mod
    → ((write_graph verts edges d).final_verts ≡ verts + page_padding verts)
      × ((write_graph verts edges d).final_edges ≡ edges + page_padding edges)
unfolding write_graph
printed_counts verts edges d small_verts small_edges =
    (omega (arith, page_padding-le verts), omega (arith, page_padding-le edges))
