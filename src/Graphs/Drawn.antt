-- ===== src/Graphs/Drawn.antt =====
-- The file that matrix2graph.cpp is to write: for the list of the edges of a matrix, the counts of each
-- vertex, the sources of its edges, and equal ranks.
use amorphos_fsrf.Common.{
  ℕ, zero, suc, ◌+◌, ◌-◌, ◌/◌, ◌%◌, ◌<◌, ◌≤◌, ◌≡◌, refl, sym, ◌∙◌, ap, Bool, true, false,
  Bool-cases, inl, inr, List, [], ◌∷◌, ◌++◌, length, All, add64, sub64, u64_mod, u64_max, ◌==◌,
  if◌then◌else◌, arith,
}
use mathlib.Core.List.{flatten}
use amorphos_fsrf.PageRank.{Outcome, done, aborted, starved, put}
use amorphos_fsrf.Graphs.{
  Line, coordinates, Degrees, no_edges, add_edge, read_entries, vertex_words, vertex_padding,
  edge_words, repeat, page_padding, write_graph,
}
use amorphos_fsrf.Graphs.Counting.{IsEntry, enter, read_entry_lem}

-- The edges of the first `n` entries, each followed by its mirror image in a symmetric matrix.
unfoldable pub edge_list : Bool → ℕ → List Line → List (ℕ × ℕ)
edge_list symmetric zero lines = []
edge_list symmetric (suc n) [] = []
edge_list symmetric (suc n) (line ∷ rest) =
    let src = (coordinates line).0 - 1 in
    let dst = (coordinates line).1 - 1 in
    let later = edge_list symmetric n rest in
    if symmetric then (src, dst) ∷ (dst, src) ∷ later else (src, dst) ∷ later

unfoldable pub in_degree : ℕ → List (ℕ × ℕ) → ℕ
in_degree v [] = 0
in_degree v ((src, dst) ∷ rest) = (if v == dst then 1 else 0) + in_degree v rest

unfoldable pub out_degree : ℕ → List (ℕ × ℕ) → ℕ
out_degree v [] = 0
out_degree v ((src, dst) ∷ rest) = (if v == src then 1 else 0) + out_degree v rest

unfoldable pub sources : ℕ → List (ℕ × ℕ) → List ℕ
sources v [] = []
sources v ((src, dst) ∷ rest) = if v == dst then src ∷ sources v rest else sources v rest

-- `n` vertices from `i` on: both counts of each, and the sources of their edges.
unfoldable pub degree_words : List (ℕ × ℕ) → ℕ → ℕ → List ℕ
degree_words edges zero i = []
degree_words edges (suc n) i =
    in_degree i edges % u64_mod ∷ out_degree i edges % u64_mod ∷ degree_words edges n (suc i)

unfoldable pub source_words : List (ℕ × ℕ) → ℕ → ℕ → List ℕ
source_words edges zero i = []
source_words edges (suc n) i = sources i edges ++ source_words edges n (suc i)

-- The padding, one to 512 vertices and edges, has all its edges at its first vertex, from vertex `rows`.
unfoldable pub matrix_file : ℕ → ℕ → List (ℕ × ℕ) → List ℕ
matrix_file rows count edges = flatten (
    degree_words edges rows 0
    ∷ vertex_padding (512 - count % 512) (512 - rows % 512) 0
    ∷ source_words edges rows 0
    ∷ repeat (512 - count % 512) rows
    ∷ repeat rows (u64_max / rows)
    ∷ repeat (512 - rows % 512) 0
    ∷ repeat rows 0
    ∷ repeat (512 - rows % 512) 0
    ∷ [])

add_all : List (ℕ × ℕ) → Degrees → Degrees
add_all [] d = d
add_all ((src, dst) ∷ rest) d = add_all rest (add_edge src dst d)

append_one : (xs ys : List ℕ) (x : ℕ) → (xs ++ x ∷ []) ++ ys ≡ xs ++ x ∷ ys
append_one [] ys x = refl
append_one (z ∷ xs) ys x = ap (λ l. z ∷ l) (append_one xs ys x)

append_nil : (xs : List ℕ) → xs ++ [] ≡ xs
append_nil [] = refl
append_nil (x ∷ xs) = ap (λ l. x ∷ l) (append_nil xs)

counted_put :
    (f : ℕ → ℕ) (v k : ℕ) → put f k (add64 (f k) 1) v ≡ (if v == k then add64 (f v) 1 else f v)
counted_put f v k = ground arith

add_all_in :
    (edges : List (ℕ × ℕ)) (d : Degrees) (v : ℕ)
    → d.num_in_edges v < u64_mod
    → (add_all edges d).num_in_edges v ≡ (d.num_in_edges v + in_degree v edges) % u64_mod
unfolding add_all in_degree add_edge
add_all_in [] d v small = omega (arith, small)
add_all_in ((src, dst) ∷ rest) d v small = ground (
  arith,
  add_all_in rest (add_edge src dst d) v (ground (arith, small, counted_put d.num_in_edges v dst)),
  counted_put d.num_in_edges v dst,
)

add_all_out :
    (edges : List (ℕ × ℕ)) (d : Degrees) (v : ℕ)
    → d.num_out_edges v < u64_mod
    → (add_all edges d).num_out_edges v ≡ (d.num_out_edges v + out_degree v edges) % u64_mod
unfolding add_all out_degree add_edge
add_all_out [] d v small = omega (arith, small)
add_all_out ((src, dst) ∷ rest) d v small = ground (
  arith,
  add_all_out rest (add_edge src dst d) v
      (ground (arith, small, counted_put d.num_out_edges v src)),
  counted_put d.num_out_edges v src,
)

add_all-sources :
    (edges : List (ℕ × ℕ)) (d : Degrees) (v : ℕ)
    → (add_all edges d).in_edges v ≡ d.in_edges v ++ sources v edges
unfolding add_all sources add_edge
add_all-sources [] d v = sym (append_nil (d.in_edges v))
add_all-sources ((src, dst) ∷ rest) d v =
    add_all-sources rest (add_edge src dst d) v ∙ elim (Bool-cases (v == dst)) [
      | inl same ↦ rw same (append_one (d.in_edges v) (sources v rest) src)
      | inr other ↦ rw other refl
    ]

read_entries_all :
    (n : ℕ) (symmetric : Bool) (verts : ℕ) (lines : List Line) (d : Degrees)
    → verts < u64_mod
    → n ≤ length lines
    → All (IsEntry verts) lines
    → read_entries n symmetric verts lines d ≡ done (add_all (edge_list symmetric n lines) d)
unfolding read_entries edge_list add_all enter
read_entries_all zero symmetric verts lines d size many entries = refl
read_entries_all (suc n) symmetric verts [] d size many entries = absurd (omega arith)
read_entries_all (suc n) true verts (line ∷ rest) d size many (entry, entries) =
    let one : sub64 (coordinates line).0 1 ≡ (coordinates line).0 - 1 =
      omega (arith, size, entry) in
    let two : sub64 (coordinates line).1 1 ≡ (coordinates line).1 - 1 =
      omega (arith, size, entry) in
    rw (read_entry_lem true verts line d size entry, one, two)
      (read_entries_all n true verts rest _ size (omega arith) entries)
read_entries_all (suc n) false verts (line ∷ rest) d size many (entry, entries) =
    let one : sub64 (coordinates line).0 1 ≡ (coordinates line).0 - 1 =
      omega (arith, size, entry) in
    let two : sub64 (coordinates line).1 1 ≡ (coordinates line).1 - 1 =
      omega (arith, size, entry) in
    rw (read_entry_lem false verts line d size entry, one, two)
      (read_entries_all n false verts rest _ size (omega arith) entries)

degrees_of : Outcome Degrees → Degrees
degrees_of (done d) = d
degrees_of aborted = no_edges
degrees_of starved = no_edges

module _ (edges : List (ℕ × ℕ)) (d : Degrees) (drawn : d ≡ add_all edges no_edges) where
  vertex_words_drawn : (n i : ℕ) → vertex_words d n i ≡ degree_words edges n i
  unfolding vertex_words degree_words no_edges
  vertex_words_drawn zero i = refl
  vertex_words_drawn (suc n) i =
      let ins : d.num_in_edges i ≡ in_degree i edges % u64_mod =
        ap (λ x. x.num_in_edges i) drawn
        ∙ add_all_in edges no_edges i (omega arith)
        ∙ omega arith in
      let outs : d.num_out_edges i ≡ out_degree i edges % u64_mod =
        ap (λ x. x.num_out_edges i) drawn
        ∙ add_all_out edges no_edges i (omega arith)
        ∙ omega arith in
      rw (ins, outs, vertex_words_drawn n (suc i)) refl

  edge_words_drawn : (n i : ℕ) → edge_words d.in_edges n i ≡ source_words edges n i
  unfolding edge_words source_words no_edges
  edge_words_drawn zero i = refl
  edge_words_drawn (suc n) i =
      let here : d.in_edges i ≡ sources i edges =
        ap (λ x. x.in_edges i) drawn ∙ add_all-sources edges no_edges i in
      rw (here, edge_words_drawn n (suc i)) refl

  write_graph_drawn :
      (rows count : ℕ) → (write_graph rows count d).file ≡ matrix_file rows count edges
  unfolding write_graph matrix_file page_padding
  write_graph_drawn rows count = rw (vertex_words_drawn rows 0, edge_words_drawn rows 0) refl

-- The file written after the entries were read is that of the list of edges.
pub written_file :
    (n : ℕ) (symmetric : Bool) (verts count : ℕ) (lines : List Line) (d : Degrees)
    → verts < u64_mod
    → n ≤ length lines
    → All (IsEntry verts) lines
    → read_entries n symmetric verts lines no_edges ≡ done d
    → (write_graph verts count d).file ≡ matrix_file verts count (edge_list symmetric n lines)
unfolding degrees_of
written_file n symmetric verts count lines d size many entries read =
    write_graph_drawn (edge_list symmetric n lines) d
      (ap degrees_of
        (sym read ∙ read_entries_all n symmetric verts lines no_edges size many entries))
      verts count
