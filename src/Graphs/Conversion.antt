-- ===== src/Graphs/Conversion.antt =====
-- A converted matrix is an input on which the accelerator finishes.
use amorphos_fsrf.Common.{
  ℕ, ◌+◌, ◌*◌, ◌<◌, ◌≤◌, ◌≡◌, refl, Bool, true, false, List, ◌∷◌, length, All, mul64, u64_mod,
  ne→==, ==_refl, if◌then◌else◌, arith,
}
use amorphos_fsrf.PageRank.{done, Array, pgrnk}
use amorphos_fsrf.PageRank.Reference.{ranks_over, first_edge}
use amorphos_fsrf.PageRank.Iteration.{pgrnk-ranks}
use amorphos_fsrf.Graphs.{
  read_entries, Line, skip_comments, dimensions, matrix2graph, no_edges, Degrees, Written,
  write_graph,
}
use amorphos_fsrf.Graphs.Counting.{
  IsEntry, IsCounted, edges_of, no_edges-IsCounted, read_entries-IsCounted,
}
use amorphos_fsrf.Graphs.Drawn.{matrix_file, edge_list, written_file}
use amorphos_fsrf.Graphs.Layout.{words_from, file_edges, printed_counts, page_padding_whole}

-- The lines of a square matrix that the converter accepts: comments, then a line that begins with
-- the numbers of rows, columns and entries, then a line for each entry, and no size near 2^64.
pub record IsMatrix (symmetric : Bool) (lines : List Line) (rows entries : ℕ) : Type 0 where
  pub more : List ℕ
  pub body : List Line
  pub header : skip_comments lines ≡ done (rows ∷ rows ∷ entries ∷ more, body)
  pub some_rows : 0 < rows
  pub some_entries : 0 < entries
  pub complete : entries ≤ length body
  pub in_range : All (IsEntry rows) body
  pub rows_fit : rows + 512 < u64_mod
  pub edges_fit : edges_of symmetric * entries + 512 < u64_mod

edges_count :
    (symmetric : Bool) (entries : ℕ)
    → edges_of symmetric * entries + 512 < u64_mod
    → (if symmetric then mul64 2 entries else entries) ≡ edges_of symmetric * entries
edges_count true entries fits = omega arith
edges_count false entries fits = omega arith

-- The lists of a matrix that was read, and the file written from them.
matrix2graph_read :
    (symmetric : Bool) (lines : List Line) (rows entries : ℕ)
    (m : IsMatrix symmetric lines rows entries)
    → (d : Degrees) × IsCounted rows (edges_of symmetric * entries) d
      × (matrix2graph symmetric lines ≡ done (write_graph rows (edges_of symmetric * entries) d))
      × (read_entries entries symmetric rows m.body no_edges ≡ done d)
unfolding matrix2graph dimensions
matrix2graph_read symmetric lines rows entries m =
    let (d, read, counted) =
      read_entries-IsCounted entries symmetric rows 0 m.body no_edges (omega arith) m.complete
        m.in_range (omega arith) (no_edges-IsCounted rows) in
    let same : 0 + edges_of symmetric * entries ≡ edges_of symmetric * entries = omega arith in
    (
      d,
      rw same at counted,
      rw
          (
            m.header,
            ne→== rows 0 (omega arith),
            ==_refl rows,
            ne→== entries 0 (omega arith),
            read,
            edges_count symmetric entries m.edges_fit,
          )
          refl,
      read,
    )

-- For the lines of a matrix with every entry in range, read with or without its mirror image,
-- `matrix2graph` writes the file of the list of its edges: for each vertex the numbers of edges to it
-- and from it and the sources of those to it, and equal ranks, with the padding. `pgrnk` run on the parts
-- of that file finishes: the vertices of the file, padding included, count exactly its edges, and the
-- array of results gets the rank that random access to the parts gives every vertex.
pub matrix2graph-pgrnk :
    (symmetric : Bool) (lines : List Line) (rows entries : ℕ) (outputs : Array)
    (m : IsMatrix symmetric lines rows entries)
    → (w : Written) × (matrix2graph symmetric lines ≡ done w)
      × (w.file
          ≡ matrix_file rows (edges_of symmetric * entries) (edge_list symmetric entries m.body))
      × (first_edge (words_from w.file 0) w.final_verts ≡ w.final_edges)
      × (pgrnk w.final_verts w.final_edges
            (words_from w.file 0)
            (words_from w.file (2 * w.final_verts))
            (words_from w.file (2 * w.final_verts + w.final_edges))
            outputs
          ≡ done (
              ranks_over w.final_verts
                (words_from w.file 0)
                (words_from w.file (2 * w.final_verts))
                (words_from w.file (2 * w.final_verts + w.final_edges))
                outputs))
matrix2graph-pgrnk symmetric lines rows entries outputs m =
    let (d, counted, written, read) = matrix2graph_read symmetric lines rows entries m in
    let edges = edges_of symmetric * entries in
    let w = write_graph rows edges d in
    let (verts_sum, edges_sum) = printed_counts rows edges d m.rows_fit m.edges_fit in
    let exact : first_edge (words_from w.file 0) w.final_verts ≡ w.final_edges =
      rw (verts_sum, edges_sum) (file_edges rows edges d counted) in
    (
      w,
      written,
      written_file entries symmetric rows edges m.body d (omega (arith, m.rows_fit)) m.complete
          m.in_range read,
      exact,
      pgrnk-ranks w.final_verts w.final_edges (words_from w.file 0)
          (words_from w.file (2 * w.final_verts))
          (words_from w.file (2 * w.final_verts + w.final_edges)) outputs
          (rw verts_sum (page_padding_whole rows)) (rw edges_sum (page_padding_whole edges))
          (omega (arith, exact)),
    )
