-- ===== src/Generator/Total.antt =====
-- The accelerator and the generator count the same triangles.
use amorphos_fsrf.Common.{
  ℕ, zero, suc, ◌*◌, ◌%◌, ◌<◌, ◌≤◌, ◌≡◌, refl, sym, ◌∙◌, ap, some, List, [], ◌∷◌, length, u64_mod,
  arith,
}
use amorphos_fsrf.Triangles
use amorphos_fsrf.Triangles.{triangle}
use amorphos_fsrf.Triangles.Counting.{triangle-triangles}
use amorphos_fsrf.Generator.{
  arranged, contains, Graph, Gen, count_third, count_second, count_triangles, graph_file, generate,
  start, generated,
}
use amorphos_fsrf.Generator.Symmetric.{IsUndirected, generate-IsUndirected}
use amorphos_fsrf.Generator.Offsets.{place, IsSmall}
use amorphos_fsrf.Generator.Layout.{
  memory, memory-VertexAt, memory_separators, neighbours_in_range, length-graph_file,
}
use amorphos_fsrf.Generator.Walks.{thirds, seconds, total, triangles-graph}
use amorphos_fsrf.Generator.Neighbours.{memory-IsNeighbour}

count_third-thirds :
    (graph : Graph) (i elem : ℕ) (xs : List ℕ)
    → count_third graph i elem xs ≡ thirds graph i elem xs % u64_mod
unfolding count_third thirds
count_third-thirds graph i elem [] = refl
count_third-thirds graph i elem (e ∷ rest) = ground (arith, count_third-thirds graph i elem rest)

count_second-seconds :
    (graph : Graph) (i : ℕ) (xs : List ℕ) → count_second graph i xs ≡ seconds graph i xs % u64_mod
unfolding count_second seconds
count_second-seconds graph i [] = refl
count_second-seconds graph i (e ∷ rest) =
    ground (arith, count_second-seconds graph i rest, count_third-thirds graph i e (graph e))

count_triangles-total :
    (graph : Graph) (n i : ℕ) → count_triangles graph n i ≡ total graph n i % u64_mod
unfolding count_triangles total
count_triangles-total graph zero i = refl
count_triangles-total graph (suc n) i =
    omega (arith, count_triangles-total graph n (suc i), count_second-seconds graph i (graph i))

file_counted :
    (vertices filesize len : ℕ) (s : Gen)
    → IsSmall vertices s
    → length (graph_file vertices filesize s) ≤ 8 * len
    → 8 * len < u64_mod
    → (ret : Triangles.Ret) × (triangle
          (memory vertices filesize s)
          (memory vertices filesize s)
          (memory vertices filesize s)
          len
        ≡ some ret)
      × (ret.num_tris ≡ count_triangles s.graph vertices 0)
file_counted vertices filesize len s small covered room =
    let mem = memory vertices filesize s in
    let (ret, ran, counted) =
      triangle-triangles mem mem mem len room
        (λ p h. memory-IsNeighbour vertices s small filesize p) in
    let walked =
      triangles-graph mem s.graph vertices (4 * len)
        (λ v h. memory-VertexAt vertices s small filesize v h)
        (neighbours_in_range vertices s small)
        (λ q h. memory_separators vertices s small filesize (2 * q) (omega arith))
        (omega (arith, length-graph_file vertices s small filesize)) in
    (ret, ran, omega (arith, counted, walked, count_triangles-total s.graph vertices 0))

-- An order of iteration lists the elements of a set, each once.
pub record IsOrder (order : ℕ → List ℕ → List ℕ) : Type 0 where
  pub same_elements : (v x : ℕ) (xs : List ℕ) → contains x (order v xs) ≡ contains x xs
  pub same_length : (v : ℕ) (xs : List ℕ) → length (order v xs) ≡ length xs

arranged-IsUndirected :
    (order : ℕ → List ℕ → List ℕ) (vertices : ℕ) (s : Gen)
    → IsOrder order
    → IsUndirected vertices s
    → IsUndirected vertices (arranged order s)
arranged-IsUndirected order vertices s o h = record {
  symmetric = λ a b.
      o.same_elements b a (s.graph b) ∙ h.symmetric a b ∙ sym (o.same_elements a b (s.graph a));
  loopless = λ a. o.same_elements a a (s.graph a) ∙ h.loopless a;
  in_range = λ a b held. h.in_range a b (sym (o.same_elements a b (s.graph a)) ∙ held);
  degrees = λ a. h.degrees a ∙ ap (λ n. n % u64_mod) (sym (o.same_length a (s.graph a)));
}

-- Whatever `rand` gives, and in whatever order the library iterates over a set, for a graph with which
-- the generator ends, whose places for pairs fit in 2^64 words, the accelerator run on the file written
-- for it, in at least as many wide words as the file has, returns, and counts as many triangles as the
-- generator's own count over its sets.
pub generate-triangle :
    (rand : ℕ → ℕ) (order : ℕ → List ℕ → List ℕ) (fuel vertices edges filesize len : ℕ) (s : Gen)
    → IsOrder order
    → 0 < vertices
    → generate rand fuel vertices edges (start vertices) ≡ generated s
    → 2 * place (arranged order s).graph vertices < u64_mod
    → length (graph_file vertices filesize (arranged order s)) ≤ 8 * len
    → 8 * len < u64_mod
    → (ret : Triangles.Ret) × (triangle
          (memory vertices filesize (arranged order s))
          (memory vertices filesize (arranged order s))
          (memory vertices filesize (arranged order s))
          len
        ≡ some ret)
      × (ret.num_tris ≡ count_triangles (arranged order s).graph vertices 0)
generate-triangle rand order fuel vertices edges filesize len s lists some_vertex ends fits covered
      room =
    let drawn = rw ends at (generate-IsUndirected rand fuel vertices edges some_vertex) in
    file_counted vertices filesize len (arranged order s)
      (record { undirected = arranged-IsUndirected order vertices s lists drawn; fits = fits })
      covered room
