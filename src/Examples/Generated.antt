-- ===== src/Examples/Generated.antt =====
-- A graph that the generator makes, and the accelerator on its file.
use amorphos_fsrf.Common.{ℕ, ◌+◌, ◌/◌, ◌%◌, ◌≡◌, refl, some, List, [], length, arith}
use amorphos_fsrf.PageRank.{put}
use amorphos_fsrf.Triangles
use amorphos_fsrf.Triangles.{triangle}
use amorphos_fsrf.Generator.{
  Gen, contains, insert, insert_at, add_edge, draw, generate, start, generated, vert_to_addr,
  neighbour_words, vertex_words, fill_up, align, graph_file, count_third, count_second,
  count_triangles,
}
use amorphos_fsrf.Generator.Layout.{memory}
use amorphos_fsrf.Generator.Offsets.{place}
use amorphos_fsrf.Generator.Total.{IsOrder, generate-triangle}

-- The ends of the edges of a triangle, in turn.
abbrev around : ℕ → ℕ
around k = (k / 2 + k % 2) % 3

-- The graph with `around` on four vertices.
abbrev one_triangle : Gen
one_triangle = record {
  graph =
      insert_at
        (insert_at (insert_at (insert_at (insert_at (insert_at (λ v. []) 0 1) 1 0) 1 2) 2 1) 2 0) 0
        2;
  deg = put (put (put (put (put (put (λ v. 0) 0 1) 1 1) 1 2) 2 1) 2 2) 0 2;
  made = 3;
  fsize = 160;
  n_full_vertices = 0;
  draws = 6;
}

generate-one_triangle : generate around 3 4 3 (start 4) ≡ generated one_triangle
unfolding generate draw add_edge contains insert start
generate-one_triangle = refl

count_one_triangle : count_triangles one_triangle.graph 4 0 ≡ 1
unfolding count_triangles count_second count_third contains insert
count_one_triangle = refl

length-one_triangle : length (graph_file 4 0 one_triangle) ≡ 24
unfolding graph_file vertex_words neighbour_words fill_up align contains insert vert_to_addr
length-one_triangle = refl

place_one_triangle : place one_triangle.graph 4 ≡ 10
unfolding place contains insert
place_one_triangle = refl

-- The order of the list.
abbrev as_listed : ℕ → List ℕ → List ℕ
as_listed v xs = xs

as_listed-IsOrder : IsOrder as_listed
as_listed-IsOrder = record { same_elements = λ v x xs. refl; same_length = λ v xs. refl }

generate-triangle_example :
    (ret : Triangles.Ret) × (triangle
        (memory 4 0 one_triangle)
        (memory 4 0 one_triangle)
        (memory 4 0 one_triangle)
        3
      ≡ some ret)
    × (ret.num_tris ≡ count_triangles one_triangle.graph 4 0)
generate-triangle_example =
    generate-triangle around as_listed 3 4 3 0 3 one_triangle as_listed-IsOrder (omega arith)
      generate-one_triangle (omega (arith, place_one_triangle)) (omega (arith, length-one_triangle))
      (omega arith)
