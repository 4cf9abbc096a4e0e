-- ===== src/Generator.antt =====
-- The generator of random graphs for the triangle accelerator: sw/app/inputs/graphgen.cpp.  A set of
-- neighbours is a list without repeats; while a graph is drawn its order means nothing.  The library
-- leaves open in which order it iterates over a set: `order v` lists the neighbours of vertex `v` in
-- that order once the graph is drawn.  `rand` is a parameter, `rand k` being its `k`-th value.
-- `write_to_hex` is false, as in the source.
pub mod Symmetric
pub mod Offsets
pub mod Layout
pub mod Walks
pub mod Neighbours
pub mod Total
use amorphos_fsrf.Common.{
  ℕ, zero, suc, ◌+◌, ◌-◌, ◌*◌, ◌/◌, ◌%◌, ◌^◌, Bool, true, false, not, ◌&&◌, ◌||◌, List, [], ◌∷◌,
  ◌++◌, length, add64, sub64, mul64, ◌<<<◌, u64_max, ltb, ◌==◌, if◌then◌else◌,
}
use amorphos_fsrf.PageRank.{Array, put}

-- `find` of a set.
unfoldable pub contains : ℕ → List ℕ → Bool
contains x [] = false
contains x (y ∷ rest) = (x == y) || contains x rest

-- `insert` of a set: an element that is there is not added again.
unfoldable pub insert : ℕ → List ℕ → List ℕ
insert x xs = if contains x xs then xs else x ∷ xs

abbrev pub Graph : Type 0
Graph = ℕ → List ℕ

abbrev pub insert_at : Graph → ℕ → ℕ → Graph
insert_at g v x = λ u. if u == v then insert x (g u) else g u

-- The variables of the loop, and how many values of `rand` were taken.
pub record Gen : Type 0 where
  pub graph : Graph
  pub deg : Array
  pub made : ℕ
  pub fsize : ℕ
  pub n_full_vertices : ℕ
  pub draws : ℕ

pub data Step : Type 0 where
  next : Gen → Step
  exited : Step

pub data Run : Type 0 where
  generated : Gen → Run
  all_full : Run
  running : Run

-- What comes after a round.
abbrev pub follow : Step → (Gen → Run) → Run
follow (next t) go_on = go_on t
follow exited go_on = all_full

unfoldable pub add_edge : ℕ → ℕ → ℕ → Gen → Step
add_edge vertices src dest s =
    let graph = insert_at (insert_at s.graph src dest) dest src in
    let deg = put s.deg src (add64 (s.deg src) 1) in
    let full_src = if length (graph src) == sub64 vertices 1 then 1 else 0 in
    let full_dest = if length (graph dest) == sub64 vertices 1 then 1 else 0 in
    let n_full = add64 (add64 s.n_full_vertices full_src) full_dest in
    if n_full == vertices
    then exited
    else next (record s {
      graph = graph;
      deg = put deg dest (add64 (deg dest) 1);
      made = add64 s.made 1;
      fsize = add64 s.fsize 32;
      n_full_vertices = n_full;
    })

module _ (rand : ℕ → ℕ) where
  -- One round of the loop.
  unfoldable pub draw : ℕ → Gen → Step
  draw vertices s =
      let src = rand s.draws % vertices in
      let dest = rand (s.draws + 1) % vertices in
      let drawn = record s { draws = s.draws + 2 } in
      if not (src == dest) && not (contains src (s.graph dest))
      then add_edge vertices src dest drawn
      else next drawn

  -- The loop, for at most `fuel` rounds.
  unfoldable pub generate : (fuel vertices edges : ℕ) → Gen → Run
  generate zero vertices edges s = if ltb s.made edges then running else generated s
  generate (suc fuel) vertices edges s =
      if ltb s.made edges
      then follow (draw vertices s) (generate fuel vertices edges)
      else generated s

unfoldable pub start : ℕ → Gen
start vertices = record {
  graph = λ v. [];
  deg = λ v. 0;
  made = 0;
  fsize = mul64 vertices 16;
  n_full_vertices = 0;
  draws = 0;
}

-- The sizes that the arguments ask for.
num_vertices : ℕ → ℕ → ℕ
num_vertices target_deg filesize = filesize / add64 16 (mul64 32 target_deg / 2)

num_edges : ℕ → ℕ → ℕ
num_edges target_deg vertices = mul64 target_deg vertices / 2

-- `vert_to_addr`: the offset of vertex `i`.
unfoldable pub vert_to_addr : Array → ℕ → ℕ
vert_to_addr deg zero = 0
vert_to_addr deg (suc i) = add64 (vert_to_addr deg i) (add64 (mul64 (deg i) 2) 2)

-- The words of one vertex's neighbours.
unfoldable pub neighbour_words : Array → List ℕ → List ℕ
neighbour_words deg [] = []
neighbour_words deg (elem ∷ rest) =
    let neighbor_start = vert_to_addr deg elem in
    neighbor_start ∷ add64 neighbor_start (mul64 (deg elem) 2) ∷ neighbour_words deg rest

-- `n` vertices from `i` on, each with its separators.
unfoldable pub vertex_words : Graph → Array → ℕ → ℕ → List ℕ
vertex_words graph deg zero i = []
vertex_words graph deg (suc n) i =
    neighbour_words deg (graph i) ++ (u64_max ∷ u64_max ∷ vertex_words graph deg n (suc i))

-- The separators that fill the file up, for at most `fuel` rounds.
unfoldable pub fill_up : (fuel fsize filesize : ℕ) → List ℕ
fill_up zero fsize filesize = []
fill_up (suc fuel) fsize filesize =
    let rest = fill_up fuel (add64 fsize 8) filesize in
    if ltb fsize filesize then u64_max ∷ rest else []

-- Separators up to a whole wide word; seven are the most.
unfoldable pub align : (fuel separator : ℕ) → List ℕ
align zero separator = []
align (suc fuel) separator =
    let rest = align fuel (suc separator) in if separator % 8 == 0 then [] else u64_max ∷ rest

-- The graph as the library iterates over its sets.
abbrev pub arranged : (ℕ → List ℕ → List ℕ) → Gen → Gen
arranged order s = record s { graph = λ v. order v (s.graph v) }

unfoldable pub graph_file : ℕ → ℕ → Gen → List ℕ
graph_file vertices filesize s =
    let body =
      vertex_words s.graph s.deg vertices 0 ++ fill_up (filesize - s.fsize) s.fsize filesize in
    body ++ align 7 (length body)

-- The host's own count: third vertices, second vertices, and first ones from `i` on.
unfoldable pub count_third : Graph → ℕ → ℕ → List ℕ → ℕ
count_third graph i elem [] = 0
count_third graph i elem (elem2 ∷ rest) =
    let later = count_third graph i elem rest in
    if ltb elem2 elem then later else if contains i (graph elem2) then add64 1 later else later

unfoldable pub count_second : Graph → ℕ → List ℕ → ℕ
count_second graph i [] = 0
count_second graph i (elem ∷ rest) =
    let later = count_second graph i rest in
    if ltb elem i then later else add64 (count_third graph i elem (graph elem)) later

unfoldable pub count_triangles : Graph → ℕ → ℕ → ℕ
count_triangles graph zero i = 0
count_triangles graph (suc n) i =
    add64 (count_second graph i (graph i)) (count_triangles graph n (suc i))
