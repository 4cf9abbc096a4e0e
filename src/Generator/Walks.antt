-- ===== src/Generator/Walks.antt =====
-- The walks over the memory of a generated file, in terms of the graph.
use amorphos_fsrf.Common.{
  ℕ, zero, suc, ◌+◌, ◌-◌, ◌*◌, ◌/◌, ◌<◌, ◌≤◌, ◌≡◌, refl, ◌∙◌, false, List, [], ◌∷◌, length, All,
  u64_max, ltb, ◌==◌, ne→==, to_num, if◌then◌else◌, plus_suc, suc_plus, arith,
}
use amorphos_fsrf.PageRank.{Array}
use amorphos_fsrf.Triangles.Reference.{linked, corners, triangles}
use amorphos_fsrf.Triangles.Counting.{separator, share, neighbour}
use amorphos_fsrf.Generator.{Graph, contains}
use amorphos_fsrf.Generator.Offsets.{place, place-le, place-suc, place_test, place_equal}
use amorphos_fsrf.Generator.Layout.{PairsAt, VertexAt}

-- The triangles of `i` and `elem` with third vertices in a list, and those of `i` with second ones in
-- a list, without wrap-around.
unfoldable pub thirds : Graph → ℕ → ℕ → List ℕ → ℕ
thirds graph i elem [] = 0
thirds graph i elem (elem2 ∷ rest) =
    (if ltb elem2 elem then 0 else to_num (contains i (graph elem2))) + thirds graph i elem rest

unfoldable pub seconds : Graph → ℕ → List ℕ → ℕ
seconds graph i [] = 0
seconds graph i (elem ∷ rest) =
    (if ltb elem i then 0 else thirds graph i elem (graph elem)) + seconds graph i rest

unfoldable pub total : Graph → ℕ → ℕ → ℕ
total graph zero i = 0
total graph (suc n) i = seconds graph i (graph i) + total graph n (suc i)

module _ (mem : Array) (graph : Graph) where
  linked-contains :
      (i p : ℕ) (xs : List ℕ)
      → PairsAt mem graph p xs
      → linked mem (2 * place graph i) p (length xs) ≡ contains i xs
  unfolding linked contains
  linked-contains i p [] at = refl
  linked-contains i p (e ∷ rest) (first, second, later) =
      rw (first, place_equal graph e i, linked-contains i (suc p) rest later) refl

  -- A pair of words that names a vertex, as a range of pairs.
  half : (n : ℕ) → 2 * n / 2 ≡ n
  half n = omega arith

  between : (n k : ℕ) → n + k - n ≡ k
  between n k = omega arith

  corners-thirds :
      (vertices i elem p : ℕ) (xs : List ℕ)
      → ((v : ℕ) → v < vertices → VertexAt mem graph v)
      → All (λ e. e < vertices) xs
      → PairsAt mem graph p xs
      → corners mem mem (2 * place graph i) (2 * place graph elem) p (length xs)
        ≡ thirds graph i elem xs
  unfolding corners thirds
  corners-thirds vertices i elem p [] held fit at = refl
  corners-thirds vertices i elem p (e ∷ rest) held (inside, fit) (first, second, later) =
      rw
        (
          first,
          second,
          place_test graph e elem,
          half (place graph e),
          half (place graph e + length (graph e)),
          between (place graph e) (length (graph e)),
          linked-contains i (place graph e) (graph e) (held e inside).0,
          corners-thirds vertices i elem (suc p) rest held fit later,
        )
        refl

  pair_share :
      (vertices i p e : ℕ)
      → ((v : ℕ) → v < vertices → VertexAt mem graph v)
      → ((v : ℕ) → All (λ e. e < vertices) (graph v))
      → e < vertices
      → mem (2 * p) ≡ 2 * place graph e
      → mem (2 * p + 1) ≡ 2 * (place graph e + length (graph e))
      → share mem mem mem (2 * place graph i) p
        ≡ (if ltb e i then 0 else thirds graph i e (graph e))
  unfolding share
  pair_share vertices i p e held ranges inside first second =
      rw
        (
          first,
          second,
          place_test graph e i,
          half (place graph e),
          half (place graph e + length (graph e)),
          between (place graph e) (length (graph e)),
          corners-thirds vertices i e (place graph e) (graph e) held (ranges e) (held e inside).0,
        )
        refl

  -- The neighbours of vertex `i` that are left, and what the walk makes of what follows them.
  triangles-seconds :
      (vertices i p m : ℕ) (xs : List ℕ)
      → ((v : ℕ) → v < vertices → VertexAt mem graph v)
      → ((v : ℕ) → All (λ e. e < vertices) (graph v))
      → All (λ e. e < vertices) xs
      → PairsAt mem graph p xs
      → triangles mem mem mem (2 * place graph i) p (length xs + m)
        ≡ seconds graph i xs + triangles mem mem mem (2 * place graph i) (p + length xs) m
  unfolding seconds
  triangles-seconds vertices i p m [] held ranges fit at = ground arith
  triangles-seconds vertices i p m (e ∷ rest) held ranges (inside, fit) (first, second, later) =
      let node = 2 * place graph i in
      let no_sep : (mem (2 * p) == u64_max) ≡ false = rw first (ne→== _ _ (omega arith)) in
      let shared = pair_share vertices i p e held ranges inside first second in
      let rest_walk = triangles-seconds vertices i (suc p) m rest held ranges fit later in
      rw
        (
          suc_plus (length rest) m,
          neighbour mem mem mem node p (length rest + m) no_sep,
          shared,
          rest_walk,
          plus_suc p (length rest),
        )
        (omega arith)

  -- Vertex by vertex: the separator behind a vertex moves the walk to the next one.
  triangles-total :
      (vertices n i m : ℕ)
      → ((v : ℕ) → v < vertices → VertexAt mem graph v)
      → ((v : ℕ) → All (λ e. e < vertices) (graph v))
      → i + n ≡ vertices
      → triangles mem mem mem
          (2 * place graph i)
          (place graph i)
          (place graph vertices - place graph i + m)
        ≡ total graph n i
          + triangles mem mem mem (2 * place graph vertices) (place graph vertices) m
  unfolding total
  triangles-total vertices zero i m held ranges last =
      let same : i ≡ vertices = omega arith in
      let none_left : place graph vertices - place graph vertices + m ≡ m = omega arith in
      rw (same, none_left) (omega arith)
  triangles-total vertices (suc n) i m held ranges last =
      let behind = place graph i + length (graph i) in
      let left = place graph vertices - place graph (suc i) + m in
      let step = place-suc graph i in
      let ahead = place-le graph (suc i) vertices (omega arith) in
      let sizes : place graph vertices - place graph i + m ≡ length (graph i) + suc left =
        omega (arith, step, ahead) in
      let node : 2 * behind + 2 ≡ 2 * place graph (suc i) = omega (arith, step) in
      let pair : suc behind ≡ place graph (suc i) = omega (arith, step) in
      let (neighbours, ends) = held i (omega arith) in
      rw
        (
          sizes,
          triangles-seconds vertices i (place graph i) (suc left) (graph i) held ranges (ranges i)
              neighbours,
          separator mem mem mem (2 * place graph i) behind left ends,
          node,
          pair,
          triangles-total vertices n (suc i) m held ranges (omega arith),
        )
        (omega arith)

  -- Separators alone add nothing.
  triangles-nothing :
      (n p node : ℕ)
      → ((q : ℕ) → p ≤ q → mem (2 * q) ≡ u64_max)
      → triangles mem mem mem node p n ≡ 0
  unfolding triangles
  triangles-nothing zero p node ends = refl
  triangles-nothing (suc n) p node ends =
      separator mem mem mem node p n (ends p (omega arith))
      ∙ triangles-nothing n (suc p) (2 * p + 2) (λ q h. ends q (omega arith))

  -- A walk over at least the pairs of the graph, with separators behind them.
  pub triangles-graph :
      (vertices n : ℕ)
      → ((v : ℕ) → v < vertices → VertexAt mem graph v)
      → ((v : ℕ) → All (λ e. e < vertices) (graph v))
      → ((q : ℕ) → place graph vertices ≤ q → mem (2 * q) ≡ u64_max)
      → place graph vertices ≤ n
      → triangles mem mem mem 0 0 n ≡ total graph vertices 0
  unfolding place
  triangles-graph vertices n held ranges ends enough =
      let size : n ≡ place graph vertices - place graph 0 + (n - place graph vertices) =
        omega arith in
      rw
        (
          size,
          triangles-total vertices vertices 0 (n - place graph vertices) held ranges (omega arith),
          triangles-nothing (n - place graph vertices) (place graph vertices)
              (2 * place graph vertices) ends,
        )
        (omega arith)
