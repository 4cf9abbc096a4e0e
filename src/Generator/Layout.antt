-- ===== src/Generator/Layout.antt =====
-- What the memory that holds a generated file has at each vertex.
use amorphos_fsrf.Common.{
  ℕ, zero, suc, ◌+◌, ◌-◌, ◌*◌, ◌%◌, ◌<◌, ◌≤◌, ◌≡◌, refl, sym, ◌∙◌, true, List, [], ◌∷◌, ◌++◌,
  length, length-append, get_or, get_or-append_right, All, All-append, add64, u64_max, ltb, ◌==◌,
  plus_suc, arith,
}
use amorphos_fsrf.Common.{Bool-cases, inl, inr, All-get_or}
use mathlib.Core.List.{append_assoc}
use native.Mathlib.Decide.{dec_lt}
use amorphos_fsrf.PageRank.{Array}
use amorphos_fsrf.Generator.{
  Graph, Gen, contains, neighbour_words, vertex_words, fill_up, align, graph_file,
}
use amorphos_fsrf.Generator.Offsets.{
  place, place-suc, IsSmall, place-fits, degree-length, vert_to_addr-place, Holds, Holds-append,
  get_or-Holds,
}

-- The pairs from `p` on are those of the neighbours.
abbrev pub PairsAt : Array → Graph → ℕ → List ℕ → Type 0
PairsAt mem graph p [] = Unit
PairsAt mem graph p (e ∷ rest) =
    (mem (2 * p) ≡ 2 * place graph e)
    × (mem (2 * p + 1) ≡ 2 * (place graph e + length (graph e)))
    × PairsAt mem graph (suc p) rest

-- A vertex stands at its place: its neighbours, and a separator.
abbrev pub VertexAt : Array → Graph → ℕ → Type 0
VertexAt mem graph i =
    PairsAt mem graph (place graph i) (graph i)
    × (mem (2 * (place graph i + length (graph i))) ≡ u64_max)

pub All-contained :
    (P : ℕ → Type 0) (xs : List ℕ) → ((x : ℕ) → contains x xs ≡ true → P x) → All P xs
unfolding contains
All-contained P [] h = tt
All-contained P (x ∷ rest) h =
    (h x (ground arith), All-contained P rest (λ y inside. h y (ground (arith, inside))))

fill_up-separators :
    (fuel fsize filesize : ℕ) → All (λ w. w ≡ u64_max) (fill_up fuel fsize filesize)
unfolding fill_up
fill_up-separators zero fsize filesize = tt
fill_up-separators (suc fuel) fsize filesize = elim (Bool-cases (ltb fsize filesize)) [
  | inl more ↦ rw more (refl, fill_up-separators fuel (add64 fsize 8) filesize)
  | inr full ↦ rw full tt
]

align-separators : (fuel separator : ℕ) → All (λ w. w ≡ u64_max) (align fuel separator)
unfolding align
align-separators zero separator = tt
align-separators (suc fuel) separator = elim (Bool-cases (separator % 8 == 0)) [
  | inl whole ↦ rw whole tt
  | inr part ↦ rw part (refl, align-separators fuel (suc separator))
]

-- The file in memory, with separators behind it.
unfoldable pub memory : ℕ → ℕ → Gen → Array
memory vertices filesize s = λ i. get_or (graph_file vertices filesize s) i u64_max

module _ (vertices : ℕ) (s : Gen) (small : IsSmall vertices s) where
  pub neighbours_in_range : (i : ℕ) → All (λ e. e < vertices) (s.graph i)
  neighbours_in_range i =
      All-contained (λ e. e < vertices) (s.graph i) (λ x h. (small.undirected.in_range i x h).1)

  length-neighbour_words : (xs : List ℕ) → length (neighbour_words s.deg xs) ≡ 2 * length xs
  unfolding neighbour_words
  length-neighbour_words [] = refl
  length-neighbour_words (e ∷ rest) = omega (arith, length-neighbour_words rest)

  neighbours-PairsAt :
      (mem : Array) (p q : ℕ) (xs : List ℕ)
      → q ≡ 2 * p
      → All (λ e. e < vertices) xs
      → Holds mem q (neighbour_words s.deg xs)
      → PairsAt mem s.graph p xs
  unfolding neighbour_words
  neighbours-PairsAt mem p q [] at fit h = tt
  neighbours-PairsAt mem p q (e ∷ rest) at (inside, fit) (first, (second, later)) =
      let address = vert_to_addr-place vertices s small e (omega arith) in
      let degree = degree-length vertices s small e inside in
      let room = place-fits vertices s small (suc e) inside in
      let there : suc q ≡ 2 * p + 1 = omega arith in
      (
        rw (sym at) (first ∙ address),
        rw (sym there) (second ∙ omega (arith, address, degree, room, place-suc s.graph e)),
        neighbours-PairsAt mem (suc p) (suc (suc q)) rest (omega arith) fit later,
      )

  vertices-VertexAt :
      (mem : Array) (n i q : ℕ)
      → q ≡ 2 * place s.graph i
      → i + n ≤ vertices
      → Holds mem q (vertex_words s.graph s.deg n i)
      → (j : ℕ) → i ≤ j
      → j < i + n
      → VertexAt mem s.graph j
  unfolding vertex_words
  vertices-VertexAt mem zero i q at inside h j low high = absurd (omega arith)
  vertices-VertexAt mem (suc n) i q at inside h j low high =
      let after = 2 * (place s.graph i + length (s.graph i)) in
      let (neighbours, (separator, (second, later))) =
        Holds-append mem q after (neighbour_words s.deg (s.graph i)) _
          (omega (arith, length-neighbour_words (s.graph i))) h in
      elim (dec_lt i j) [
        | yes next ↦
            vertices-VertexAt mem n (suc i) (suc (suc after)) (omega (arith, place-suc s.graph i))
              (omega arith) later j (omega arith) (omega arith)
        | no here ↦
            let same : i ≡ j = omega arith in
            rw (sym same) (
              neighbours-PairsAt mem (place s.graph i) q (s.graph i) at (neighbours_in_range i)
                  neighbours,
              separator,
            )
      ]

  length-vertex_words :
      (n i : ℕ)
      → length (vertex_words s.graph s.deg n i) + 2 * place s.graph i ≡ 2 * place s.graph (i + n)
  unfolding vertex_words
  length-vertex_words zero i = ground arith
  length-vertex_words (suc n) i =
      let rest = u64_max ∷ u64_max ∷ vertex_words s.graph s.deg n (suc i) in
      rw (length-append (neighbour_words s.deg (s.graph i)) rest, plus_suc i n)
        (omega (
          arith,
          length-neighbour_words (s.graph i),
          length-vertex_words n (suc i),
          place-suc s.graph i,
        ))

  pub memory-VertexAt :
      (filesize i : ℕ) → i < vertices → VertexAt (memory vertices filesize s) s.graph i
  unfolding memory graph_file place
  memory-VertexAt filesize i h =
      let mem = memory vertices filesize s in
      let words = vertex_words s.graph s.deg vertices 0 in
      let filled = fill_up (filesize - s.fsize) s.fsize filesize in
      let whole = get_or-Holds u64_max 0 (graph_file vertices filesize s) mem (λ j. ground arith) in
      let (body, aligned) =
        Holds-append mem 0 (0 + length (words ++ filled)) (words ++ filled) _ refl whole in
      let (vertices_held, rest) = Holds-append mem 0 (0 + length words) words filled refl body in
      vertices-VertexAt mem vertices 0 0 refl (omega arith) vertices_held i (omega arith)
        (omega arith)

  past_words :
      (words rest : List ℕ) (x : ℕ)
      → All (λ w. w ≡ u64_max) rest
      → length words ≤ x
      → get_or (words ++ rest) x u64_max ≡ u64_max
  past_words words rest x same h =
      let there : length words + (x - length words) ≡ x = omega arith in
      rw there at (
        get_or-append_right words rest (x - length words) u64_max
        ∙ All-get_or (λ w. w ≡ u64_max) rest (x - length words) u64_max same refl)

  pub memory_separators :
      (filesize x : ℕ) → 2 * place s.graph vertices ≤ x → memory vertices filesize s x ≡ u64_max
  unfolding memory graph_file place
  memory_separators filesize x h =
      let words = vertex_words s.graph s.deg vertices 0 in
      let filled = fill_up (filesize - s.fsize) s.fsize filesize in
      let aligned = align 7 (length (words ++ filled)) in
      let ends : 0 + vertices ≡ vertices = omega arith in
      let size = rw ends at (length-vertex_words vertices 0) in
      rw (append_assoc words filled aligned) (
        past_words words (filled ++ aligned) x
          (All-append _ filled aligned (fill_up-separators _ _ filesize) (align-separators 7 _))
          (omega (arith, size)))

  pub length-graph_file :
      (filesize : ℕ) → 2 * place s.graph vertices ≤ length (graph_file vertices filesize s)
  unfolding graph_file place
  length-graph_file filesize =
      let words = vertex_words s.graph s.deg vertices 0 in
      let filled = fill_up (filesize - s.fsize) s.fsize filesize in
      let aligned = align 7 (length (words ++ filled)) in
      let ends : 0 + vertices ≡ vertices = omega arith in
      let size = rw ends at (length-vertex_words vertices 0) in
      rw (length-append (words ++ filled) aligned, length-append words filled) (omega (arith, size))
