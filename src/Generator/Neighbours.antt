-- ===== src/Generator/Neighbours.antt =====
-- Every pair of a generated file is a separator or a range of pairs, as the accelerator needs it.
use amorphos_fsrf.Common.{
  ℕ, zero, suc, ◌+◌, ◌-◌, ◌*◌, ◌/◌, ◌<◌, ◌≤◌, ◌≡◌, ◌∙◌, true, List, [], ◌∷◌, length, All, inl, inr,
  arith,
}
use native.Mathlib.Decide.{dec_lt}
use amorphos_fsrf.PageRank.{Array}
use amorphos_fsrf.Triangles.Second.{IsPair, ArePairs}
use amorphos_fsrf.Triangles.Counting.{IsNeighbour}
use amorphos_fsrf.Generator.{Graph, Gen, contains}
use amorphos_fsrf.Generator.Offsets.{place, place-suc, IsSmall, place-fits}
use amorphos_fsrf.Generator.Layout.{
  PairsAt, All-contained, memory, memory-VertexAt, memory_separators,
}

nonempty : (x : ℕ) (xs : List ℕ) → contains x xs ≡ true → 0 < length xs
unfolding contains
nonempty x [] h = ground (arith, h)
nonempty x (y ∷ rest) h = omega arith

-- The pair names a vertex that has neighbours.
pub record Names (mem : Array) (graph : Graph) (vertices p : ℕ) : Type 0 where
  pub vertex : ℕ
  pub is_one : vertex < vertices
  pub linked_back : 0 < length (graph vertex)
  pub begins : mem (2 * p) ≡ 2 * place graph vertex
  pub ends : mem (2 * p + 1) ≡ 2 * (place graph vertex + length (graph vertex))

PairsAt-Names :
    (mem : Array) (graph : Graph) (vertices p : ℕ) (xs : List ℕ)
    → All (λ e. (e < vertices) × (0 < length (graph e))) xs
    → PairsAt mem graph p xs
    → (q : ℕ) → p ≤ q
    → q < p + length xs
    → Names mem graph vertices q
PairsAt-Names mem graph vertices p [] good at q low high = absurd (omega arith)
PairsAt-Names mem graph vertices p (e ∷ rest) ((inside, some), good) (first, second, later) q low
      high =
    elim (dec_lt p q) [
      | yes next ↦
          PairsAt-Names mem graph vertices (suc p) rest good later q (omega arith) (omega arith)
      | no here ↦
          let same : p ≡ q = omega arith in
          record {
            vertex = e;
            is_one = inside;
            linked_back = some;
            begins = rw same at first;
            ends = rw same at second;
          }
    ]

-- The vertex at whose pairs, or separator, a pair stands.
owner :
    (graph : Graph) (n p : ℕ)
    → p < place graph n
    → (i : ℕ) × (i < n) × (place graph i ≤ p) × (p < place graph (suc i))
unfolding place
owner graph zero p h = absurd (omega arith)
owner graph (suc n) p h = elim (dec_lt p (place graph n)) [
  | yes before ↦ let (i, inside, low, high) = owner graph n p before in (i, omega arith, low, high)
  | no here ↦ (n, omega arith, omega arith, h)
]

module _ (vertices : ℕ) (s : Gen) (small : IsSmall vertices s) (filesize : ℕ) where
  abbrev mem : Array
  mem = memory vertices filesize s

  good_neighbours : (i : ℕ) → All (λ e. (e < vertices) × (0 < length (s.graph e))) (s.graph i)
  good_neighbours i = All-contained _ (s.graph i) (λ x h. (
    (small.undirected.in_range i x h).1,
    nonempty i (s.graph x) (small.undirected.symmetric i x ∙ h),
  ))

  vertex-Names :
      (i q : ℕ)
      → i < vertices
      → place s.graph i ≤ q
      → q < place s.graph i + length (s.graph i)
      → Names mem s.graph vertices q
  vertex-Names i q inside low high =
      PairsAt-Names mem s.graph vertices (place s.graph i) (s.graph i) (good_neighbours i)
        (memory-VertexAt vertices s small filesize i inside).0 q low high

  Names-IsPair : (q : ℕ) → Names mem s.graph vertices q → IsPair (mem (2 * q)) (mem (2 * q + 1))
  Names-IsPair q named =
      let e = named.vertex in
      let room = place-fits vertices s small (suc e) named.is_one in
      let step = place-suc s.graph e in
      let begins = named.begins in
      let ends = named.ends in
      let some = named.linked_back in
      (
        omega (arith, begins),
        omega (arith, ends),
        omega (arith, begins, ends, some),
        omega (arith, ends, room, step),
      )

  Names-ArePairs :
      (q : ℕ)
      → Names mem s.graph vertices q
      → ArePairs mem (mem (2 * q) / 2) (mem (2 * q + 1) / 2 - mem (2 * q) / 2)
  Names-ArePairs q named = λ r low high.
      let e = named.vertex in
      let begins = named.begins in
      let ends = named.ends in
      Names-IsPair r
        (vertex-Names e r named.is_one (omega (arith, begins)) (omega (arith, begins, ends)))

  pub memory-IsNeighbour : (p : ℕ) → IsNeighbour mem mem mem p
  memory-IsNeighbour p = elim (dec_lt p (place s.graph vertices)) [
    | yes within ↦
        let (i, inside, low, high) = owner s.graph vertices p within in
        let step = place-suc s.graph i in
        elim (dec_lt p (place s.graph i + length (s.graph i))) [
          | yes pair ↦
              let named = vertex-Names i p inside low pair in
              inr (Names-IsPair p named, Names-ArePairs p named)
          | no last ↦
              let there : p ≡ place s.graph i + length (s.graph i) = omega (arith, step) in
              inl (rw there (memory-VertexAt vertices s small filesize i inside).1)
        ]
    | no past ↦ inl (memory_separators vertices s small filesize (2 * p) (omega arith))
  ]
