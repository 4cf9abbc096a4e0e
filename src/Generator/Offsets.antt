-- ===== src/Generator/Offsets.antt =====
-- Where the vertices of a generated graph stand in its file.
use amorphos_fsrf.Common.{
  ℕ, zero, suc, ◌+◌, ◌-◌, ◌*◌, ◌<◌, ◌≤◌, ◌≡◌, refl, List, [], ◌∷◌, ◌++◌, length, get_or, u64_mod,
  ltb, ◌==◌, ne→==, lt→ltb, le→ltb, plus_suc, suc_plus, arith,
}
use native.Mathlib.Decide.{dec_lt}
use amorphos_fsrf.PageRank.{Array}
use amorphos_fsrf.Generator.{Graph, Gen, vert_to_addr}
use amorphos_fsrf.Generator.Symmetric.{IsUndirected}

-- The pair at which vertex `i` begins: a pair for each neighbour and one separator before.
unfoldable pub place : Graph → ℕ → ℕ
place graph zero = 0
place graph (suc i) = place graph i + (length (graph i) + 1)

pub place-suc :
    (graph : Graph) (i : ℕ) → place graph (suc i) ≡ place graph i + (length (graph i) + 1)
unfolding place
place-suc graph i = refl

place_up : (graph : Graph) (i k : ℕ) → place graph i + k ≤ place graph (i + k)
unfolding place
place_up graph i zero = ground arith
place_up graph i (suc k) = ground (arith, plus_suc i k, suc_plus i k, place_up graph i k)

pub place-lt : (graph : Graph) (i j : ℕ) → i < j → place graph i < place graph j
place-lt graph i j h =
    let there : i + (j - i) ≡ j = omega arith in
    omega (arith, rw there at (place_up graph i (j - i)))

pub place-le : (graph : Graph) (i j : ℕ) → i ≤ j → place graph i ≤ place graph j
place-le graph i j h = elim (dec_lt i j) [
  | yes before ↦ omega (arith, place-lt graph i j before)
  | no same ↦ let equal : i ≡ j = omega arith in ground (arith, equal)
]

pub place_test : (graph : Graph) (i j : ℕ) → ltb (2 * place graph i) (2 * place graph j) ≡ ltb i j
place_test graph i j = elim (dec_lt i j) [
  | yes before ↦ rw (lt→ltb i j before) (lt→ltb _ _ (omega (arith, place-lt graph i j before)))
  | no after ↦ elim (dec_lt j i) [
    | yes strictly ↦
        rw (le→ltb i j (omega arith)) (le→ltb _ _ (omega (arith, place-lt graph j i strictly)))
    | no same ↦ let equal : i ≡ j = omega arith in ground (arith, equal)
  ]
]

pub place_equal : (graph : Graph) (i j : ℕ) → (2 * place graph i == 2 * place graph j) ≡ (j == i)
place_equal graph i j = elim (dec_lt i j) [
  | yes before ↦ rw (ne→== j i (omega arith)) (ne→== _ _ (omega (arith, place-lt graph i j before)))
  | no after ↦ elim (dec_lt j i) [
    | yes strictly ↦
        rw (ne→== j i (omega arith)) (ne→== _ _ (omega (arith, place-lt graph j i strictly)))
    | no same ↦ let equal : i ≡ j = omega arith in ground (arith, equal)
  ]
]

-- A graph whose file is smaller than 2^64 words.
pub record IsSmall (vertices : ℕ) (s : Gen) : Type 0 where
  pub undirected : IsUndirected vertices s
  pub fits : 2 * place s.graph vertices < u64_mod

module _ (vertices : ℕ) (s : Gen) (small : IsSmall vertices s) where
  pub place-fits : (i : ℕ) → i ≤ vertices → 2 * place s.graph i < u64_mod
  place-fits i h = elim (dec_lt i vertices) [
    | yes inside ↦ omega (arith, place-lt s.graph i vertices inside, small.fits)
    | no last ↦ let same : i ≡ vertices = omega arith in rw same small.fits
  ]

  pub degree-length : (i : ℕ) → i < vertices → s.deg i ≡ length (s.graph i)
  degree-length i h =
      omega (arith, small.undirected.degrees i, place-fits (suc i) h, place-suc s.graph i)

  pub vert_to_addr-place : (i : ℕ) → i ≤ vertices → vert_to_addr s.deg i ≡ 2 * place s.graph i
  unfolding vert_to_addr place
  vert_to_addr-place zero h = refl
  vert_to_addr-place (suc i) h = omega (
    arith,
    vert_to_addr-place i (omega arith),
    degree-length i h,
    place-fits (suc i) h,
    place-suc s.graph i,
  )

-- The memory holds the words from word `p` on.
abbrev pub Holds : Array → ℕ → List ℕ → Type 0
Holds mem p [] = Unit
Holds mem p (w ∷ ws) = (mem p ≡ w) × Holds mem (suc p) ws

pub Holds-append :
    (mem : Array) (p q : ℕ) (xs ys : List ℕ)
    → q ≡ p + length xs
    → Holds mem p (xs ++ ys)
    → Holds mem p xs × Holds mem q ys
Holds-append mem p q [] ys e h = let same : p ≡ q = omega arith in (tt, rw same at h)
Holds-append mem p q (x ∷ xs) ys e (h, hs) =
    let (left, right) = Holds-append mem (suc p) q xs ys (omega arith) hs in ((h, left), right)

-- A list is held by the array that looks it up.
pub get_or-Holds :
    (d p : ℕ) (ws : List ℕ) (mem : Array) → ((i : ℕ) → mem (p + i) ≡ get_or ws i d) → Holds mem p ws
get_or-Holds d p [] mem same = tt
get_or-Holds d p (w ∷ ws) mem same = (
  ground (arith, same 0),
  get_or-Holds d (suc p) ws mem (λ i. ground (arith, same (suc i), plus_suc p i)),
)
