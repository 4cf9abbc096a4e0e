-- ===== src/Generator/Symmetric.antt =====
-- The graph that the generator draws is undirected, and its degrees are the sizes of its sets.
use amorphos_fsrf.Common.{
  ℕ, zero, suc, ◌+◌, ◌%◌, ◌<◌, ◌≡◌, ◌≢◌, refl, sym, ◌∙◌, Bool, true, false, not, ◌&&◌, ◌||◌, List,
  length, add64, u64_mod, ltb, ◌==◌, if◌then◌else◌, Bool-cases, inl, inr, arith,
}
use native.Mathlib.Nat.{mod-lt}
use amorphos_fsrf.PageRank.{put}
use amorphos_fsrf.Generator.{
  Gen, Graph, Step, Run, generated, all_full, running, generate, follow, next, exited, contains,
  insert, insert_at, add_edge, draw, start,
}

pub contains-insert :
    (x y : ℕ) (xs : List ℕ) → contains y (insert x xs) ≡ ((y == x) || contains y xs)
unfolding insert contains
contains-insert x y xs = elim (Bool-cases (contains x xs)) [
  | inl here ↦ rw here (ground (arith, here))
  | inr new ↦ rw new refl
]

-- The sets after one insertion.
contains-insert_at :
    (g : Graph) (v x u y : ℕ)
    → contains y (insert_at g v x u) ≡ (((u == v) && (y == x)) || contains y (g u))
contains-insert_at g v x u y = elim (Bool-cases (u == v)) [
  | inl same ↦ rw same (contains-insert x y (g u))
  | inr other ↦ rw other refl
]

length-insert :
    (x : ℕ) (xs : List ℕ) → contains x xs ≡ false → length (insert x xs) ≡ suc (length xs)
unfolding insert
length-insert x xs new = rw new refl

length-insert_at :
    (g : Graph) (v x u : ℕ)
    → contains x (g v) ≡ false
    → length (insert_at g v x u) ≡ (if u == v then suc (length (g u)) else length (g u))
length-insert_at g v x u new = elim (Bool-cases (u == v)) [
  | inl same ↦
      let at_v : u ≡ v = ground (arith, same) in rw same (length-insert x (g u) (rw at_v new))
  | inr other ↦ rw other refl
]

-- Each edge stands in the sets of both its ends, which differ and are vertices, and the degrees are
-- the sizes of the sets.
pub record IsUndirected (vertices : ℕ) (s : Gen) : Type 0 where
  pub symmetric : (a b : ℕ) → contains a (s.graph b) ≡ contains b (s.graph a)
  pub loopless : (a : ℕ) → contains a (s.graph a) ≡ false
  pub in_range : (a b : ℕ) → contains b (s.graph a) ≡ true → (a < vertices) × (b < vertices)
  pub degrees : (a : ℕ) → s.deg a ≡ length (s.graph a) % u64_mod

start-IsUndirected : (vertices : ℕ) → IsUndirected vertices (start vertices)
unfolding start contains
start-IsUndirected vertices = record {
  symmetric = λ a b. refl;
  loopless = λ a. refl;
  in_range = λ a b h. ground (arith, h);
  degrees = λ a. refl;
}

-- A predicate of the state that a step goes on with, and of the one that a run ends with.
abbrev pub After : (Gen → Type 0) → Step → Type 0
After P (next t) = P t
After P exited = Unit

abbrev pub AtEnd : (Gen → Type 0) → Run → Type 0
AtEnd P (generated t) = P t
AtEnd P all_full = Unit
AtEnd P running = Unit

After-exit :
    (P : Gen → Type 0) (full : Bool) (t : Gen) → P t → After P (if full then exited else next t)
After-exit P true t h = tt
After-exit P false t h = h

module _ (vertices src dest : ℕ) (s : Gen) where
  -- The sets with the new edge.
  joined : Graph
  joined = insert_at (insert_at s.graph src dest) dest src

  contains-joined :
      (y u : ℕ)
      → contains y (joined u)
        ≡ (((u == dest) && (y == src)) || (((u == src) && (y == dest)) || contains y (s.graph u)))
  unfolding joined
  contains-joined y u =
      rw
        (
          contains-insert_at (insert_at s.graph src dest) dest src u y,
          contains-insert_at s.graph src dest u y,
        )
        refl

  joined-symmetric :
      IsUndirected vertices s → (a b : ℕ) → contains a (joined b) ≡ contains b (joined a)
  joined-symmetric ok a b =
      rw (contains-joined a b, contains-joined b a, ok.symmetric a b)
        (swap (b == dest) (a == src) (b == src) (a == dest) (contains b (s.graph a)))
    where
      swap : (p q r t c : Bool) → ((p && q) || ((r && t) || c)) ≡ ((t && r) || ((q && p) || c))
      swap p q r t c = ground arith

  joined-loopless : src ≢ dest → IsUndirected vertices s → (a : ℕ) → contains a (joined a) ≡ false
  joined-loopless apart ok a = contains-joined a a ∙ rw (ok.loopless a) (ground (arith, apart))

  joined-in_range :
      src < vertices
      → dest < vertices
      → IsUndirected vertices s
      → (a b : ℕ) → contains b (joined a) ≡ true
      → (a < vertices) × (b < vertices)
  joined-in_range hs hd ok a b h = elim (Bool-cases (contains b (s.graph a))) [
    | inl old ↦ ok.in_range a b old
    | inr new ↦
        let ends = rw new at (sym (contains-joined b a) ∙ h) in
        (ground (arith, ends, hs, hd), ground (arith, ends, hs, hd))
  ]

  joined-degrees :
      src ≢ dest
      → contains src (s.graph dest) ≡ false
      → IsUndirected vertices s
      → (a : ℕ)
      → put
          (put s.deg src (add64 (s.deg src) 1))
          dest
          (add64 (put s.deg src (add64 (s.deg src) 1) dest) 1)
          a
        ≡ length (joined a) % u64_mod
  unfolding joined
  joined-degrees apart new ok a =
      let first = insert_at s.graph src dest in
      let still_new : contains src (first dest) ≡ false =
        contains-insert_at s.graph src dest dest src ∙ rw new (ground (arith, apart)) in
      let absent : contains dest (s.graph src) ≡ false = ok.symmetric dest src ∙ new in
      ground (
        arith,
        apart,
        length-insert_at first dest src a still_new,
        length-insert_at s.graph src dest a absent,
        length-insert_at s.graph src dest dest absent,
        ok.degrees a,
        ok.degrees src,
        ok.degrees dest,
      )

  add_edge-IsUndirected :
      src < vertices
      → dest < vertices
      → src ≢ dest
      → contains src (s.graph dest) ≡ false
      → IsUndirected vertices s
      → After (IsUndirected vertices) (add_edge vertices src dest s)
  unfolding add_edge joined
  add_edge-IsUndirected hs hd apart new ok = After-exit (IsUndirected vertices) _ _ (record {
    symmetric = joined-symmetric ok;
    loopless = joined-loopless apart ok;
    in_range = joined-in_range hs hd ok;
    degrees = joined-degrees apart new ok;
  })

drawn-IsUndirected :
    (vertices : ℕ) (s : Gen) (n : ℕ)
    → IsUndirected vertices s
    → IsUndirected vertices (record s { draws = n })
drawn-IsUndirected vertices s n ok = record {
  symmetric = ok.symmetric;
  loopless = ok.loopless;
  in_range = ok.in_range;
  degrees = ok.degrees;
}

draw-IsUndirected :
    (rand : ℕ → ℕ) (vertices : ℕ) (s : Gen)
    → 0 < vertices
    → IsUndirected vertices s
    → After (IsUndirected vertices) (draw rand vertices s)
unfolding draw
draw-IsUndirected rand vertices s some_vertex ok =
    let src = rand s.draws % vertices in
    let dest = rand (s.draws + 1) % vertices in
    let drawn = drawn-IsUndirected vertices s (s.draws + 2) ok in
    elim (Bool-cases (not (src == dest) && not (contains src (s.graph dest)))) [
      | inl fresh ↦ rw fresh (
          add_edge-IsUndirected vertices src dest (record s { draws = s.draws + 2 })
            (mod-lt _ some_vertex) (mod-lt _ some_vertex) (ground (arith, fresh))
            (ground (arith, fresh)) drawn)
      | inr stale ↦ rw stale drawn
    ]

stops_here :
    (P : Gen → Type 0) (more : Bool) (s : Gen)
    → P s
    → AtEnd P (if more then running else generated s)
stops_here P true s h = tt
stops_here P false s h = h

goes_on :
    (P : Gen → Type 0) (more : Bool) (s : Gen) (step : Step) (rest : Gen → Run)
    → P s
    → After P step
    → ((t : Gen) → P t → AtEnd P (rest t))
    → AtEnd P (if more then follow step rest else generated s)
goes_on P true s (next t) rest h after keep = keep t after
goes_on P true s exited rest h after keep = tt
goes_on P false s step rest h after keep = h

from_IsUndirected :
    (rand : ℕ → ℕ) (fuel vertices edges : ℕ) (s : Gen)
    → 0 < vertices
    → IsUndirected vertices s
    → AtEnd (IsUndirected vertices) (generate rand fuel vertices edges s)
unfolding generate
from_IsUndirected rand zero vertices edges s some_vertex ok =
    stops_here (IsUndirected vertices) (ltb s.made edges) s ok
from_IsUndirected rand (suc fuel) vertices edges s some_vertex ok =
    goes_on (IsUndirected vertices) (ltb s.made edges) s (draw rand vertices s)
      (generate rand fuel vertices edges) ok (draw-IsUndirected rand vertices s some_vertex ok)
      (λ t. from_IsUndirected rand fuel vertices edges t some_vertex)

-- With at least one vertex, whatever `rand` gives and however many rounds are made, the graph with
-- which the generator ends is undirected: each edge stands in the sets of both its ends, which differ
-- and are vertices, and each degree is the size of its set modulo 2^64.
pub generate-IsUndirected :
    (rand : ℕ → ℕ) (fuel vertices edges : ℕ)
    → 0 < vertices
    → AtEnd (IsUndirected vertices) (generate rand fuel vertices edges (start vertices))
generate-IsUndirected rand fuel vertices edges some_vertex =
    from_IsUndirected rand fuel vertices edges (start vertices) some_vertex
      (start-IsUndirected vertices)
