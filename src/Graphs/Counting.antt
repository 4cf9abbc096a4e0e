-- ===== src/Graphs/Counting.antt =====
-- The counts and lists of matrix2graph.cpp agree while the entries are read.
use amorphos_fsrf.Common.{
  ℕ, zero, suc, ◌+◌, ◌*◌, ◌<◌, ◌≤◌, ◌≡◌, refl, Bool, true, false, List, [], ◌∷◌, length,
  length-append, All, add64, sub64, u64_mod, lt→ltb, ne→==, if◌then◌else◌, arith, sub64,
}
use amorphos_fsrf.PageRank.{done}
use amorphos_fsrf.PageRank.Reference.{sum_from}
use amorphos_fsrf.PageRank.Sums.{le-sum_from, sum_from-put, sum_from_zero}
use amorphos_fsrf.Graphs.{Line, coordinates, Degrees, no_edges, add_edge, read_entry, read_entries}

-- `k` edges have been counted, all at the first `verts` vertices, and each list is as long as its count.
pub record IsCounted (verts k : ℕ) (d : Degrees) : Type 0 where
  pub total : sum_from d.num_in_edges 0 verts ≡ k
  pub listed : (v : ℕ) → length (d.in_edges v) ≡ d.num_in_edges v

pub no_edges-IsCounted : (verts : ℕ) → IsCounted verts 0 no_edges
unfolding no_edges
no_edges-IsCounted verts = record {
  total = sum_from_zero (λ v. 0) 0 verts (λ i h. refl);
  listed = λ v. refl;
}

add_edge-IsCounted :
    (verts k src dst : ℕ) (d : Degrees)
    → dst < verts
    → k + 1 < u64_mod
    → IsCounted verts k d
    → IsCounted verts (k + 1) (add_edge src dst d)
unfolding add_edge
add_edge-IsCounted verts k src dst d inside fits ok =
    let small : d.num_in_edges dst ≤ k =
      omega (arith, le-sum_from d.num_in_edges 0 verts dst (omega arith) (omega arith), ok.total) in
    record {
      total = omega (
        arith,
        ok.total,
        sum_from-put d.num_in_edges 0 verts dst (add64 (d.num_in_edges dst) 1) (omega arith)
            (omega arith),
      );
      listed = λ v. ground (arith, ok.listed v, length-append (d.in_edges v) (src ∷ []));
    }

-- How many edges an entry stands for.
abbrev pub edges_of : Bool → ℕ
edges_of symmetric = if symmetric then 2 else 1

-- An entry names two of the vertices, counted from 1.
abbrev pub IsEntry : ℕ → Line → Type 0
IsEntry verts line =
    (0 < (coordinates line).0)
    × ((coordinates line).0 ≤ verts)
    × (0 < (coordinates line).1)
    × ((coordinates line).1 ≤ verts)

-- The state after the entry of an edge, which is counted once or in both directions.
unfoldable pub enter : Bool → ℕ → ℕ → Degrees → Degrees
enter symmetric src dst d =
    if symmetric then add_edge dst src (add_edge src dst d) else add_edge src dst d

enter-IsCounted :
    (symmetric : Bool) (verts k src dst : ℕ) (d : Degrees)
    → src < verts
    → dst < verts
    → k + edges_of symmetric < u64_mod
    → IsCounted verts k d
    → IsCounted verts (k + edges_of symmetric) (enter symmetric src dst d)
unfolding enter
enter-IsCounted true verts k src dst d hs hd fits ok =
    let once = add_edge-IsCounted verts k src dst d hd (omega arith) ok in
    let twice : k + 1 + 1 ≡ k + 2 = omega arith in
    rw twice at
      (add_edge-IsCounted verts (k + 1) dst src (add_edge src dst d) hs (omega arith) once)
enter-IsCounted false verts k src dst d hs hd fits ok =
    add_edge-IsCounted verts k src dst d hd fits ok

pub read_entry_lem :
    (symmetric : Bool) (verts : ℕ) (line : Line) (d : Degrees)
    → verts < u64_mod
    → IsEntry verts line
    → read_entry symmetric verts line d
      ≡ done (enter symmetric (sub64 (coordinates line).0 1) (sub64 (coordinates line).1 1) d)
unfolding read_entry enter
read_entry_lem symmetric verts line d size (some_src, src_fits, some_dst, dst_fits) =
    rw
      (
        ne→== (coordinates line).0 0 (omega arith),
        ne→== (coordinates line).1 0 (omega arith),
        lt→ltb (sub64 (coordinates line).0 1) verts (omega arith),
        lt→ltb (sub64 (coordinates line).1 1) verts (omega arith),
      )
      refl

pub read_entry-IsCounted :
    (symmetric : Bool) (verts k : ℕ) (line : Line) (d : Degrees)
    → verts < u64_mod
    → IsEntry verts line
    → k + edges_of symmetric < u64_mod
    → IsCounted verts k d
    → (d' : Degrees) × (read_entry symmetric verts line d ≡ done d')
      × IsCounted verts (k + edges_of symmetric) d'
unfolding read_entry
read_entry-IsCounted symmetric verts k line d size entry fits ok =
    let (some_src, src_fits, some_dst, dst_fits) = entry in
    (
      _,
      read_entry_lem symmetric verts line d size entry,
      enter-IsCounted symmetric verts k _ _ d (omega arith) (omega arith) fits ok,
    )

-- All `n` entries are read when as many lines are there, each an entry.
pub read_entries-IsCounted :
    (n : ℕ) (symmetric : Bool) (verts k : ℕ) (lines : List Line) (d : Degrees)
    → verts < u64_mod
    → n ≤ length lines
    → All (IsEntry verts) lines
    → k + edges_of symmetric * n < u64_mod
    → IsCounted verts k d
    → (d' : Degrees) × (read_entries n symmetric verts lines d ≡ done d')
      × IsCounted verts (k + edges_of symmetric * n) d'
unfolding read_entries
read_entries-IsCounted zero symmetric verts k lines d size many entries fits ok =
    let same : k ≡ k + edges_of symmetric * 0 = omega arith in (d, refl, rw same at ok)
read_entries-IsCounted (suc n) symmetric verts k [] d size many entries fits ok =
    absurd (omega arith)
read_entries-IsCounted (suc n) symmetric verts k (line ∷ rest) d size many entries fits ok =
    let step = edges_of symmetric in
    let (d', read, counted) =
      read_entry-IsCounted symmetric verts k line d size entries.0 (omega arith) ok in
    let (d'', read_rest, counted_rest) =
      read_entries-IsCounted n symmetric verts (k + step) rest d' size (omega arith) entries.1
        (omega arith) counted in
    let same : k + step + step * n ≡ k + step * suc n = omega arith in
    (d'', rw read read_rest, rw same at counted_rest)
