-- ===== src/Graphs.antt =====
-- The converter from a Matrix Market file to the input file of the PageRank accelerator:
-- sw/app/inputs/matrix2graph.cpp.  A line is a comment or the numbers that it begins with; the
-- output is the sequence of 64-bit words written, with the two counts printed at the end.
pub mod Counting
pub mod Layout
pub mod Drawn
pub mod Conversion
use amorphos_fsrf.Common.{
  ℕ, zero, suc, ◌-◌, ◌/◌, ◌%◌, Bool, true, false, not, List, [], ◌∷◌, ◌++◌, add64, mul64, sub64,
  u64_max, ltb, leb, ◌==◌, if◌then◌else◌,
}
use mathlib.Core.List.{flatten}
use amorphos_fsrf.PageRank.{Outcome, done, aborted, ◌>>=◌, assert, Array, put}

pub data Line : Type 0 where
  comment : Line
  numbers : List ℕ → Line

-- The loop that skips comments: the first other line, and the lines after it.
unfoldable pub skip_comments : List Line → Outcome (List ℕ × List Line)
skip_comments [] = aborted
skip_comments (comment ∷ rest) = skip_comments rest
skip_comments (numbers ns ∷ rest) = done (ns, rest)

-- `sscanf` of the three dimensions.
pub dimensions : List ℕ → Outcome (ℕ × ℕ × ℕ)
dimensions (rows ∷ cols ∷ entries ∷ more) = done (rows, cols, entries)
dimensions _ = aborted

-- `strtoul` twice; it gives 0 where there is no number.
unfoldable pub coordinates : Line → ℕ × ℕ
coordinates comment = (0, 0)
coordinates (numbers []) = (0, 0)
coordinates (numbers (src ∷ [])) = (src, 0)
coordinates (numbers (src ∷ dst ∷ more)) = (src, dst)

-- The three vectors.
pub record Degrees : Type 0 where
  pub num_in_edges : Array
  pub num_out_edges : Array
  pub in_edges : ℕ → List ℕ

pub no_edges : Degrees
no_edges = record { num_in_edges = λ v. 0; num_out_edges = λ v. 0; in_edges = λ v. [] }

-- One edge counted at both ends and pushed on the list of its target.
pub add_edge : ℕ → ℕ → Degrees → Degrees
add_edge src dst d = record {
  num_in_edges = put d.num_in_edges dst (add64 (d.num_in_edges dst) 1);
  num_out_edges = put d.num_out_edges src (add64 (d.num_out_edges src) 1);
  in_edges = λ v. if v == dst then d.in_edges v ++ src ∷ [] else d.in_edges v;
}

-- One round of the loop over the entries.
pub read_entry : Bool → ℕ → Line → Degrees → Outcome Degrees
read_entry symmetric verts line d =
    let (from, to) = coordinates line in
    assert (not (from == 0)) >>= λ _. assert (not (to == 0)) >>= λ _.
    let src = sub64 from 1 in
    let dst = sub64 to 1 in
    assert (ltb src verts) >>= λ _. assert (ltb dst verts) >>= λ _.
    done (if symmetric then add_edge dst src (add_edge src dst d) else add_edge src dst d)

pub read_entries : ℕ → Bool → ℕ → List Line → Degrees → Outcome Degrees
read_entries zero symmetric verts lines d = done d
read_entries (suc n) symmetric verts [] d = aborted
read_entries (suc n) symmetric verts (line ∷ rest) d =
    read_entry symmetric verts line d >>= λ d'. read_entries n symmetric verts rest d'

-- `n` vertices from `i` on: the two counts of each.
pub vertex_words : Degrees → ℕ → ℕ → List ℕ
vertex_words d zero i = []
vertex_words d (suc n) i = d.num_in_edges i ∷ d.num_out_edges i ∷ vertex_words d n (suc i)

unfoldable pub repeat : ℕ → ℕ → List ℕ
repeat zero val = []
repeat (suc n) val = val ∷ repeat n val

-- The vertices of the padding: the first has all its edges.
pub vertex_padding : ℕ → ℕ → ℕ → List ℕ
vertex_padding extra_edges zero i = []
vertex_padding extra_edges (suc n) i =
    let val = if i == 0 then extra_edges else 0 in val ∷ val ∷ vertex_padding extra_edges n (suc i)

pub edge_words : (ℕ → List ℕ) → ℕ → ℕ → List ℕ
edge_words in_edges zero i = []
edge_words in_edges (suc n) i = in_edges i ++ edge_words in_edges n (suc i)

pub record Written : Type 0 where
  pub file : List ℕ
  pub final_verts : ℕ
  pub final_edges : ℕ

pub page_padding : ℕ → ℕ
page_padding n = 512 - n % 512

pub write_graph : ℕ → ℕ → Degrees → Written
write_graph verts edges d =
    let extra_verts = page_padding verts in
    let extra_edges = page_padding edges in
    record {
      file = flatten (
          vertex_words d verts 0
          ∷ vertex_padding extra_edges extra_verts 0
          ∷ edge_words d.in_edges verts 0
          ∷ repeat extra_edges verts
          ∷ repeat verts (u64_max / verts)
          ∷ repeat extra_verts 0
          ∷ repeat verts 0
          ∷ repeat extra_verts 0
          ∷ []);
      final_verts = add64 verts extra_verts;
      final_edges = add64 edges extra_edges;
    }

pub matrix2graph : Bool → List Line → Outcome Written
matrix2graph symmetric lines = skip_comments lines >>= λ (header, body).
    dimensions header >>= λ (rows, cols, entries). assert (not (rows == 0)) >>= λ _.
    assert (rows == cols) >>= λ _. assert (not (entries == 0)) >>= λ _.
    let verts = rows in
    let edges = if symmetric then mul64 2 entries else entries in
    read_entries entries symmetric verts body no_edges >>= λ d. done (write_graph verts edges d)
