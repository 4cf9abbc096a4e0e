-- ===== src/Triangles/Counting.antt =====
-- The accelerator counts the triangles that a walk by pairs counts.
use amorphos_fsrf.Common.{
  ℕ, zero, suc, ◌+◌, ◌-◌, ◌*◌, ◌/◌, ◌%◌, ◌<◌, ◌≤◌, ◌≡◌, refl, ◌∙◌, ap, true, false, some, u64_mod,
  u64_max, add64, ltb, ◌==◌, Bool-cases, ◌⊎◌, inl, inr, if◌then◌else◌, arith,
}
use amorphos_fsrf.PageRank.{Array}
use amorphos_fsrf.Triangles.{
  Ret, Scan, next, no_reqs, request, request_short, first_item, first_words, first_blocks, triangle,
}
use amorphos_fsrf.Triangles.Reference.{corners, triangles}
use amorphos_fsrf.Triangles.Second.{IsPair, ArePairs, second-corners}

module _ (mem1 mem2 mem3 : Array) where
  -- A pair of the first memory is a separator, or a range of pairs of the second that are ranges.
  abbrev pub IsNeighbour : ℕ → Type 0
  IsNeighbour p =
      (mem1 (2 * p) ≡ u64_max)
      ⊎ (IsPair (mem1 (2 * p)) (mem1 (2 * p + 1))
          × ArePairs mem2 (mem1 (2 * p) / 2) (mem1 (2 * p + 1) / 2 - mem1 (2 * p) / 2))

  -- The pairs from `p` to `q` are done between `s` and `t`: whatever comes after them, the triangles
  -- counted and those still to count are as many.
  pub record Advances (p q : ℕ) (s t : Scan) : Type 0 where
    pub fits : t.ret.num_tris < u64_mod
    pub keeps :
        (m : ℕ)
        → (t.ret.num_tris + triangles mem1 mem2 mem3 t.cur_node q m) % u64_mod
          ≡ (s.ret.num_tris + triangles mem1 mem2 mem3 s.cur_node p (q - p + m)) % u64_mod

  one_more : (p m : ℕ) → suc p - p + m ≡ suc m
  one_more p m = omega arith

  Advances-trans :
      (p q r : ℕ) (s t u : Scan)
      → p ≤ q
      → q ≤ r
      → Advances p q s t
      → Advances q r t u
      → Advances p r s u
  Advances-trans p q r s t u first second to_q to_r = record {
    fits = to_r.fits;
    keeps = λ m.
        let sum : q - p + (r - q + m) ≡ r - p + m = omega arith in
        to_r.keeps m ∙ to_q.keeps (r - q + m) ∙ rw sum refl;
  }

  pub separator :
      (node p m : ℕ)
      → mem1 (2 * p) ≡ u64_max
      → triangles mem1 mem2 mem3 node p (suc m) ≡ triangles mem1 mem2 mem3 (2 * p + 2) (suc p) m
  unfolding triangles
  separator node p m sep =
      let yes_sep : (mem1 (2 * p) == u64_max) ≡ true = ground arith in rw yes_sep refl

  -- What a pair that is no separator adds.
  unfoldable pub share : ℕ → ℕ → ℕ
  share node p =
      if ltb (mem1 (2 * p)) node
      then 0
      else corners mem2 mem3 node (mem1 (2 * p)) (mem1 (2 * p) / 2)
          (mem1 (2 * p + 1) / 2 - mem1 (2 * p) / 2)

  pub neighbour :
      (node p m : ℕ)
      → (mem1 (2 * p) == u64_max) ≡ false
      → triangles mem1 mem2 mem3 node p (suc m)
        ≡ share node p + triangles mem1 mem2 mem3 node (suc p) m
  unfolding triangles share
  neighbour node p m no_sep = rw no_sep refl

  Advances-separator :
      (p : ℕ) (s t : Scan)
      → mem1 (2 * p) ≡ u64_max
      → s.ret.num_tris < u64_mod
      → t.ret.num_tris ≡ s.ret.num_tris
      → t.cur_node ≡ 2 * p + 2
      → Advances p (suc p) s t
  Advances-separator p s t sep small same moved = record {
    fits = omega (arith, same);
    keeps = λ m. rw (one_more p m, separator s.cur_node p m sep, same, moved) refl;
  }

  Advances-neighbour :
      (p : ℕ) (s t : Scan)
      → (mem1 (2 * p) == u64_max) ≡ false
      → t.ret.num_tris ≡ (s.ret.num_tris + share s.cur_node p) % u64_mod
      → t.cur_node ≡ s.cur_node
      → Advances p (suc p) s t
  Advances-neighbour p s t no_sep added same = record {
    fits = omega (arith, added);
    keeps = λ m. rw (one_more p m, neighbour s.cur_node p m no_sep, added, same) (omega arith);
  }

  first_item-Advances :
      (i j p : ℕ) (s : Scan)
      → i * 8 + j ≡ 2 * p
      → 2 * p + 2 < u64_mod
      → IsNeighbour p
      → s.ret.num_tris < u64_mod
      → (t : Scan) × (first_item mem1 mem2 mem3 i j s ≡ some t) × Advances p (suc p) s t
  unfolding first_item request_short share
  first_item-Advances i j p s place room (inl sep) small =
      let yes_sep : (mem1 (i * 8 + j) == u64_max) ≡ true = rw place (ground (arith, sep)) in
      let t : Scan = record { cur_node = add64 (2 + i * 8) j; ret = request_short 0 2 s.ret } in
      (t, rw yes_sep refl, Advances-separator p s t sep small refl (omega (arith, place)))
  first_item-Advances i j p s place room (inr (pair, pairs)) small =
      let no_sep : (mem1 (2 * p) == u64_max) ≡ false = ground (arith, pair.0) in
      elim (Bool-cases (ltb (mem1 (2 * p)) s.cur_node)) [
        | inl before ↦
            let t : Scan = record s { ret = request_short 0 2 s.ret } in
            (
              t,
              rw (place, no_sep, before) refl,
              Advances-neighbour p s t no_sep (rw before (omega arith)) refl,
            )
        | inr later ↦
            let (after, ran, total) =
              second-corners mem2 mem3 s.cur_node (mem1 (2 * p)) (mem1 (2 * p + 1))
                (request_short 0 2 s.ret) pair pairs small in
            let t : Scan = record s { ret = after } in
            (
              t,
              rw (place, no_sep, later) (next (λ a. some (record s { ret = a })) ran),
              Advances-neighbour p s t no_sep (total ∙ rw later refl) refl,
            )
      ]

  first_words-Advances :
      (i n j p : ℕ) (s : Scan)
      → i * 8 + j ≡ 2 * p
      → 2 * (p + n) < u64_mod
      → ((q : ℕ) → p ≤ q → q < p + n → IsNeighbour q)
      → s.ret.num_tris < u64_mod
      → (t : Scan) × (first_words mem1 mem2 mem3 i n j s ≡ some t) × Advances p (p + n) s t
  unfolding first_words
  first_words-Advances i zero j p s place room near small =
      (s, refl, record { fits = small; keeps = λ m. ground arith })
  first_words-Advances i (suc n) j p s place room near small =
      let (t, ran, here) =
        first_item-Advances i j p s place (omega arith) (near p (omega arith) (omega arith))
          small in
      let (u, ran_on, there) =
        first_words-Advances i n (j + 2) (suc p) t (omega arith) (omega arith)
          (λ q lo hi. near q (omega arith) (omega arith)) here.fits in
      let end : suc p + n ≡ p + suc n = omega arith in
      (
        u,
        next (first_words mem1 mem2 mem3 i n (j + 2)) ran ∙ ran_on,
        rw end at
            (Advances-trans p (suc p) (suc p + n) s t u (omega arith) (omega arith) here there),
      )

  -- A request for a wide word changes no count of triangles.
  Advances-request :
      (p q : ℕ) (s t : Scan)
      → Advances p q (record s { ret = request 0 s.ret }) t
      → Advances p q s t
  unfolding request
  Advances-request p q s t done = record { fits = done.fits; keeps = done.keeps }

  first_blocks-Advances :
      (n i : ℕ) (s : Scan)
      → 8 * (i + n) < u64_mod
      → ((q : ℕ) → 4 * i ≤ q → q < 4 * (i + n) → IsNeighbour q)
      → s.ret.num_tris < u64_mod
      → (t : Scan) × (first_blocks mem1 mem2 mem3 n i s ≡ some t)
        × Advances (4 * i) (4 * (i + n)) s t
  unfolding first_blocks request
  first_blocks-Advances zero i s room near small =
      (s, refl, record { fits = small; keeps = λ m. ground arith })
  first_blocks-Advances (suc n) i s room near small =
      let begun : Scan = record s { ret = request 0 s.ret } in
      let (t, ran, here) =
        first_words-Advances i 4 0 (4 * i) begun (omega arith) (omega arith)
          (λ q lo hi. near q (omega arith) (omega arith)) small in
      let (u, ran_on, there) =
        first_blocks-Advances n (suc i) t (omega arith)
          (λ q lo hi. near q (omega arith) (omega arith)) here.fits in
      let mid : 4 * suc i ≡ 4 * i + 4 = omega arith in
      let end : 4 * (suc i + n) ≡ 4 * (i + suc n) = omega arith in
      (
        u,
        next (first_blocks mem1 mem2 mem3 n (suc i)) ran ∙ ran_on,
        Advances-request (4 * i) (4 * (i + suc n)) s u (
            Advances-trans (4 * i) (4 * i + 4) (4 * (i + suc n)) begun t u (omega arith)
              (omega arith) here (rw (mid, end) at there)),
      )

  -- For memories whose pairs are separators or ranges, `triangle` of `len` wide words returns, and
  -- its count is the number of triangles that a walk over the pairs finds, modulo 2^64: the walk
  -- reads no wide word, keeps the place where the vertex of the pair begins, and passes over
  -- neighbours that come before it.
  pub triangle-triangles :
      (len : ℕ)
      → 8 * len < u64_mod
      → ((p : ℕ) → p < 4 * len → IsNeighbour p)
      → (ret : Ret) × (triangle mem1 mem2 mem3 len ≡ some ret)
        × (ret.num_tris ≡ triangles mem1 mem2 mem3 0 0 (4 * len) % u64_mod)
  unfolding triangle no_reqs triangles
  triangle-triangles len room near =
      let walk = λ (k : ℕ). triangles mem1 mem2 mem3 0 0 k % u64_mod in
      let (t, ran, all) =
        first_blocks-Advances len 0 (record { cur_node = 0; ret = no_reqs }) (omega arith)
          (λ q lo hi. near q (omega arith)) (omega arith) in
      let end : 4 * (0 + len) - 4 * 0 + 0 ≡ 4 * len = omega arith in
      let total = all.keeps 0 in
      let counted : t.ret.num_tris ≡ walk (4 * (0 + len) - 4 * 0 + 0) =
        omega (arith, all.fits, total) in
      (t.ret, next (λ s. some s.ret) ran, counted ∙ ap walk end)
