-- ===== src/Triangles/Second.antt =====
-- The loop over the second vertices, read by wide words, counts what a walk by pairs counts.
use Prim.Native.Nat.{max, min}
use amorphos_fsrf.Common.{
  ℕ, zero, suc, ◌+◌, ◌-◌, ◌*◌, ◌/◌, ◌%◌, ◌<◌, ◌≤◌, ◌≡◌, refl, ◌∙◌, ap, Bool, true, false, some,
  u64_mod, add64, ltb, leb, ◌==◌, to_num, Bool-cases, inl, inr, if◌then◌else◌, suc_plus, plus_suc,
  arith,
}
use native.Mathlib.Decide.{dec_lt}
use amorphos_fsrf.PageRank.{Array}
use amorphos_fsrf.Triangles.{
  Ret, next, third_blocks, second_item, second_words, second_blocks, part_start, part_end, blocks,
  request, request_short,
}
use amorphos_fsrf.Triangles.Reference.{corners}
use amorphos_fsrf.Triangles.Third.{
  IsRange, third-linked, third_blocks-num_tris, part_start-pairs, part_end-pairs,
}

-- Two words that begin and end a range of pairs.
abbrev pub IsPair : ℕ → ℕ → Type 0
IsPair start end = IsRange start end (start / 2) (end / 2)

-- The `n` pairs from pair `p` on are such.
abbrev pub ArePairs : Array → ℕ → ℕ → Type 0
ArePairs mem p n = (q : ℕ) → p ≤ q → q < p + n → IsPair (mem (2 * q)) (mem (2 * q + 1))

-- The count goes up if a triangle was found.
found_tris :
    (found : Bool) (after : Ret)
    → after.num_tris < u64_mod
    → (if found then record after { num_tris = add64 after.num_tris 1 } else after).num_tris
      ≡ (after.num_tris + to_num found) % u64_mod
found_tris true after small = refl
found_tris false after small = omega arith

module _ (mem2 mem3 : Array) (node start : ℕ) where
  corners_split :
      (p n m : ℕ)
      → corners mem2 mem3 node start p (n + m)
        ≡ corners mem2 mem3 node start p n + corners mem2 mem3 node start (p + n) m
  unfolding corners
  corners_split p zero m = ground arith
  corners_split p (suc n) m =
      rw (suc_plus n m, corners_split (suc p) n m, plus_suc p n) (omega arith)

  corner : ℕ → ℕ
  corner p = corners mem2 mem3 node start p 1

  corners-suc :
      (p n : ℕ)
      → corners mem2 mem3 node start p (suc n) ≡ corner p + corners mem2 mem3 node start (suc p) n
  unfolding corners corner
  corners-suc p n = omega arith

  second_item-corner :
      (p x : ℕ) (ret : Ret)
      → x ≡ 2 * p
      → IsPair (mem2 (2 * p)) (mem2 (2 * p + 1))
      → ret.num_tris < u64_mod
      → (second_item mem2 mem3 node start x ret).num_tris ≡ (ret.num_tris + corner p) % u64_mod
  unfolding second_item corner corners request_short
  second_item-corner p x ret place pair small = elim (Bool-cases (ltb (mem2 (2 * p)) start)) [
    | inl before ↦ rw (place, before) (omega arith)
    | inr later ↦
        let from = mem2 (2 * p) in
        let to = mem2 (2 * p + 1) in
        let counted = request_short 1 2 ret in
        let kept =
          third_blocks-num_tris mem3 node from to (blocks from to) (from / 8) false counted in
        let run = third_blocks mem3 node from to (blocks from to) (from / 8) false counted in
        rw (place, later)
          (found_tris run.0 run.1 (omega (arith, kept))
            ∙ rw (kept, third-linked mem3 node from to (from / 2) (to / 2) counted pair)
                (omega arith))
  ]

  no_corners : (p x : ℕ) → x < u64_mod → x ≡ (x + corners mem2 mem3 node start p 0) % u64_mod
  unfolding corners
  no_corners p x small = omega arith

  second_words-corners :
      (b t n o offset : ℕ) (ret : Ret)
      → offset ≡ 2 * o
      → o ≤ t
      → t ≤ n + o
      → t ≤ 4
      → ArePairs mem2 (4 * b + o) (t - o)
      → ret.num_tris < u64_mod
      → (after : Ret) × (second_words mem2 mem3 node start b (2 * t) n offset ret ≡ some after)
        × (after.num_tris
            ≡ (ret.num_tris + corners mem2 mem3 node start (4 * b + o) (t - o)) % u64_mod)
  unfolding second_words
  second_words-corners b t zero o offset ret place le enough short pairs small =
      let stop : (offset == 2 * t) ≡ true = ground arith in
      let none_left : t - o ≡ 0 = omega arith in
      (ret, rw stop refl, rw none_left (no_corners (4 * b + o) ret.num_tris small))
  second_words-corners b t (suc n) o offset ret place le enough short pairs small =
      elim (dec_lt o t) [
        | no past ↦
            let stop : (offset == 2 * t) ≡ true = ground arith in
            let none_left : t - o ≡ 0 = omega arith in
            (ret, rw stop refl, rw none_left (no_corners (4 * b + o) ret.num_tris small))
        | yes more ↦
            let go_on : (offset == 2 * t) ≡ false = ground arith in
            let within : leb (offset + 2) 8 ≡ true = ground arith in
            let next = second_item mem2 mem3 node start (b * 8 + offset) ret in
            let counted =
              second_item-corner (4 * b + o) (b * 8 + offset) ret (omega arith)
                (pairs (4 * b + o) (omega arith) (omega arith)) small in
            let (after, ran, total) =
              second_words-corners b t n (suc o) (offset + 2) next (omega arith) (omega arith)
                (omega arith) short (λ q lo hi. pairs q (omega arith) (omega arith))
                (omega (arith, counted)) in
            let left : t - o ≡ suc (t - suc o) = omega arith in
            let place' : 4 * b + suc o ≡ suc (4 * b + o) = omega arith in
            (
              after,
              rw (go_on, within) ran,
              total
                  ∙ rw (left, corners-suc (4 * b + o) (t - suc o), place') (omega (arith, counted)),
            )
      ]

  corners_next :
      (a e b : ℕ)
      → a < 4 * suc b
      → corners mem2 mem3 node start (min e (4 * suc b)) (e - max a (4 * suc b))
        ≡ corners mem2 mem3 node start (max a (4 * suc b)) (e - max a (4 * suc b))
  unfolding corners
  corners_next a e b h = elim (dec_lt (4 * suc b) e) [
    | yes more ↦
        let same : min e (4 * suc b) ≡ max a (4 * suc b) = omega arith in
        ap (λ (p : ℕ). corners mem2 mem3 node start p (e - max a (4 * suc b))) same
    | no none_more ↦ let none_left : e - max a (4 * suc b) ≡ 0 = omega arith in rw none_left refl
  ]

  -- The walk from block `b` on is the walk over the block and the walk behind it.
  corners_blocks :
      (a e b : ℕ)
      → a < 4 * suc b
      → 4 * b < e
      → a < e
      → corners mem2 mem3 node start (max a (4 * b)) (e - max a (4 * b))
        ≡ corners mem2 mem3 node start (max a (4 * b)) (min e (4 * suc b) - max a (4 * b))
          + corners mem2 mem3 node start (max a (4 * suc b)) (e - max a (4 * suc b))
  corners_blocks a e b low high some_left =
      let lo = max a (4 * b) in
      let hi = min e (4 * suc b) in
      let rest = e - max a (4 * suc b) in
      let sizes : e - lo ≡ hi - lo + rest = omega arith in
      let there : lo + (hi - lo) ≡ hi = omega arith in
      rw (sizes, corners_split lo (hi - lo) rest, there, corners_next a e b low) refl

  block-corners :
      (end a e b : ℕ) (ret : Ret)
      → start ≡ 2 * a
      → end ≡ 2 * e
      → a < e
      → end < u64_mod
      → start / 8 ≤ b
      → b ≤ (end - 1) / 8
      → ArePairs mem2 (max a (4 * b)) (e - max a (4 * b))
      → ret.num_tris < u64_mod
      → (after : Ret) × (second_words mem2 mem3 node start b
            (part_end end b)
            4
            (part_start start b)
            ret
          ≡ some after)
        × (after.num_tris
            ≡ (ret.num_tris
                + corners mem2 mem3 node start (max a (4 * b)) (min e (4 * suc b) - max a (4 * b)))
              % u64_mod)
  block-corners end a e b ret es ee some_left fits low high pairs small =
      let from = max a (4 * b) - 4 * b in
      let to = min e (4 * suc b) - 4 * b in
      let place : 4 * b + from ≡ max a (4 * b) = omega arith in
      let size : to - from ≡ min e (4 * suc b) - max a (4 * b) = omega arith in
      let (after, ran, total) =
        second_words-corners b to 4 from (2 * from) ret refl (omega arith) (omega arith)
          (omega arith) (λ q lo hi. pairs q (omega arith) (omega arith)) small in
      (
        after,
        rw (part_start-pairs start a b es low, part_end-pairs end e b ee (omega arith) fits high)
            ran,
        total ∙ rw (place, size) refl,
      )

  second_blocks-corners :
      (end a e n b : ℕ) (ret : Ret)
      → start ≡ 2 * a
      → end ≡ 2 * e
      → a < e
      → end < u64_mod
      → start / 8 ≤ b
      → n + b ≡ (end - 1) / 8 + 1
      → ArePairs mem2 (max a (4 * b)) (e - max a (4 * b))
      → ret.num_tris < u64_mod
      → (after : Ret) × (second_blocks mem2 mem3 node start end n b ret ≡ some after)
        × (after.num_tris
            ≡ (ret.num_tris + corners mem2 mem3 node start (max a (4 * b)) (e - max a (4 * b)))
              % u64_mod)
  unfolding second_blocks request
  second_blocks-corners end a e zero b ret es ee some_left fits low here pairs small =
      let none_left : e - max a (4 * b) ≡ 0 = omega arith in
      (ret, refl, rw none_left (no_corners (max a (4 * b)) ret.num_tris small))
  second_blocks-corners end a e (suc n) b ret es ee some_left fits low here pairs small =
      let (after, ran, total) =
        block-corners end a e b (request 1 ret) es ee some_left fits low (omega arith) pairs
          small in
      let (last, ran_on, total_on) =
        second_blocks-corners end a e n (suc b) after es ee some_left fits (omega arith)
          (omega arith) (λ q lo hi. pairs q (omega arith) (omega arith)) (omega (arith, total)) in
      let split = corners_blocks a e b (omega arith) (omega arith) some_left in
      (
        last,
        next (second_blocks mem2 mem3 node start end n (suc b)) ran ∙ ran_on,
        omega (arith, total, total_on, split),
      )

  -- The whole range.
  pub second-corners :
      (end : ℕ) (ret : Ret)
      → IsPair start end
      → ArePairs mem2 (start / 2) (end / 2 - start / 2)
      → ret.num_tris < u64_mod
      → (after : Ret) × (second_blocks mem2 mem3 node start end (blocks start end) (start / 8) ret
          ≡ some after)
        × (after.num_tris
            ≡ (ret.num_tris + corners mem2 mem3 node start (start / 2) (end / 2 - start / 2))
              % u64_mod)
  second-corners end ret (es, ee, some_left, fits) pairs small =
      let place : max (start / 2) (4 * (start / 8)) ≡ start / 2 = omega arith in
      let (after, ran, total) =
        second_blocks-corners end (start / 2) (end / 2) (blocks start end) (start / 8) ret es ee
          some_left fits (omega arith) (omega arith)
          (λ q lo hi. pairs q (omega arith) (omega arith)) small in
      (after, ran, total ∙ rw place refl)
