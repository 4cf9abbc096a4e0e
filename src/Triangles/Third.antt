-- ===== src/Triangles/Third.antt =====
-- The loop over the third vertices, read by wide words, finds what a walk by pairs finds.
use Prim.Native.Nat.{max, min}
use amorphos_fsrf.Common.{
  ℕ, zero, suc, ◌+◌, ◌-◌, ◌*◌, ◌/◌, ◌<◌, ◌≤◌, ◌≡◌, refl, sym, ◌∙◌, ap, Bool, true, false, ◌||◌,
  ◌&&◌, u64_mod, sub64, ltb, leb, lt→ltb, ◌==◌, if◌then◌else◌, suc_plus, plus_suc, arith,
}
use native.Mathlib.Decide.{dec_lt}
use amorphos_fsrf.PageRank.{Array}
use amorphos_fsrf.Triangles.{
  Ret, match_words, third_blocks, part_start, part_end, blocks, request, request_short,
}
use amorphos_fsrf.Triangles.Reference.{linked}

or_false : (b : Bool) → (b || false) ≡ b
or_false true = refl
or_false false = refl

or_assoc : (a b c : Bool) → ((a || b) || c) ≡ (a || (b || c))
or_assoc true b c = refl
or_assoc false b c = refl

or_found : (t found l : Bool) → ((if t then true else found) || l) ≡ (found || (t || l))
or_found true true l = refl
or_found true false l = refl
or_found false found l = refl

-- A range of pairs, as the words say it: from word `2 * a` to word `2 * e`, not empty.
abbrev pub IsRange : ℕ → ℕ → ℕ → ℕ → Type 0
IsRange start end a e = (start ≡ 2 * a) × (end ≡ 2 * e) × (a < e) × (end < u64_mod)

pub part_start-pairs :
    (start a b : ℕ)
    → start ≡ 2 * a
    → start / 8 ≤ b
    → part_start start b ≡ 2 * (max a (4 * b) - 4 * b)
part_start-pairs start a b even low = ground arith

pub part_end-pairs :
    (end e b : ℕ)
    → end ≡ 2 * e
    → 0 < e
    → end < u64_mod
    → b ≤ (end - 1) / 8
    → part_end end b ≡ 2 * (min e (4 * suc b) - 4 * b)
part_end-pairs end e b even some small high = ground arith

module _ (mem3 : Array) (node : ℕ) where
  linked_none : (p q : ℕ) → linked mem3 node p 0 ≡ linked mem3 node q 0
  unfolding linked
  linked_none p q = refl

  pub linked_split :
      (p n m : ℕ)
      → linked mem3 node p (n + m) ≡ (linked mem3 node p n || linked mem3 node (p + n) m)
  unfolding linked
  linked_split p zero m = ground arith
  linked_split p (suc n) m =
      rw (suc_plus n m, linked_split (suc p) n m, plus_suc p n)
        (sym (
          or_assoc (mem3 (2 * p) == node) (linked mem3 node (suc p) n)
            (linked mem3 node (suc p + n) m)))

  -- Pair `o` of the wide word is next; the range has pairs `a` to `e` of the word.
  match_words-linked :
      (b a e n o offset : ℕ) (found : Bool)
      → n + o ≡ 4
      → e ≤ 4
      → offset ≡ 2 * o
      → match_words mem3 node b (2 * a) (2 * e) n offset found
        ≡ (found || linked mem3 node (4 * b + max o a) (e - max o a))
  unfolding match_words linked
  match_words-linked b a e zero o offset found here short at =
      let none_left : e - max o a ≡ 0 = omega arith in rw none_left (sym (or_false found))
  match_words-linked b a e (suc n) o offset found here short at =
      let later = λ (f : Bool).
        match_words-linked b a e n (suc o) (offset + 2) f (omega arith) short (omega arith) in
      elim (dec_lt o a) [
        | yes before ↦
            let next : max (suc o) a ≡ max o a = omega arith in
            let skipped : leb (2 * a) offset ≡ false = ground arith in
            rw skipped (rw next at (later found))
        | no reached ↦ elim (dec_lt o e) [
          | yes inside ↦
              let place : 4 * b + max o a ≡ 4 * b + o = omega arith in
              let next_place : 4 * b + max (suc o) a ≡ suc (4 * b + o) = omega arith in
              let left : e - max o a ≡ suc (e - suc o) = omega arith in
              let next_left : e - max (suc o) a ≡ e - suc o = omega arith in
              let word : b * 8 + offset ≡ 2 * (4 * b + o) = omega arith in
              let lower : leb (2 * a) offset ≡ true = ground arith in
              let upper : ltb offset (2 * e) ≡ true = lt→ltb _ _ (omega arith) in
              rw (lower, upper, place, left, word)
                ((rw (next_place, next_left) at
                    (later (if mem3 (2 * (4 * b + o)) == node then true else found)))
                  ∙ or_found (mem3 (2 * (4 * b + o)) == node) found
                      (linked mem3 node (suc (4 * b + o)) (e - suc o)))
          | no past ↦
              let none_left : e - max o a ≡ 0 = omega arith in
              let none_after : e - max (suc o) a ≡ 0 = omega arith in
              let outside : (leb (2 * a) offset && ltb offset (2 * e)) ≡ false = ground arith in
              rw (none_left, outside) (rw none_after at (later found))
        ]
      ]

  -- Where a block ends the next one begins, or nothing is left.
  linked_next :
      (a e b : ℕ)
      → a < 4 * suc b
      → linked mem3 node (min e (4 * suc b)) (e - max a (4 * suc b))
        ≡ linked mem3 node (max a (4 * suc b)) (e - max a (4 * suc b))
  unfolding linked
  linked_next a e b h = elim (dec_lt (4 * suc b) e) [
    | yes more ↦
        let same : min e (4 * suc b) ≡ max a (4 * suc b) = omega arith in
        ap (λ (p : ℕ). linked mem3 node p (e - max a (4 * suc b))) same
    | no none_more ↦ let none_left : e - max a (4 * suc b) ≡ 0 = omega arith in rw none_left refl
  ]

  -- The walk from block `b` on is the walk over the block and the walk behind it.
  linked_blocks :
      (a e b : ℕ)
      → a < 4 * suc b
      → 4 * b < e
      → a < e
      → linked mem3 node (max a (4 * b)) (e - max a (4 * b)) ≡ (
          linked mem3 node (max a (4 * b)) (min e (4 * suc b) - max a (4 * b))
          || linked mem3 node (max a (4 * suc b)) (e - max a (4 * suc b)))
  linked_blocks a e b low high some =
      let lo = max a (4 * b) in
      let hi = min e (4 * suc b) in
      let rest = e - max a (4 * suc b) in
      let sizes : e - lo ≡ hi - lo + rest = omega arith in
      let there : lo + (hi - lo) ≡ hi = omega arith in
      rw (sizes, linked_split lo (hi - lo) rest, there, linked_next a e b low) refl

  block-linked :
      (start end a e b : ℕ) (found : Bool)
      → start ≡ 2 * a
      → end ≡ 2 * e
      → a < e
      → end < u64_mod
      → start / 8 ≤ b
      → b ≤ (end - 1) / 8
      → match_words mem3 node b (part_start start b) (part_end end b) 4 0 found
        ≡ (found || linked mem3 node (max a (4 * b)) (min e (4 * suc b) - max a (4 * b)))
  block-linked start end a e b found es ee some small low high =
      let from = max a (4 * b) - 4 * b in
      let to = min e (4 * suc b) - 4 * b in
      let place : 4 * b + max 0 from ≡ max a (4 * b) = omega arith in
      let size : to - max 0 from ≡ min e (4 * suc b) - max a (4 * b) = omega arith in
      rw (part_start-pairs start a b es low, part_end-pairs end e b ee (omega arith) small high)
        (rw (place, size) at
          (match_words-linked b from to 4 0 0 found (omega arith) (omega arith) (omega arith)))

  -- The blocks of a range from `b` on find what a walk from there to the end finds.
  third_blocks-linked :
      (start end a e n b : ℕ) (found : Bool) (ret : Ret)
      → start ≡ 2 * a
      → end ≡ 2 * e
      → a < e
      → end < u64_mod
      → start / 8 ≤ b
      → n + b ≡ (end - 1) / 8 + 1
      → (third_blocks mem3 node start end n b found ret).0
        ≡ (found || linked mem3 node (max a (4 * b)) (e - max a (4 * b)))
  unfolding third_blocks linked
  third_blocks-linked start end a e zero b found ret es ee some small low here =
      let none_left : e - max a (4 * b) ≡ 0 = omega arith in rw none_left (sym (or_false found))
  third_blocks-linked start end a e (suc n) b found ret es ee some small low here =
      let first = linked mem3 node (max a (4 * b)) (min e (4 * suc b) - max a (4 * b)) in
      let rest = linked mem3 node (max a (4 * suc b)) (e - max a (4 * suc b)) in
      let ret' =
        request_short 2 (sub64 (part_end end b) (part_start start b) / 2) (request 2 ret) in
      third_blocks-linked start end a e n (suc b) _ ret' es ee some small (omega arith)
        (omega arith)
      ∙ rw
          (
            block-linked start end a e b found es ee some small low (omega arith),
            linked_blocks a e b (omega arith) (omega arith) some,
          )
          (or_assoc found first rest)

  -- The loop does not touch the count.
  pub third_blocks-num_tris :
      (start end n b : ℕ) (found : Bool) (ret : Ret)
      → (third_blocks mem3 node start end n b found ret).1.num_tris ≡ ret.num_tris
  unfolding third_blocks request request_short
  third_blocks-num_tris start end zero b found ret = refl
  third_blocks-num_tris start end (suc n) b found ret =
      third_blocks-num_tris start end n (suc b) _ _

  -- The whole range.
  pub third-linked :
      (start end a e : ℕ) (ret : Ret)
      → IsRange start end a e
      → (third_blocks mem3 node start end (blocks start end) (start / 8) false ret).0
        ≡ linked mem3 node a (e - a)
  third-linked start end a e ret (es, ee, some, small) =
      let place : max a (4 * (start / 8)) ≡ a = omega arith in
      rw place at (
        third_blocks-linked start end a e (blocks start end) (start / 8) false ret es ee some small
          (omega arith) (omega arith))
