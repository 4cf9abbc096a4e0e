-- ===== src/Triangles.antt =====
-- The triangle-counting accelerator: hw/design/hls_tri/src/triangle.cpp.  The memories hold, for each
-- vertex, a pair of words for each neighbour (where the neighbour's own pairs begin and end) and a
-- pair of separators.  They are read in wide words of eight; word `b * 8 + o` is item `o` of wide word
-- `b`.  An item outside of its wide word is undefined, `none`.
pub mod Reference
pub mod Third
pub mod Second
pub mod Counting
pub mod Tests
use amorphos_fsrf.Common.{
  ℕ, zero, suc, ◌+◌, ◌-◌, ◌*◌, ◌/◌, ◌%◌, Bool, true, false, ◌&&◌, Option, none, some, ◌≡◌, ap,
  add64, sub64, u64_max, ltb, leb, ◌==◌, if◌then◌else◌,
}
use amorphos_fsrf.PageRank.{Array, put}

infixl 1 ◌>>=◌
abbrev pub ◌>>=◌ {ℓ κ} : {A : Type ℓ} {B : Type κ} → Option A → (A → Option B) → Option B
none >>= f = none
some a >>= f = f a

-- What a computation that gives `a` goes on with.
pub next {ℓ κ} :
    {A : Type ℓ} {B : Type κ} {o : Option A} {a : A} (f : A → Option B)
    → o ≡ some a
    → (o >>= f) ≡ f a
next f e = ap (λ o. o >>= f) e

pub record Ret : Type 0 where
  pub mem_reqs : Array
  pub mem_reqs_short : Array
  pub num_tris : ℕ

pub no_reqs : Ret
no_reqs = record { mem_reqs = λ k. 0; mem_reqs_short = λ k. 0; num_tris = 0 }

pub request : ℕ → Ret → Ret
request k ret = record ret { mem_reqs = put ret.mem_reqs k (add64 (ret.mem_reqs k) 1) }

pub request_short : ℕ → ℕ → Ret → Ret
request_short k n ret = record ret {
  mem_reqs_short = put ret.mem_reqs_short k (add64 (ret.mem_reqs_short k) n);
}

-- The part of a range that lies in wide word `b`.
abbrev pub part_start : ℕ → ℕ → ℕ
part_start start_idx b = if b == start_idx / 8 then start_idx % 8 else 0

abbrev pub part_end : ℕ → ℕ → ℕ
part_end end_idx b = if b == sub64 end_idx 1 / 8 then sub64 end_idx 1 % 8 + 1 else 8

-- How many wide words the loop over a range reads.
abbrev pub blocks : ℕ → ℕ → ℕ
blocks start_idx end_idx = sub64 end_idx 1 / 8 + 1 - start_idx / 8

module _ (mem3 : Array) (cur_node : ℕ) where
  -- The unrolled loop over one wide word: `n` pairs are left, from item `offset` on.
  pub match_words : (b2 start2 end2 n offset : ℕ) → Bool → Bool
  match_words b2 start2 end2 zero offset foundtri = foundtri
  match_words b2 start2 end2 (suc n) offset foundtri = match_words b2 start2 end2 n (offset + 2) (
      if leb start2 offset && ltb offset end2
      then (if mem3 (b2 * 8 + offset) == cur_node then true else foundtri)
      else foundtri)

  -- `n` wide words are left, from `b2` on.
  pub third_blocks : (start_idx2 end_idx2 n b2 : ℕ) → Bool → Ret → Bool × Ret
  third_blocks start_idx2 end_idx2 zero b2 foundtri ret = (foundtri, ret)
  third_blocks start_idx2 end_idx2 (suc n) b2 foundtri ret =
      let start2 = part_start start_idx2 b2 in
      let end2 = part_end end_idx2 b2 in
      third_blocks start_idx2 end_idx2 n (suc b2) (match_words b2 start2 end2 4 0 foundtri)
        (request_short 2 (sub64 end2 start2 / 2) (request 2 ret))

module _ (mem2 mem3 : Array) (cur_node start_idx1 : ℕ) where
  -- The body of the loop over the items of a wide word of `mem2`.
  pub second_item : ℕ → Ret → Ret
  second_item x ret =
      let start_idx2 = mem2 x in
      let end_idx2 = mem2 (x + 1) in
      let counted = request_short 1 2 ret in
      if ltb start_idx2 start_idx1
      then counted
      else (let (foundtri, after) =
            third_blocks mem3 cur_node start_idx2 end_idx2 (blocks start_idx2 end_idx2)
              (start_idx2 / 8) false counted in
          if foundtri then record after { num_tris = add64 after.num_tris 1 } else after)

  -- From item `cur_offset` to item `end1`; four pairs are all that a wide word has.
  pub second_words : (b1 end1 n cur_offset : ℕ) → Ret → Option Ret
  second_words b1 end1 zero cur_offset ret = if cur_offset == end1 then some ret else none
  second_words b1 end1 (suc n) cur_offset ret =
      if cur_offset == end1
      then some ret
      else if leb (cur_offset + 2) 8
      then second_words b1 end1 n (cur_offset + 2) (second_item (b1 * 8 + cur_offset) ret)
      else none

  pub second_blocks : (end_idx1 n b1 : ℕ) → Ret → Option Ret
  second_blocks end_idx1 zero b1 ret = some ret
  second_blocks end_idx1 (suc n) b1 ret =
      second_words b1 (part_end end_idx1 b1) 4 (part_start start_idx1 b1) (request 1 ret)
      >>= second_blocks end_idx1 n (suc b1)

-- `cur_node`, and the counts.
pub record Scan : Type 0 where
  pub cur_node : ℕ
  pub ret : Ret

module _ (mem1 mem2 mem3 : Array) where
  -- The body of the loop over the pairs of a wide word of `mem1`.
  pub first_item : ℕ → ℕ → Scan → Option Scan
  first_item i j s =
      let start_idx1 = mem1 (i * 8 + j) in
      let end_idx1 = mem1 (i * 8 + j + 1) in
      let counted = request_short 0 2 s.ret in
      if start_idx1 == u64_max
      then some (record { cur_node = add64 (2 + i * 8) j; ret = counted })
      else if ltb start_idx1 s.cur_node
      then some (record s { ret = counted })
      else (second_blocks mem2 mem3 s.cur_node start_idx1 end_idx1 (blocks start_idx1 end_idx1)
            (start_idx1 / 8) counted
          >>= λ after. some (record s { ret = after }))

  pub first_words : (i n j : ℕ) → Scan → Option Scan
  first_words i zero j s = some s
  first_words i (suc n) j s = first_item i j s >>= first_words i n (j + 2)

  pub first_blocks : (n i : ℕ) → Scan → Option Scan
  first_blocks zero i s = some s
  first_blocks (suc n) i s =
      first_words i 4 0 (record s { ret = request 0 s.ret }) >>= first_blocks n (suc i)

  pub triangle : ℕ → Option Ret
  triangle len_in_big_words =
      first_blocks len_in_big_words 0 (record { cur_node = 0; ret = no_reqs }) >>= λ s. some s.ret
