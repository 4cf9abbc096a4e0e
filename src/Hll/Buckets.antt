-- ===== src/Hll/Buckets.antt =====
-- `fill_bucket` against the greatest rank of each bucket.
use amorphos_fsrf.Common.{
  ℕ, zero, suc, ◌+◌, ◌<◌, ◌≤◌, ◌≡◌, ◌≢◌, refl, ◌∙◌, ap, List, [], ◌∷◌, length, ltb, leb, ◌&&◌, ◌==◌,
  ne→==, if◌then◌else◌, arith,
}
use Prim.Native.Nat.{max}
use amorphos_fsrf.PageRank.{done, Array, put}
use amorphos_fsrf.PageRank.Stages.{stream}
use amorphos_fsrf.Hll.{
  BucketMeta, Filler, rank_of, current_rank, fill_one, fill_loop, read_out, fill_bucket,
  num_buckets_m,
}

-- The greatest of `r` and the ranks of bucket `b`.
unfoldable pub best : ℕ → List BucketMeta → ℕ → ℕ
best b [] r = r
best b (meta ∷ rest) r = best b rest (if meta.bucket_num == b then max r (rank_of meta) else r)

-- No item is for one of the four buckets before it.
abbrev pub IsSpaced : List BucketMeta → ℕ → ℕ → ℕ → ℕ → Type 0
IsSpaced [] b1 b2 b3 b4 = Unit
IsSpaced (meta ∷ rest) b1 b2 b3 b4 =
    (meta.bucket_num ≢ b1)
    × (meta.bucket_num ≢ b2)
    × (meta.bucket_num ≢ b3)
    × (meta.bucket_num ≢ b4)
    × IsSpaced rest meta.bucket_num b1 b2 b3

-- No register stands for the bucket.
pub current_rank_fresh :
    (s : Filler) (b : ℕ)
    → b ≢ s.bucket1
    → b ≢ s.bucket2
    → b ≢ s.bucket3
    → b ≢ s.bucket4
    → current_rank s b ≡ s.buckets b
unfolding current_rank
current_rank_fresh s b n1 n2 n3 n4 =
    rw (ne→== b s.bucket1 n1, ne→== b s.bucket2 n2, ne→== b s.bucket3 n3, ne→== b s.bucket4 n4) refl

fill_one_fresh :
    (meta : BucketMeta) (s : Filler) (b : ℕ)
    → current_rank s meta.bucket_num ≡ s.buckets meta.bucket_num
    → (fill_one meta s).buckets b
      ≡ (if meta.bucket_num == b then max (s.buckets b) (rank_of meta) else s.buckets b)
unfolding fill_one
fill_one_fresh meta s b fresh = ground (arith, fresh)

fill_loop-best :
    (metas : List BucketMeta) (s : Filler)
    → IsSpaced metas s.bucket1 s.bucket2 s.bucket3 s.bucket4
    → (t : Filler) × (fill_loop (length metas) metas s ≡ done t)
      × ((b : ℕ) → t.buckets b ≡ best b metas (s.buckets b))
unfolding fill_loop best fill_one
fill_loop-best [] s spaced = (s, refl, λ b. refl)
fill_loop-best (meta ∷ rest) s (n1, n2, n3, n4, spaced) =
    let (t, ran, holds) = fill_loop-best rest (fill_one meta s) spaced in
    let fresh = current_rank_fresh s meta.bucket_num n1 n2 n3 n4 in
    (t, ran, λ b. holds b ∙ ap (best b rest) (fill_one_fresh meta s b fresh))

stream_congr :
    (f g : Array) (i n : ℕ)
    → ((j : ℕ) → i ≤ j → j < i + n → f j ≡ g j)
    → stream f i n ≡ stream g i n
unfolding stream
stream_congr f g i zero same = refl
stream_congr f g i (suc n) same =
    rw
      (
        same i (omega arith) (omega arith),
        stream_congr f g (suc i) n (λ j low high. same j (omega arith) (omega arith)),
      )
      refl

read_out-stream : (n i : ℕ) (a : Array) → (read_out n i a).0 ≡ stream a i n
unfolding read_out stream
read_out-stream zero i a = refl
read_out-stream (suc n) i a =
    ap (λ xs. a i ∷ xs)
      (read_out-stream n (suc i) (put a i 0)
        ∙ stream_congr (put a i 0) a (suc i) n (λ j low high. ground arith))

read_out_empties :
    (n i : ℕ) (a : Array) (j : ℕ)
    → (read_out n i a).1 j ≡ (if leb i j && ltb j (i + n) then 0 else a j)
unfolding read_out
read_out_empties zero i a j = ground arith
read_out_empties (suc n) i a j = ground (arith, read_out_empties n (suc i) (put a i 0) j)

-- For empty buckets, and items of which none is for one of the four buckets before it (the four
-- registers count as the buckets before the first), `fill_bucket` returns; it writes for each bucket
-- the greatest rank among the bucket's items, 0 where there is none, and leaves all buckets empty.
pub fill_bucket-best :
    (metas : List BucketMeta) (s : Filler)
    → ((b : ℕ) → s.buckets b ≡ 0)
    → IsSpaced metas s.bucket1 s.bucket2 s.bucket3 s.bucket4
    → (t : Filler) × (fill_bucket (length metas) metas s
        ≡ done (stream (λ b. best b metas 0) 0 num_buckets_m, t))
      × ((b : ℕ) → b < num_buckets_m → t.buckets b ≡ 0)
unfolding fill_bucket
fill_bucket-best metas s empty spaced =
    let (t, ran, holds) = fill_loop-best metas s spaced in
    let ranks : (read_out num_buckets_m 0 t.buckets).0
        ≡ stream (λ b. best b metas 0) 0 num_buckets_m =
      read_out-stream num_buckets_m 0 t.buckets
      ∙ stream_congr t.buckets (λ b. best b metas 0) 0 num_buckets_m
          (λ b low high. holds b ∙ ap (best b metas) (empty b)) in
    (
      record t { buckets = (read_out num_buckets_m 0 t.buckets).1 },
      rw (ran, ranks) refl,
      λ b h. ground (arith, read_out_empties num_buckets_m 0 t.buckets b),
    )
