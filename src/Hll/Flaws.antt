-- ===== src/Hll/Flaws.antt =====
-- The register of the last rank outlives its bucket: an item that does not raise its own bucket
-- leaves in it the rank of the item before, under the new bucket's number.
use amorphos_fsrf.Common.{ℕ, false, ◌<◌, ◌≤◌, ◌≡◌, ◌≢◌, refl, ltb, le→ltb, ==_refl, arith}
use amorphos_fsrf.Hll.{BucketMeta, Filler, rank_of, current_rank, fill_one}
use amorphos_fsrf.Hll.Buckets.{current_rank_fresh}

not_raised :
    (meta : BucketMeta) (s : Filler)
    → current_rank s meta.bucket_num ≡ s.buckets meta.bucket_num
    → rank_of meta ≤ s.buckets meta.bucket_num
    → ltb (current_rank s meta.bucket_num) (rank_of meta) ≡ false
not_raised meta s fresh kept = rw fresh (le→ltb _ _ kept)

stale_register :
    (meta : BucketMeta) (s : Filler)
    → ltb (current_rank s meta.bucket_num) (rank_of meta) ≡ false
    → current_rank (fill_one meta s) meta.bucket_num ≡ s.rank1
unfolding current_rank fill_one
stale_register meta s kept = rw (==_refl meta.bucket_num, kept) refl

raised_bucket :
    (meta : BucketMeta) (s : Filler) (b : ℕ)
    → meta.bucket_num ≡ b
    → current_rank s b < rank_of meta
    → (fill_one meta s).buckets b ≡ rank_of meta
unfolding fill_one
raised_bucket meta s b same above = ground (arith, same)

-- When an item of a bucket that is none of the last four does not raise it, and the next item is of
-- the same bucket with a rank below what the bucket holds and above the rank register, the second
-- item lowers the bucket to its own rank.
pub fill_one_lowers :
    (first second : BucketMeta) (s : Filler)
    → first.bucket_num ≢ s.bucket1
    → first.bucket_num ≢ s.bucket2
    → first.bucket_num ≢ s.bucket3
    → first.bucket_num ≢ s.bucket4
    → second.bucket_num ≡ first.bucket_num
    → rank_of first ≤ s.buckets first.bucket_num
    → s.rank1 < rank_of second
    → rank_of second < s.buckets first.bucket_num
    → (fill_one second (fill_one first s)).buckets first.bucket_num ≡ rank_of second
fill_one_lowers first second s n1 n2 n3 n4 same kept above below =
    let stays = not_raised first s (current_rank_fresh s first.bucket_num n1 n2 n3 n4) kept in
    raised_bucket second (fill_one first s) first.bucket_num same
      (rw (stale_register first s stays) above)
