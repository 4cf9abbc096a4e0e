-- ===== src/Hll.antt =====
-- The HyperLogLog accelerator: hw/design/hls_hll/src, from the division of the input into lanes to
-- the sum of the buckets.  Streams are lists, as for the PageRank accelerator.  The count of leading
-- zeros is the vendor's (`countLeadingZeros` behind `btl::clz`), a parameter of the detector.
pub mod Buckets
pub mod Merging
pub mod Flaws
use amorphos_fsrf.Common.{
  ℕ, zero, suc, ◌+◌, ◌-◌, ◌*◌, ◌/◌, ◌%◌, ◌^◌, bit_xor, bit_or, Bool, true, false, List, [], ◌∷◌,
  map, ltb, leb, ◌==◌, if◌then◌else◌, to_num,
}
use amorphos_fsrf.Sha.Fields.{field}
use amorphos_fsrf.PageRank.{Outcome, done, starved, ◌>>=◌, Array, assert, put, read}

unfoldable pub hash_size : ℕ
hash_size = 32

unfoldable pub bucket_bits : ℕ
bucket_bits = 16

unfoldable pub num_buckets_m : ℕ
num_buckets_m = 2 ^ bucket_bits

abbrev pub num_pipelines : ℕ
num_pipelines = 16

pub record DataItem : Type 0 where
  pub data_ : ℕ
  pub valid : ℕ
  pub last : ℕ

pub record BucketMeta : Type 0 where
  pub bucket_num : ℕ
  pub num_zeros : ℕ
  pub valid : ℕ
  pub last : ℕ

-- A line of the input: 512 bits of data, a bit for each byte that counts, and the last mark.
pub record Line : Type 0 where
  pub data_ : ℕ
  pub keep : ℕ
  pub last : ℕ

-- What lane `i` gets of a line.
pub lane_item : Line → ℕ → DataItem
lane_item line i =
    if field (i * 4 + 3) (i * 4) line.keep == 15
    then record { data_ = field (i * 32 + 31) (i * 32) line.data_; valid = 1; last = line.last }
    else record { data_ = 0; valid = 0; last = line.last }

-- `n` reads of a stream of lines, each dealt to the lanes.
pub divide_data : ℕ → List Line → Outcome (ℕ → List DataItem)
divide_data zero lines = done (λ lane. [])
divide_data (suc n) [] = starved
divide_data (suc n) (line ∷ rest) =
    divide_data n rest >>= λ lanes. done (λ lane. lane_item line lane ∷ lanes lane)

-- `uint_32_t` operations.
abbrev pub mul32 : ℕ → ℕ → ℕ
mul32 a b = a * b % 2 ^ 32

abbrev pub rotl32 : ℕ → ℕ → ℕ
rotl32 x k = bit_or (x * 2 ^ k % 2 ^ 32) (x / 2 ^ (32 - k))

-- The hash of one 32-bit key.
pub hash_key : ℕ → ℕ
hash_key key =
    let k1 = mul32 (rotl32 (mul32 key 3432918353) 15) 461845907 in
    let body = (mul32 (rotl32 (bit_xor 42 k1) 13) 5 + 3864292196) % 2 ^ 32 in
    let h0 = bit_xor body 4 in
    let h1 = mul32 (bit_xor h0 (h0 / 2 ^ 16)) 2246822507 in
    let h2 = mul32 (bit_xor h1 (h1 / 2 ^ 13)) 3266489909 in bit_xor h2 (h2 / 2 ^ 16)

pub murmur3 : ℕ → List DataItem → Outcome (List DataItem)
murmur3 zero items = done []
murmur3 (suc n) [] = starved
murmur3 (suc n) (key ∷ rest) = murmur3 n rest >>= λ hashes.
    done (record { data_ = hash_key key.data_; valid = key.valid; last = key.last } ∷ hashes)

module _ (count_leading_zeros : ℕ → ℕ) where
  pub bz_detector : ℕ → List DataItem → Outcome (List BucketMeta)
  bz_detector zero hashes = done []
  bz_detector (suc n) [] = starved
  bz_detector (suc n) (hash_val ∷ rest) = bz_detector n rest >>= λ metas. done (
      record {
        bucket_num = hash_val.data_ / 2 ^ (hash_size - bucket_bits);
        num_zeros = count_leading_zeros (hash_val.data_ % 2 ^ (hash_size - bucket_bits));
        valid = hash_val.valid;
        last = hash_val.last;
      }
      ∷ metas)

-- The static variables of one `fill_bucket`: the buckets, and the four last buckets with their ranks.
pub record Filler : Type 0 where
  pub buckets : Array
  pub bucket1 : ℕ
  pub bucket2 : ℕ
  pub bucket3 : ℕ
  pub bucket4 : ℕ
  pub rank1 : ℕ
  pub rank2 : ℕ
  pub rank3 : ℕ
  pub rank4 : ℕ

-- A rank has five bits.
unfoldable pub rank_of : BucketMeta → ℕ
rank_of meta = (meta.num_zeros + 1) % 2 ^ 5

pub current_rank : Filler → ℕ → ℕ
current_rank s bucket =
    if bucket == s.bucket1
    then s.rank1
    else if bucket == s.bucket2
    then s.rank2
    else if bucket == s.bucket3
    then s.rank3
    else if bucket == s.bucket4
    then s.rank4
    else s.buckets bucket

-- One round of the first loop.
pub fill_one : BucketMeta → Filler → Filler
fill_one meta s =
    let rank = rank_of meta in
    let raised = ltb (current_rank s meta.bucket_num) rank in
    record {
      buckets = if raised then put s.buckets meta.bucket_num rank else s.buckets;
      bucket1 = meta.bucket_num;
      bucket2 = s.bucket1;
      bucket3 = s.bucket2;
      bucket4 = s.bucket3;
      rank1 = if raised then rank else s.rank1;
      rank2 = s.rank1;
      rank3 = s.rank2;
      rank4 = s.rank3;
    }

pub fill_loop : ℕ → List BucketMeta → Filler → Outcome Filler
fill_loop zero metas s = done s
fill_loop (suc n) [] s = starved
fill_loop (suc n) (meta ∷ rest) s = fill_loop n rest (fill_one meta s)

-- The second loop: `n` buckets from `i` on are written to the stream and emptied.
pub read_out : ℕ → ℕ → Array → List ℕ × Array
read_out zero i buckets = ([], buckets)
read_out (suc n) i buckets =
    let (rest, emptied) = read_out n (suc i) (put buckets i 0) in (buckets i ∷ rest, emptied)

pub fill_bucket : ℕ → List BucketMeta → Filler → Outcome (List ℕ × Filler)
fill_bucket n metas s = fill_loop n metas s >>= λ t.
    let (ranks, emptied) = read_out num_buckets_m 0 t.buckets in
    done (ranks, record t { buckets = emptied })

pub record AggrOutput : Type 0 where
  pub value : ℕ
  pub last : ℕ

-- The greatest of the first values of `n` lanes from lane `i` on, and the lanes after those reads.
pub max_loop : ℕ → ℕ → (ℕ → List ℕ) → ℕ → Outcome (ℕ × (ℕ → List ℕ))
max_loop zero i lanes max_zeros = done (max_zeros, lanes)
max_loop (suc n) i lanes max_zeros = read (lanes i) >>= λ (value, rest).
    max_loop n (suc i) (λ j. if j == i then rest else lanes j)
      (if ltb max_zeros value then value else max_zeros)

pub aggr_loop : ℕ → ℕ → (ℕ → List ℕ) → Outcome (List AggrOutput)
aggr_loop zero b lanes = done []
aggr_loop (suc n) b lanes = max_loop num_pipelines 0 lanes 0 >>= λ (max_zeros, lanes').
    aggr_loop n (suc b) lanes' >>= λ rest.
    done (record { value = max_zeros; last = to_num (b == num_buckets_m - 1) } ∷ rest)

pub aggr_bucket : (ℕ → List ℕ) → Outcome (List AggrOutput)
aggr_bucket lanes = aggr_loop num_buckets_m 0 lanes

-- The values passed on, and how many of them are 0, in seventeen bits.
pub zero_loop : ℕ → List AggrOutput → ℕ → Outcome (List ℕ × ℕ)
zero_loop zero values zero_count = done ([], zero_count)
zero_loop (suc n) [] zero_count = starved
zero_loop (suc n) (item ∷ rest) zero_count =
    zero_loop n rest (if item.value == 0 then (zero_count + 1) % 2 ^ 17 else zero_count)
    >>= λ (ranks, total). done (item.value ∷ ranks, total)

pub zero_counter : List AggrOutput → Outcome (List ℕ × ℕ)
zero_counter values = zero_loop num_buckets_m values 0

-- The largest value of the 33-bit sum, in units of 2^-17, where a sum saturates.  A bit index past
-- the value, of a rank above 17, fails in the vendor's library.
abbrev pub accu_max : ℕ
accu_max = 2 ^ 33 - 1

pub accumulate_loop : ℕ → List ℕ → ℕ → Outcome ℕ
accumulate_loop zero ranks summation = done summation
accumulate_loop (suc n) ranks summation = read ranks >>= λ (rank, rest).
    assert (leb rank 17) >>= λ _.
    let sum = summation + 2 ^ (17 - rank) in
    accumulate_loop n rest (if leb sum accu_max then sum else accu_max)

-- `to_float` of the fixed-point library, given the sum in units of 2^-17.
pub accumulate {ℓ} : {F : Type ℓ} → (ℕ → F) → List ℕ → Outcome F
accumulate to_float ranks =
    accumulate_loop num_buckets_m ranks 0 >>= λ summation. done (to_float summation)

module _ (count_leading_zeros : ℕ → ℕ) where
  pub pipeline : ℕ → List DataItem → Filler → Outcome (List ℕ × Filler)
  pipeline n line_data s = murmur3 n line_data >>= λ hashes.
      bz_detector count_leading_zeros n hashes >>= λ metas. fill_bucket n metas s

  -- `n` pipelines from lane `i` on: the streams of their buckets, and their static variables.
  pub pipelines :
      ℕ → ℕ → ℕ → (ℕ → List DataItem) → (ℕ → Filler) → Outcome ((ℕ → List ℕ) × (ℕ → Filler))
  pipelines zero i n lanes fillers = done ((λ j. []), fillers)
  pipelines (suc m) i n lanes fillers = pipeline n (lanes i) (fillers i) >>= λ (ranks, t).
      pipelines m (suc i) n lanes fillers >>= λ (streams, fillers').
      done ((λ j. if j == i then ranks else streams j), (λ j. if j == i then t else fillers' j))

  -- `hyperloglog` up to the sum and the count that the estimate is made from.
  pub hyperloglog :
      {F : Type 0} → (ℕ → F) → ℕ → List Line → (ℕ → Filler) → Outcome (F × ℕ × (ℕ → Filler))
  hyperloglog to_float n lines fillers = divide_data n lines >>= λ lanes.
      pipelines num_pipelines 0 n lanes fillers >>= λ (streams, fillers').
      aggr_bucket streams >>= λ values. zero_counter values >>= λ (ranks, zero_count).
      accumulate to_float ranks >>= λ summation. done (summation, zero_count, fillers')
