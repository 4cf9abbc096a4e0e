-- ===== src/Prefetch.antt =====
-- `AddrPrefetchHelper` of sw/daemon/aos_fio.hpp: a few address streams, each with the page number
-- that it expects next and the length that it grants then. The three vectors of the class are one
-- list of entries.
pub mod Bounds
pub mod Streams
use amorphos_fsrf.Common.{
  ℕ, zero, suc, ◌-◌, ◌%◌, Option, none, some, List, [], ◌∷◌, u64_max, add64, mul64, ltb, ◌==◌,
  if◌then◌else◌,
}
use Prim.Native.Nat.{min}

pub record Stream : Type 0 where
  pub vpn : ℕ
  pub len : ℕ
  pub age : ℕ

pub record Prefetcher : Type 0 where
  pub streams : List Stream
  pub max_len : ℕ

-- `n` entries, the oldest first.
fresh_streams : ℕ → List Stream
fresh_streams zero = []
fresh_streams (suc n) = record { vpn = u64_max; len = 1; age = n } ∷ fresh_streams n

unfoldable pub init : ℕ → ℕ → Prefetcher
unfolding fresh_streams
init entries max_len = record { streams = fresh_streams entries; max_len = max_len }

-- The loop from index 1 on: `idx` is the oldest so far and `oldest` the age that stands there now.
unfoldable pub age_from : ℕ → ℕ → ℕ → List Stream → ℕ × List Stream
age_from i idx oldest [] = (idx, [])
age_from i idx oldest (s ∷ rest) =
    let older = ltb oldest s.age in
    let (found, aged) =
      age_from (suc i) (if older then i else idx) (if older then add64 s.age 1 else oldest) rest in
    (found, record s { age = add64 s.age 1 } ∷ aged)

unfoldable pub age_all : List Stream → ℕ × List Stream
unfolding age_from
age_all [] = (0, [])
age_all (s ∷ rest) = let (found, aged) = age_from 1 0 s.age rest in (found, s ∷ aged)

-- What a stream that was hit grants; in the source a `max_len` of 0 is undefined here.
unfoldable pub granted : ℕ → Stream → ℕ
granted max_len s = min s.len (max_len - s.vpn % max_len)

unfoldable pub advance : ℕ → Stream → Stream
unfolding granted
advance max_len s = record {
  vpn = add64 s.vpn (granted max_len s);
  len = min (mul64 2 s.len) max_len;
  age = 0;
}

abbrev pub later_hit : Stream → Option (ℕ × List Stream) → Option (ℕ × List Stream)
later_hit s none = none
later_hit s (some (n, after)) = some (n, s ∷ after)

-- The first stream that expects `vpn`, if any.
unfoldable pub hit : ℕ → ℕ → List Stream → Option (ℕ × List Stream)
unfolding granted advance
hit max_len vpn [] = none
hit max_len vpn (s ∷ rest) =
    let later = hit max_len vpn rest in
    if vpn == s.vpn then some (granted max_len s, advance max_len s ∷ rest) else later_hit s later

-- The stream at the index starts anew behind `vpn`.
unfoldable pub replace : ℕ → ℕ → List Stream → List Stream
replace vpn idx [] = []
replace vpn zero (s ∷ rest) = record { vpn = add64 vpn 1; len = 1; age = 0 } ∷ rest
replace vpn (suc idx) (s ∷ rest) = s ∷ replace vpn idx rest

abbrev pub answer : ℕ → Prefetcher → ℕ × List Stream → Option (ℕ × List Stream) → ℕ × Prefetcher
answer vpn p (idx, aged) none = (1, record p { streams = replace vpn idx aged })
answer vpn p (idx, aged) (some (n, after)) = (n, record p { streams = after })

unfoldable pub get_num_pages : ℕ → Prefetcher → ℕ × Prefetcher
unfolding age_all hit replace
get_num_pages vpn p = let aged = age_all p.streams in answer vpn p aged (hit p.max_len vpn aged.1)
