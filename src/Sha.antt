-- ===== src/Sha.antt =====
-- The SHA-256 accelerator: hw/design/hls_sha/src/sha-256.cpp (the transform of one block) and
-- sha-top.cpp (the sum over the blocks in memory).  An `ap_uint<32>` is a native number below 2^32;
-- `uint256` and `uint512` are kept as their 32-bit words, the lowest first: the eight of a state as
-- a record, `a` being bits (31,0), the sixteen of a block as a list.
pub mod Fields
pub mod Reference
pub mod Digits
pub mod Logic
pub mod Schedule
pub mod Compression
pub mod Digest
pub mod Tests
use amorphos_fsrf.Common.{
  ℕ, zero, suc, ◌+◌, ◌%◌, ◌^◌, bit_and, bit_or, bit_xor, Option, none, some, List, [], ◌∷◌, ◌++◌,
  get_or,
}
use amorphos_fsrf.Sha.Fields.{field, join, add32}

pub e0 : ℕ → ℕ
e0 x =
    let temp0 = join 30 (field 1 0 x) (field 31 2 x) in
    let temp1 = join 19 (field 12 0 x) (field 31 13 x) in
    let temp2 = join 10 (field 21 0 x) (field 31 22 x) in bit_xor (bit_xor temp0 temp1) temp2

pub e1 : ℕ → ℕ
e1 x =
    let temp0 = join 26 (field 5 0 x) (field 31 6 x) in
    let temp1 = join 21 (field 10 0 x) (field 31 11 x) in
    let temp2 = join 7 (field 24 0 x) (field 31 25 x) in bit_xor (bit_xor temp0 temp1) temp2

pub ch : ℕ → ℕ → ℕ → ℕ
ch x y z = bit_xor z (bit_and x (bit_xor y z))

pub maj : ℕ → ℕ → ℕ → ℕ
maj x y z = bit_or (bit_and x y) (bit_and z (bit_or x y))

pub s0 : ℕ → ℕ
s0 x =
    let temp0 = bit_xor (field 6 4 x) (field 17 15 x) in
    let temp1 = join 25 (field 3 0 x) (field 31 7 x) in
    let temp2 = join 14 (field 14 0 x) (field 31 18 x) in
    let temp3 = field 31 3 x in
    let temp4 = bit_xor (bit_xor temp1 temp2) temp3 in join 29 temp0 temp4

pub s1 : ℕ → ℕ
s1 x =
    let temp0 = bit_xor (field 16 7 x) (field 18 9 x) in
    let temp1 = join 15 (field 6 0 x) (field 31 17 x) in
    let temp2 = join 13 (field 8 0 x) (field 31 19 x) in
    let temp3 = field 31 10 x in
    let temp4 = bit_xor (bit_xor temp1 temp2) temp3 in join 22 temp0 temp4

-- A `uint256`, from bits (31,0) in `a` to bits (255,224) in `h`.
pub record State : Type 0 where
  pub a : ℕ
  pub b : ℕ
  pub c : ℕ
  pub d : ℕ
  pub e : ℕ
  pub f : ℕ
  pub g : ℕ
  pub h : ℕ

-- Word `i` of a `uint512`: bits (32 i + 31, 32 i).
abbrev pub word : List ℕ → ℕ → ℕ
word w i = get_or w i 0

-- A `uint512` moved down by a word, with a new highest word.
abbrev pub shift_in : List ℕ → ℕ → List ℕ
shift_in [] new_w = []
shift_in (w ∷ ws) new_w = ws ++ new_w ∷ []

pub sha256_digester : ℕ → State → List ℕ → State × List ℕ
sha256_digester k rx_state rx_w =
    let e0_w = e0 rx_state.a in
    let e1_w = e1 rx_state.e in
    let ch_w = ch rx_state.e rx_state.f rx_state.g in
    let maj_w = maj rx_state.a rx_state.b rx_state.c in
    let s0_w = s0 (word rx_w 1) in
    let s1_w = s1 (word rx_w 14) in
    let t1 = (rx_state.h + e1_w + ch_w + word rx_w 0 + k) % 2 ^ 32 in
    let t2 = add32 e0_w maj_w in
    let new_w = (s1_w + word rx_w 9 + s0_w + word rx_w 0) % 2 ^ 32 in
    (
      record {
        a = add32 t1 t2;
        b = rx_state.a;
        c = rx_state.b;
        d = rx_state.c;
        e = add32 rx_state.d t1;
        f = rx_state.e;
        g = rx_state.f;
        h = rx_state.g;
      },
      shift_in rx_w new_w,
    )

pub ks : List ℕ
ks =
    1116352408 ∷ 1899447441 ∷ 3049323471 ∷ 3921009573 ∷ 961987163 ∷ 1508970993 ∷ 2453635748
    ∷ 2870763221 ∷ 3624381080 ∷ 310598401 ∷ 607225278 ∷ 1426881987 ∷ 1925078388 ∷ 2162078206
    ∷ 2614888103 ∷ 3248222580 ∷ 3835390401 ∷ 4022224774 ∷ 264347078 ∷ 604807628 ∷ 770255983
    ∷ 1249150122 ∷ 1555081692 ∷ 1996064986 ∷ 2554220882 ∷ 2821834349 ∷ 2952996808 ∷ 3210313671
    ∷ 3336571891 ∷ 3584528711 ∷ 113926993 ∷ 338241895 ∷ 666307205 ∷ 773529912 ∷ 1294757372
    ∷ 1396182291 ∷ 1695183700 ∷ 1986661051 ∷ 2177026350 ∷ 2456956037 ∷ 2730485921 ∷ 2820302411
    ∷ 3259730800 ∷ 3345764771 ∷ 3516065817 ∷ 3600352804 ∷ 4094571909 ∷ 275423344 ∷ 430227734
    ∷ 506948616 ∷ 659060556 ∷ 883997877 ∷ 958139571 ∷ 1322822218 ∷ 1537002063 ∷ 1747873779
    ∷ 1955562222 ∷ 2024104815 ∷ 2227730452 ∷ 2361852424 ∷ 2428436474 ∷ 2756734187 ∷ 3204031479
    ∷ 3329325298 ∷ []

-- The loop of `sha256_transform`, over the constants that are left.
pub digest_rounds : List ℕ → State → List ℕ → State × List ℕ
digest_rounds [] state w = (state, w)
digest_rounds (k ∷ rest) state w =
    let (next, next_w) = sha256_digester k state w in digest_rounds rest next next_w

-- The eight sums of words of two `uint256`.
pub add_words : State → State → State
add_words s t = record {
  a = add32 s.a t.a;
  b = add32 s.b t.b;
  c = add32 s.c t.c;
  d = add32 s.d t.d;
  e = add32 s.e t.e;
  f = add32 s.f t.f;
  g = add32 s.g t.g;
  h = add32 s.h t.h;
}

pub sha256_transform : State → List ℕ → State
sha256_transform rx_state rx_input = add_words rx_state (digest_rounds ks rx_state rx_input).0

-- The constant `state` of `sha256_fpga`, a hexadecimal literal.
pub initial_state : State
initial_state = record {
  a = 1779033703;
  b = 3144134277;
  c = 1013904242;
  d = 2773480762;
  e = 1359893119;
  f = 2600822924;
  g = 528734635;
  h = 1541459225;
}

-- `vars` with every field 0.
pub zero_sums : State
zero_sums = record { a = 0; b = 0; c = 0; d = 0; e = 0; f = 0; g = 0; h = 0 }

-- The loop of `sha256_fpga`: `words` blocks of `mem` are left, from block `i` on.
pub sum_hashes : (ℕ → List ℕ) → ℕ → ℕ → State → State
sum_hashes mem zero i vars = vars
sum_hashes mem (suc words) i vars =
    sum_hashes mem words (suc i) (add_words vars (sha256_transform initial_state (mem i)))

pub sha256_fpga : (ℕ → List ℕ) → ℕ → State
sha256_fpga mem words = sum_hashes mem words 0 zero_sums
