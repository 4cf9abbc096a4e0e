-- ===== src/Sha/Reference.antt =====
-- SHA-256 as the standard writes it: rotations and shifts of words, the message schedule as one
-- growing list, and the rounds over it.
use amorphos_fsrf.Common.{
  ℕ, zero, suc, ◌+◌, ◌-◌, ◌*◌, ◌/◌, ◌%◌, ◌^◌, bit_and, bit_xor, List, [], ◌∷◌, ◌++◌,
}
use amorphos_fsrf.Sha.{State, ks, word, add_words}
use amorphos_fsrf.Sha.Fields.{add32}

-- A 32-bit word turned right by `k` places.
abbrev pub rotate : ℕ → ℕ → ℕ
rotate k x = x / 2 ^ k + x % 2 ^ k * 2 ^ (32 - k)

abbrev pub complement : ℕ → ℕ → ℕ
complement k x = 2 ^ k - 1 - x

unfoldable pub big_sigma0 : ℕ → ℕ
big_sigma0 x = bit_xor (bit_xor (rotate 2 x) (rotate 13 x)) (rotate 22 x)

unfoldable pub big_sigma1 : ℕ → ℕ
big_sigma1 x = bit_xor (bit_xor (rotate 6 x) (rotate 11 x)) (rotate 25 x)

unfoldable pub small_sigma0 : ℕ → ℕ
small_sigma0 x = bit_xor (bit_xor (rotate 7 x) (rotate 18 x)) (x / 2 ^ 3)

unfoldable pub small_sigma1 : ℕ → ℕ
small_sigma1 x = bit_xor (bit_xor (rotate 17 x) (rotate 19 x)) (x / 2 ^ 10)

unfoldable pub choose : ℕ → ℕ → ℕ → ℕ
choose x y z = bit_xor (bit_and x y) (bit_and (complement 32 x) z)

unfoldable pub majority : ℕ → ℕ → ℕ → ℕ
majority x y z = bit_xor (bit_xor (bit_and x y) (bit_and x z)) (bit_and y z)

-- Word `n + 16` of the schedule, from the words before it.
unfoldable pub next_word : List ℕ → ℕ → ℕ
next_word ws n =
    (small_sigma1 (word ws (n + 14)) + word ws (n + 9) + small_sigma0 (word ws (n + 1)) + word ws n)
    % 2 ^ 32

-- The block and the first `n` words after it.
unfoldable pub schedule : List ℕ → ℕ → List ℕ
schedule block zero = block
schedule block (suc n) = let ws = schedule block n in ws ++ next_word ws n ∷ []

-- One round, with the word and the constant of its number.
unfoldable pub reference_round : ℕ → ℕ → State → State
reference_round k w s =
    let t1 = (s.h + big_sigma1 s.e + choose s.e s.f s.g + k + w) % 2 ^ 32 in
    let t2 = (big_sigma0 s.a + majority s.a s.b s.c) % 2 ^ 32 in
    record {
      a = add32 t1 t2;
      b = s.a;
      c = s.b;
      d = s.c;
      e = add32 s.d t1;
      f = s.e;
      g = s.f;
      h = s.g;
    }

-- The first `n` rounds over the schedule `ws`.
unfoldable pub reference_rounds : List ℕ → State → ℕ → State
reference_rounds ws s zero = s
reference_rounds ws s (suc n) = reference_round (word ks n) (word ws n) (reference_rounds ws s n)

-- The compression of a block: 64 rounds over a schedule of 64 words, added to the state before.
unfoldable pub compress : State → List ℕ → State
compress s block = add_words s (reference_rounds (schedule block 48) s 64)
