-- ===== src/Sha/Digest.antt =====
-- The sums of sha-top.cpp over the blocks in memory.
use amorphos_fsrf.Common.{ℕ, zero, suc, ◌+◌, ◌%◌, ◌^◌, ◌≡◌, sym, ◌∙◌, List, length, arith}
use amorphos_fsrf.Sha.{State, add_words, initial_state, zero_sums, sum_hashes, sha256_fpga}
use amorphos_fsrf.Sha.Reference.{compress}
use amorphos_fsrf.Sha.Schedule.{AreWords}
use amorphos_fsrf.Sha.Compression.{IsState, sha256_transform-compress}

-- The exact sum of one word of the hashes of `words` blocks from block `i` on.
pub hash_total : (State → ℕ) → (ℕ → List ℕ) → ℕ → ℕ → ℕ
hash_total part mem zero i = 0
hash_total part mem (suc words) i =
    part (compress initial_state (mem i)) + hash_total part mem words (suc i)

-- A state's words with those sums added, each wrapped once.
pub totals : (ℕ → List ℕ) → ℕ → ℕ → State → State
totals mem words i vars = record {
  a = (vars.a + hash_total (λ s. s.a) mem words i) % 2 ^ 32;
  b = (vars.b + hash_total (λ s. s.b) mem words i) % 2 ^ 32;
  c = (vars.c + hash_total (λ s. s.c) mem words i) % 2 ^ 32;
  d = (vars.d + hash_total (λ s. s.d) mem words i) % 2 ^ 32;
  e = (vars.e + hash_total (λ s. s.e) mem words i) % 2 ^ 32;
  f = (vars.f + hash_total (λ s. s.f) mem words i) % 2 ^ 32;
  g = (vars.g + hash_total (λ s. s.g) mem words i) % 2 ^ 32;
  h = (vars.h + hash_total (λ s. s.h) mem words i) % 2 ^ 32;
}

totals-zero : (mem : ℕ → List ℕ) (i : ℕ) (vars : State) → IsState vars → totals mem 0 i vars ≡ vars
unfolding totals hash_total
totals-zero mem i vars ok = ground arith

totals-suc :
    (mem : ℕ → List ℕ) (words i : ℕ) (vars : State)
    → totals mem words (suc i) (add_words vars (compress initial_state (mem i)))
      ≡ totals mem (suc words) i vars
unfolding totals hash_total add_words
totals-suc mem words i vars = ground arith

add_words-IsState : (s t : State) → IsState (add_words s t)
unfolding add_words
add_words-IsState s t = record {
  a_lt = omega arith;
  b_lt = omega arith;
  c_lt = omega arith;
  d_lt = omega arith;
  e_lt = omega arith;
  f_lt = omega arith;
  g_lt = omega arith;
  h_lt = omega arith;
}

pub initial_state-IsState : IsState initial_state
unfolding initial_state
initial_state-IsState = record {
  a_lt = omega arith;
  b_lt = omega arith;
  c_lt = omega arith;
  d_lt = omega arith;
  e_lt = omega arith;
  f_lt = omega arith;
  g_lt = omega arith;
  h_lt = omega arith;
}

-- Every block of the memory has sixteen 32-bit words.
abbrev pub AreBlocks : (ℕ → List ℕ) → Type 0
AreBlocks mem = (i : ℕ) → AreWords (mem i) × (length (mem i) ≡ 16)

sum_hashes-totals :
    (mem : ℕ → List ℕ) (words i : ℕ) (vars : State)
    → AreBlocks mem
    → IsState vars
    → sum_hashes mem words i vars ≡ totals mem words i vars
unfolding sum_hashes
sum_hashes-totals mem zero i vars blocks ok = sym (totals-zero mem i vars ok)
sum_hashes-totals mem (suc words) i vars blocks ok =
    let (fit, size) = blocks i in
    rw (sha256_transform-compress initial_state (mem i) initial_state-IsState fit size) (
      sum_hashes-totals mem words (suc i) _ blocks (add_words-IsState _ _)
      ∙ totals-suc mem words i vars)

-- For a memory of blocks of sixteen 32-bit words, each word that `sha256_fpga` returns is the exact
-- sum, over the first `words` blocks, of that word of the SHA-256 compression of the block from the
-- standard's initial state, reduced once modulo 2^32.
pub sha256_fpga-totals :
    (mem : ℕ → List ℕ) (words : ℕ)
    → AreBlocks mem
    → sha256_fpga mem words ≡ totals mem words 0 zero_sums
unfolding sha256_fpga zero_sums
sha256_fpga-totals mem words blocks = sum_hashes-totals mem words 0 zero_sums blocks (record {
  a_lt = omega arith;
  b_lt = omega arith;
  c_lt = omega arith;
  d_lt = omega arith;
  e_lt = omega arith;
  f_lt = omega arith;
  g_lt = omega arith;
  h_lt = omega arith;
})
