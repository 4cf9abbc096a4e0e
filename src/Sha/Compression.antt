-- ===== src/Sha/Compression.antt =====
-- The transform of sha-256.cpp is the compression function of the standard.
use amorphos_fsrf.Common.{
  ℕ, zero, suc, ◌+◌, ◌-◌, ◌^◌, ◌<◌, ◌≡◌, refl, ◌∙◌, ap, sym, List, [], ◌∷◌, length, drop, drop_item,
  arith,
}
use native.Mathlib.Decide.{dec_le}
use amorphos_fsrf.Sha.{State, word, ks, sha256_digester, digest_rounds, sha256_transform, add_words}
use amorphos_fsrf.Sha.Logic.{e0-big_sigma0, e1-big_sigma1, ch-choose, maj-majority}
use amorphos_fsrf.Sha.Reference.{schedule, reference_round, reference_rounds, compress}
use amorphos_fsrf.Sha.Schedule.{AreWords, window, window_step, word-window, word_stable}

-- Every word of a state is a 32-bit one.
pub record IsState (s : State) : Type 0 where
  pub a_lt : s.a < 2 ^ 32
  pub b_lt : s.b < 2 ^ 32
  pub c_lt : s.c < 2 ^ 32
  pub d_lt : s.d < 2 ^ 32
  pub e_lt : s.e < 2 ^ 32
  pub f_lt : s.f < 2 ^ 32
  pub g_lt : s.g < 2 ^ 32
  pub h_lt : s.h < 2 ^ 32

round-IsState : (k w : ℕ) (s : State) → IsState s → IsState (reference_round k w s)
unfolding reference_round
round-IsState k w s ok = record {
  a_lt = omega arith;
  b_lt = ok.a_lt;
  c_lt = ok.b_lt;
  d_lt = ok.c_lt;
  e_lt = omega arith;
  f_lt = ok.e_lt;
  g_lt = ok.f_lt;
  h_lt = ok.g_lt;
}

rounds-IsState : (ws : List ℕ) (s : State) (n : ℕ) → IsState s → IsState (reference_rounds ws s n)
unfolding reference_rounds
rounds-IsState ws s zero ok = ok
rounds-IsState ws s (suc n) ok = round-IsState _ _ _ (rounds-IsState ws s n ok)

-- One call of the digester is a round and a step of the window.
digester_step :
    (k : ℕ) (s : State) (block : List ℕ) (n : ℕ)
    → IsState s
    → AreWords block
    → 0 < length block
    → sha256_digester k s (window block n)
      ≡ (reference_round k (word (schedule block n) n) s, window block (suc n))
unfolding sha256_digester reference_round
digester_step k s block n ok words some_word =
    let w = word (schedule block n) n in
    let first : word (window block n) 0 ≡ w =
      word-window block n 0 ∙ ap (word (schedule block n)) (omega arith) in
    let sum : (x : ℕ) → x + w + k ≡ x + k + w = λ x. omega arith in
    rw
      (
        window_step block n words some_word,
        first,
        e0-big_sigma0 s.a ok.a_lt,
        e1-big_sigma1 s.e ok.e_lt,
        ch-choose s.e s.f s.g ok.e_lt ok.g_lt,
        maj-majority s.a s.b s.c ok.a_lt ok.b_lt ok.c_lt,
        sum,
      )
      refl

digest_rounds_step :
    (k : ℕ) (rest : List ℕ) (s t : State) (w v : List ℕ)
    → sha256_digester k s w ≡ (t, v)
    → digest_rounds (k ∷ rest) s w ≡ digest_rounds rest t v
unfolding digest_rounds
digest_rounds_step k rest s t w v e = ap (λ r. digest_rounds rest r.0 r.1) e

-- Word `n` of the schedule stands as soon as `n` words are made.
word_settled :
    (block : List ℕ) (n : ℕ)
    → length block ≡ 16
    → n < 64
    → word (schedule block n) n ≡ word (schedule block 48) n
word_settled block n size inside = elim (dec_le n 48) [
  | yes few ↦
      let grown : n + (48 - n) ≡ 48 = omega arith in
      rw grown at (sym (word_stable block n (48 - n) n (omega arith)))
  | no many ↦
      let grown : 48 + (n - 48) ≡ n = omega arith in
      rw grown at (word_stable block 48 (n - 48) n (omega arith))
]

round_settled :
    (k : ℕ) (s : State) (block : List ℕ) (n : ℕ)
    → length block ≡ 16
    → n < 64
    → word ks n ≡ k
    → reference_round k (word (schedule block n) n) (reference_rounds (schedule block 48) s n)
      ≡ reference_rounds (schedule block 48) s (suc n)
unfolding reference_rounds
round_settled k s block n size inside constant =
    rw (word_settled block n size inside, ← constant) refl

-- The loop over the constants that are left finishes the rounds of the schedule.
digest_rounds-reference :
    (rest : List ℕ) (s : State) (block : List ℕ) (n : ℕ)
    → IsState s
    → AreWords block
    → length block ≡ 16
    → drop n ks ≡ rest
    → n + length rest ≡ 64
    → (digest_rounds rest (reference_rounds (schedule block 48) s n) (window block n)).0
      ≡ reference_rounds (schedule block 48) s 64
unfolding digest_rounds
digest_rounds-reference [] s block n ok words size left done =
    ap (reference_rounds (schedule block 48) s) (omega arith)
digest_rounds-reference (k ∷ rest) s block n ok words size left done =
    let ws = schedule block 48 in
    let here = reference_rounds ws s n in
    let (constant, remain) = drop_item n ks rest k 0 left in
    let next : sha256_digester k here (window block n)
        ≡ (reference_rounds ws s (suc n), window block (suc n)) =
      digester_step k here block n (rounds-IsState _ s n ok) words (omega arith)
      ∙ ap (λ t. (t, window block (suc n)))
          (round_settled k s block n size (omega arith) constant) in
    rw (digest_rounds_step k rest here _ (window block n) _ next)
      (digest_rounds-reference rest s block (suc n) ok words size remain (omega arith))

-- `sha256_transform` is the compression function of SHA-256: on a state of eight 32-bit words and
-- a block of sixteen, the loop that shifts a sixteen-word window gives the 64 rounds of the standard
-- over its message schedule, with the rotations written as joined bit ranges.
pub sha256_transform-compress :
    (s : State) (block : List ℕ)
    → IsState s
    → AreWords block
    → length block ≡ 16
    → sha256_transform s block ≡ compress s block
unfolding sha256_transform compress window schedule reference_rounds ks
sha256_transform-compress s block ok words size =
    ap (add_words s) (digest_rounds-reference ks s block 0 ok words size refl refl)
