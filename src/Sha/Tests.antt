-- ===== src/Sha/Tests.antt =====
-- The transform on the one-block message of the standard's first example.
use amorphos_fsrf.Common.{ℕ, ◌≡◌, refl, List, [], ◌∷◌}
use amorphos_fsrf.Sha.{
  State, initial_state, sha256_transform, add_words, digest_rounds, ks, sha256_digester, e0, e1, ch,
  maj, s0, s1,
}

-- The three letters `abc`, padded to one block.
abbrev pub abc_block : List ℕ
abc_block = 1633837952 ∷ 0 ∷ 0 ∷ 0 ∷ 0 ∷ 0 ∷ 0 ∷ 0 ∷ 0 ∷ 0 ∷ 0 ∷ 0 ∷ 0 ∷ 0 ∷ 0 ∷ 24 ∷ []

-- The digest that the standard gives for it.
abbrev abc_hash : State
abc_hash = record {
  a = 3128432319;
  b = 2399260650;
  c = 1094795486;
  d = 1571693091;
  e = 2953011619;
  f = 2518121116;
  g = 3021012833;
  h = 4060091821;
}

abc_hashed : sha256_transform initial_state abc_block ≡ abc_hash
unfolding initial_state sha256_transform add_words digest_rounds ks sha256_digester e0 e1 ch maj s0
    s1
abc_hashed = refl
