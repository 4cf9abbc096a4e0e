-- ===== src/CpuRng/Range.antt =====
-- A page size that does not divide the file.
use amorphos_fsrf.Common.{
  ℕ, zero, suc, ◌+◌, ◌-◌, ◌/◌, ◌%◌, ◌^◌, ◌<◌, ◌≤◌, ◌≡◌, refl, Bool, List, ◌∷◌, ltb, ◌==◌, ==_iff,
  arith, Bool-cases, ◌⊎◌, inl, inr,
}
use amorphos_fsrf.CpuRng.{
  permute, Io, Scan, finished, out_of_range, big_page, io_of, mark, access, step, scan, cpu_rng,
}
use native.Mathlib.Nat.{le-div_iff_mul-le}
use native.Mathlib.Omega.{div_any}
use Prim.Native.Nat.{bit_xor}

-- The round that takes the last page of 4096 bytes.
permute_last : permute (bit_xor (permute 234698) 13877) ≡ 2 ^ 19 - 1
unfolding permute
permute_last = refl

quotient_pred : (p n : ℕ) → 0 < p → 0 < n → 0 < n % p → n / p ≤ (n - 1) / p
quotient_pred p n some_p some_n rest =
    (le-div_iff_mul-le {x = n / p} {y = n - 1} some_p).1 (omega (arith, div_any n p, rest))

module _ (moves : List Io → Io → ℕ) (reading : Bool) (page_size : ℕ) (some_page : 0 < page_size)
    (rest : 0 < 2 ^ 19 % page_size)
    (moves_all : (done : List Io) (io : Io) → moves done io ≡ io.io_size) where
  step_last : (s : Scan) → step moves reading page_size 234698 s ≡ out_of_range
  unfolding step big_page
  step_last s =
      rw permute_last
        (ground (arith, quotient_pred page_size (2 ^ 19) some_page (omega arith) rest))

  access-finished :
      (page : ℕ) (s : Scan) → (t : Scan) × (access moves reading page_size page s ≡ finished t)
  unfolding access
  access-finished page s = elim (Bool-cases (s.faulted page)) [
    | inl old ↦ (s, rw old refl)
    | inr new ↦
        let io = io_of reading page_size page in
        (
          record { faulted = mark page s.faulted; calls = io ∷ s.calls },
          rw (new, moves_all s.calls io, (==_iff io.io_size io.io_size).1 refl) refl,
        )
  ]

  step_cases :
      (i : ℕ) (s : Scan)
      → ((t : Scan) × (step moves reading page_size i s ≡ finished t))
        ⊎ (step moves reading page_size i s ≡ out_of_range)
  unfolding step
  step_cases i s = elim (Bool-cases (ltb (big_page page_size i) (2 ^ 19 / page_size))) [
    | inl e ↦ let (t, ran) = access-finished (big_page page_size i) s in inl (t, rw e ran)
    | inr e ↦ inr (rw e refl)
  ]

  scan-out_of_range :
      (n i : ℕ) (s : Scan)
      → i ≤ 234698
      → 234698 < n + i
      → scan moves reading page_size n i s ≡ out_of_range
  unfolding scan
  scan-out_of_range zero i s low high = absurd (omega arith)
  scan-out_of_range (suc n) i s low high = elim (Bool-cases (i == 234698)) [
    | inl e ↦ rw ((==_iff i 234698).0 e, step_last s) refl
    | inr e ↦ elim (step_cases i s) [
      | inl (t, ran) ↦
          rw ran (scan-out_of_range n (suc i) t (ground (arith, e, low)) (omega (arith, high)))
      | inr stops ↦ rw stops refl
    ]
  ]

-- For a page size that does not divide 2^19, and transfers that all move what they are asked for, the loop always comes
-- to a flag out of range.
pub cpu_rng-out_of_range :
    (moves : List Io → Io → ℕ) (reading : Bool) (page_size : ℕ)
    → 0 < page_size
    → 0 < 2 ^ 19 % page_size
    → ((done : List Io) (io : Io) → moves done io ≡ io.io_size)
    → cpu_rng moves reading page_size ≡ out_of_range
unfolding cpu_rng
cpu_rng-out_of_range moves reading page_size some_page rest moves_all =
    scan-out_of_range moves reading page_size some_page rest moves_all (2 ^ 19) 0 _ (omega arith)
      (omega arith)
