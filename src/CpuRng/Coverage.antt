-- ===== src/CpuRng/Coverage.antt =====
-- Which pages the benchmark moves.
use amorphos_fsrf.Common.{
  ℕ, zero, suc, ◌+◌, ◌*◌, ◌/◌, ◌%◌, ◌^◌, ◌<◌, ◌≤◌, ◌≡◌, refl, sym, ◌∙◌, ap, Bool, true, false, List,
  [], ◌∷◌, All, ◌==◌, if◌then◌else◌, arith, Bool-cases, ==_iff, inl, inr,
}
use amorphos_fsrf.CpuRng.{
  permute, Io, Scan, finished, big_page, io_of, mark, access, step, scan, cpu_rng,
}
use native.Mathlib.Nat.{mul-div-le, mul-le-mul_left, mul-suc, lt_of_mul-lt-mul_left}
use native.Mathlib.Omega.{div_any}
use mathlib.Core.Path.{subst}
use Prim.Native.Nat.{bit_xor}

permute-lt : (idx : ℕ) → permute idx < 2 ^ 19
unfolding permute
permute-lt idx = ground arith

quotient_lt : (p q y : ℕ) → y < p * q → y / p < q
quotient_lt p q y h = lt_of_mul-lt-mul_left p (omega (arith, h, mul-div-le y p))

-- The pages whose calls are given.
unfoldable pub calls_of : Bool → ℕ → List ℕ → List Io
calls_of reading page_size [] = []
calls_of reading page_size (p ∷ ps) = io_of reading page_size p ∷ calls_of reading page_size ps

unfoldable pub listed : ℕ → List ℕ → Bool
listed p [] = false
listed p (q ∷ qs) = if p == q then true else listed p qs

listed_head : (p : ℕ) (ps : List ℕ) → listed p (p ∷ ps) ≡ true
unfolding listed
listed_head p ps = ground arith

listed-cons : (p q : ℕ) (ps : List ℕ) → listed p ps ≡ true → listed p (q ∷ ps) ≡ true
unfolding listed
listed-cons p q ps h = ground (arith, h)

unfoldable pub Distinct : List ℕ → Type 0
Distinct [] = Unit
Distinct (p ∷ ps) = (listed p ps ≡ false) × Distinct ps

module _ (moves : List Io → Io → ℕ) (reading : Bool) (page_size : ℕ) (some_page : 0 < page_size)
    (whole : 2 ^ 19 % page_size ≡ 0)
    (moves_all : (done : List Io) (io : Io) → moves done io ≡ io.io_size) where
  -- After `i` rounds, the flags and calls are those of `pages`.
  pub record IsCovered (i : ℕ) (s : Scan) (pages : List ℕ) : Type 0 where
    pub marks : (p : ℕ) → s.faulted p ≡ listed p pages
    pub called : s.calls ≡ calls_of reading page_size pages
    pub distinct : Distinct pages
    pub inside : All (λ p. p < 2 ^ 19 / page_size) pages
    pub seen : (j : ℕ) → j < i → listed (big_page page_size j) pages ≡ true

  big_page-lt : (i : ℕ) → big_page page_size i < 2 ^ 19 / page_size
  unfolding big_page
  big_page-lt i =
      quotient_lt page_size (2 ^ 19 / page_size) (permute (bit_xor (permute i) 13877))
        (omega (arith, permute-lt (bit_xor (permute i) 13877), div_any (2 ^ 19) page_size, whole))

  earlier :
      (i : ℕ) (pages : List ℕ)
      → ((j : ℕ) → j < i → listed (big_page page_size j) pages ≡ true)
      → listed (big_page page_size i) pages ≡ true
      → (j : ℕ) → j < suc i
      → listed (big_page page_size j) pages ≡ true
  earlier i pages before last j h = elim (Bool-cases (j == i)) [
    | inl e ↦ rw ((==_iff j i).0 e) last
    | inr e ↦ before j (ground (arith, e, h))
  ]

  step-IsCovered :
      (i : ℕ) (s : Scan) (pages : List ℕ)
      → IsCovered i s pages
      → (t : Scan) × (more : List ℕ) × (step moves reading page_size i s ≡ finished t)
        × IsCovered (suc i) t more
  unfolding step access calls_of listed Distinct
  step-IsCovered i s pages c = elim (Bool-cases (s.faulted (big_page page_size i))) [
    | inl old ↦ (
      s,
      pages,
      ground (arith, big_page-lt i, old),
      record {
        marks = c.marks;
        called = c.called;
        distinct = c.distinct;
        inside = c.inside;
        seen = earlier i pages c.seen (sym (c.marks (big_page page_size i)) ∙ old);
      },
    )
    | inr new ↦ (
      record {
        faulted = mark (big_page page_size i) s.faulted;
        calls = io_of reading page_size (big_page page_size i) ∷ s.calls;
      },
      big_page page_size i ∷ pages,
      ground (
        arith,
        big_page-lt i,
        new,
        moves_all s.calls (io_of reading page_size (big_page page_size i)),
      ),
      record {
        marks = λ p. ground (arith, c.marks p);
        called = ap (λ cs. io_of reading page_size (big_page page_size i) ∷ cs) c.called;
        distinct = (sym (c.marks (big_page page_size i)) ∙ new, c.distinct);
        inside = (big_page-lt i, c.inside);
        seen =
            earlier i (big_page page_size i ∷ pages)
              (λ j h. listed-cons (big_page page_size j) (big_page page_size i) pages (c.seen j h))
              (listed_head (big_page page_size i) pages);
      },
    )
  ]

  scan-IsCovered :
      (n i last : ℕ) (s : Scan) (pages : List ℕ)
      → n + i ≡ last
      → IsCovered i s pages
      → (t : Scan) × (more : List ℕ) × (scan moves reading page_size n i s ≡ finished t)
        × IsCovered last t more
  unfolding scan
  scan-IsCovered zero i last s pages e c =
      (s, pages, refl, subst (λ k. IsCovered k s pages) (omega (arith, e)) c)
  scan-IsCovered (suc n) i last s pages e c =
      let (t, more, ran, d) = step-IsCovered i s pages c in
      let (u, all, rest, f) = scan-IsCovered n (suc i) last t more (omega (arith, e)) d in
      (u, all, rw ran rest, f)

  page_room : (page : ℕ) → page < 2 ^ 19 / page_size → page_size * page + page_size ≤ 2 ^ 19
  page_room page h =
      omega
        (arith, mul-div-le (2 ^ 19) page_size, mul-le-mul_left page_size h, mul-suc page_size page)

  io_of_fit :
      (page : ℕ)
      → page < 2 ^ 19 / page_size
      → (io_of reading page_size page).offset + (io_of reading page_size page).io_size ≤ 2 ^ 31
  unfolding io_of
  io_of_fit page h = omega (arith, page_room page h)

  calls_of_fit :
      (pages : List ℕ)
      → All (λ p. p < 2 ^ 19 / page_size) pages
      → All (λ io. io.offset + io.io_size ≤ 2 ^ 31) (calls_of reading page_size pages)
  unfolding calls_of
  calls_of_fit [] h = tt
  calls_of_fit (p ∷ ps) h = (io_of_fit p h.0, calls_of_fit ps h.1)

-- For a page size that divides 2^19, and transfers that all move what they are asked for, the loop
-- finishes, and there is a list of pages, each once, whose calls it made: all of them within the 2^31
-- bytes of the file, and with the page of every round.
pub cpu_rng-calls_of :
    (moves : List Io → Io → ℕ) (reading : Bool) (page_size : ℕ)
    → 0 < page_size
    → 2 ^ 19 % page_size ≡ 0
    → ((done : List Io) (io : Io) → moves done io ≡ io.io_size)
    → (t : Scan) × (pages : List ℕ) × (cpu_rng moves reading page_size ≡ finished t)
      × (t.calls ≡ calls_of reading page_size pages)
      × Distinct pages
      × All (λ io. io.offset + io.io_size ≤ 2 ^ 31) t.calls
      × ((j : ℕ) → j < 2 ^ 19 → listed (big_page page_size j) pages ≡ true)
unfolding cpu_rng listed Distinct calls_of
cpu_rng-calls_of moves reading page_size some_page whole moves_all =
    let (t, pages, ran, c) =
      scan-IsCovered moves reading page_size some_page whole moves_all (2 ^ 19) 0 (2 ^ 19)
        (record { faulted = λ p. false; calls = [] }) [] (omega arith)
        (record {
          marks = λ p. refl;
          called = refl;
          distinct = tt;
          inside = tt;
          seen = λ j h. absurd (omega arith);
        }) in
    let fits = calls_of_fit moves reading page_size some_page whole moves_all pages c.inside in
    (
      t,
      pages,
      ran,
      c.called,
      c.distinct,
      subst (All (λ io. io.offset + io.io_size ≤ 2 ^ 31)) (sym c.called) fits,
      c.seen,
    )
