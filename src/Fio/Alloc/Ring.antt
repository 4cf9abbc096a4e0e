-- ===== src/Fio/Alloc/Ring.antt =====
-- The ring of device pages of `phys_alloc_unaligned` (sw/daemon/aos_fio.hpp).
use amorphos_fsrf.Common.{
  ℕ, ◌+◌, ◌^◌, ◌≤◌, ◌<◌, ◌≡◌, refl, ◌⊎◌, inl, inr, true, false, arith, ltb, ◌==◌, Bool-cases, add64,
  if◌then◌else◌,
}
use amorphos_fsrf.Fio.{Fio, ok}
use amorphos_fsrf.Fio.Alloc.{ring_start, grant, take_pages, phys_alloc_unaligned}

-- The next page is one of the ring.
pub record IsRing (s : Fio) : Type 0 where
  pub start_le : ring_start s ≤ s.phys_next
  pub next_lt : s.phys_next < s.phys_bound
  pub fits : s.phys_bound < 2 ^ 64

-- What an allocation in the first turn of the ring gives: `n` pages from `ppn` on.
pub record IsGranted (num_pages : ℕ) (s : Fio) (n ppn : ℕ) (s' : Fio) : Type 0 where
  pub at_most : n ≤ num_pages
  pub some_page : 1 ≤ num_pages → 1 ≤ n
  pub fresh : 1 ≤ num_pages → ppn ≡ s.phys_next
  pub inside : ppn + n ≤ s.phys_bound
  pub all_or_end : (n ≡ num_pages) ⊎ (ppn + n ≡ s.phys_bound)
  pub ring : IsRing s'
  pub turned :
      ((s'.phys_overflow ≡ false) × (s'.phys_next ≡ s.phys_next + n))
      ⊎ ((s'.phys_overflow ≡ true) × (s'.phys_next ≡ ring_start s) × (ppn + n ≡ s.phys_bound))

grant_value :
    (num_pages : ℕ) (s : Fio)
    → IsRing s
    → ((grant num_pages s ≡ num_pages) × (s.phys_next + num_pages ≤ s.phys_bound))
      ⊎ ((grant num_pages s < num_pages) × (s.phys_next + grant num_pages s ≡ s.phys_bound))
grant_value num_pages s h = ground (arith, h.next_lt, h.fits)

module _ (s : Fio) (n ppn : ℕ) (h : IsRing s) (o : s.phys_overflow ≡ false) where
  sum_fits : s.phys_next + n ≤ s.phys_bound → add64 s.phys_next n ≡ s.phys_next + n
  sum_fits p = omega (arith, h.fits)

  next_below :
      s.phys_next + n ≤ s.phys_bound
      → (add64 s.phys_next n == s.phys_bound) ≡ false
      → s.phys_next + n < s.phys_bound
  next_below p e = ground (arith, sum_fits p)

  at_end :
      s.phys_next + n ≤ s.phys_bound
      → (add64 s.phys_next n == s.phys_bound) ≡ true
      → (1 ≤ n → ppn ≡ s.phys_next)
      → ppn + n ≡ s.phys_bound
  at_end p e at =
      let q : s.phys_next + n ≡ s.phys_bound = ground (arith, sum_fits p) in
      omega (arith, at (omega (arith, h.next_lt)))

  -- The ring moved on by pages that fit.
  take_pages-IsRing : s.phys_next + n ≤ s.phys_bound → IsRing (take_pages n s)
  take_pages-IsRing p = elim (Bool-cases (add64 s.phys_next n == s.phys_bound)) [
    | inl e ↦ rw e (record {
      start_le = omega arith;
      next_lt = omega (arith, h.start_le, h.next_lt);
      fits = h.fits;
    })
    | inr e ↦
        rw (e, sum_fits p)
          (record { start_le = omega (arith, h.start_le); next_lt = next_below p e; fits = h.fits })
  ]

  take_pages-turned :
      s.phys_next + n ≤ s.phys_bound
      → (1 ≤ n → ppn ≡ s.phys_next)
      → (((take_pages n s).phys_overflow ≡ false) × ((take_pages n s).phys_next ≡ s.phys_next + n))
        ⊎ (((take_pages n s).phys_overflow ≡ true)
            × ((take_pages n s).phys_next ≡ ring_start s)
            × (ppn + n ≡ s.phys_bound))
  take_pages-turned p at = elim (Bool-cases (add64 s.phys_next n == s.phys_bound)) [
    | inl e ↦ rw e (inr (refl, refl, at_end p e at))
    | inr e ↦ rw (e, sum_fits p) (inl (o, refl))
  ]

abbrev first_page : ℕ → Fio → ℕ
first_page n s = if ltb 0 n then s.phys_next else 0

first_page_some : (n : ℕ) (s : Fio) → 1 ≤ n → first_page n s ≡ s.phys_next
first_page_some n s p = ground arith

grant-IsGranted :
    (num_pages n : ℕ) (s : Fio)
    → IsRing s
    → s.phys_overflow ≡ false
    → ((n ≡ num_pages) × (s.phys_next + num_pages ≤ s.phys_bound))
      ⊎ ((n < num_pages) × (s.phys_next + n ≡ s.phys_bound))
    → IsGranted num_pages s n (first_page n s) (take_pages n s)
grant-IsGranted num_pages n s h o cases =
    let fits : s.phys_next + n ≤ s.phys_bound = ground arith in
    let first = first_page_some n s in
    let positive : 1 ≤ num_pages → 1 ≤ n = λ p. ground (arith, h.next_lt) in
    record {
      at_most = ground arith;
      some_page = positive;
      fresh = λ p. first (positive p);
      inside = ground arith;
      all_or_end = elim cases [
        | inl (e, p) ↦ inl e
        | inr (q, e) ↦ inr (omega (arith, first (omega (arith, h.next_lt)), e))
      ];
      ring = take_pages-IsRing s n (first_page n s) h o fits;
      turned = take_pages-turned s n (first_page n s) h o fits first;
    }

-- In the first turn of the ring an allocation returns. It grants no more pages than are asked for,
-- and at least one where one is asked for; they are the next pages of the ring and end within the
-- device's part; they are fewer than asked for only where they reach its end, and the ring goes on
-- behind them, or at its start in the second turn when they reach its end.
pub phys_alloc_unaligned-IsGranted :
    (num_pages : ℕ) (s : Fio)
    → IsRing s
    → s.phys_overflow ≡ false
    → (n : ℕ) × (ppn : ℕ) × (s' : Fio) × (phys_alloc_unaligned num_pages s ≡ ok (n, ppn) s')
      × IsGranted num_pages s n ppn s'
unfolding phys_alloc_unaligned
phys_alloc_unaligned-IsGranted num_pages s h o = (
  grant num_pages s,
  first_page (grant num_pages s) s,
  take_pages (grant num_pages s) s,
  rw o refl,
  grant-IsGranted num_pages (grant num_pages s) s h o (grant_value num_pages s h),
)
