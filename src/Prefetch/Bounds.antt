-- ===== src/Prefetch/Bounds.antt =====
-- How many pages `AddrPrefetchHelper::get_num_pages` grants (sw/daemon/aos_fio.hpp).
use native.Mathlib.Nat.{mod-lt}
use amorphos_fsrf.Common.{
  ℕ, zero, suc, ◌+◌, ◌%◌, ◌≤◌, ◌<◌, ◌≡◌, ◌^◌, List, [], ◌∷◌, Option, none, some, All, arith, ◌==◌,
  Bool-cases, ==_iff, inl, inr,
}
use amorphos_fsrf.Prefetch.{
  Stream, Prefetcher, age_from, age_all, granted, advance, later_hit, hit, replace, answer,
  get_num_pages,
}

abbrev pub IsLen : ℕ → Stream → Type 0
IsLen m s = (1 ≤ s.len) × (s.len ≤ m)

pub record IsSound (p : Prefetcher) : Type 0 where
  pub window : 0 < p.max_len
  pub small : p.max_len < 2 ^ 63
  pub lens : All (IsLen p.max_len) p.streams

age_from-All :
    (m : ℕ) (l : List Stream) (i idx oldest : ℕ)
    → All (IsLen m) l
    → All (IsLen m) (age_from i idx oldest l).1
unfolding age_from
age_from-All m [] i idx oldest h = tt
age_from-All m (s ∷ l) i idx oldest h = (h.0, age_from-All m l _ _ _ h.1)

age_all-All : (m : ℕ) (l : List Stream) → All (IsLen m) l → All (IsLen m) (age_all l).1
unfolding age_all
age_all-All m [] h = tt
age_all-All m (s ∷ l) h = (h.0, age_from-All m l _ _ _ h.1)

replace-All :
    (m vpn idx : ℕ) (l : List Stream) → 0 < m → All (IsLen m) l → All (IsLen m) (replace vpn idx l)
unfolding replace
replace-All m vpn idx [] p h = tt
replace-All m vpn zero (s ∷ l) p h = ((omega arith, omega arith), h.1)
replace-All m vpn (suc idx) (s ∷ l) p h = (h.0, replace-All m vpn idx l p h.1)

granted_bounds :
    (m vpn : ℕ) (s : Stream)
    → 0 < m
    → IsLen m s
    → vpn ≡ s.vpn
    → (1 ≤ granted m s) × (vpn % m + granted m s ≤ m)
unfolding granted
granted_bounds m vpn s p h e = grind (arith, mod-lt)

advance-IsLen : (m : ℕ) (s : Stream) → 0 < m → m < 2 ^ 63 → IsLen m s → IsLen m (advance m s)
unfolding advance
advance-IsLen m s p q h = omega arith

abbrev HitFits : ℕ → ℕ → Option (ℕ × List Stream) → Type 0
HitFits m vpn none = Unit
HitFits m vpn (some (n, after)) = (1 ≤ n) × (vpn % m + n ≤ m) × All (IsLen m) after

HitFits-cons :
    (m vpn : ℕ) (s : Stream) (o : Option (ℕ × List Stream))
    → IsLen m s
    → HitFits m vpn o
    → HitFits m vpn (later_hit s o)
HitFits-cons m vpn s none h fits = tt
HitFits-cons m vpn s (some (n, after)) h fits = (fits.0, fits.1, (h, fits.2))

hit-HitFits :
    (m vpn : ℕ) (l : List Stream)
    → 0 < m
    → m < 2 ^ 63
    → All (IsLen m) l
    → HitFits m vpn (hit m vpn l)
unfolding hit
hit-HitFits m vpn [] p q h = tt
hit-HitFits m vpn (s ∷ l) p q h = elim (Bool-cases (vpn == s.vpn)) [
  | inl e ↦
      let fits = granted_bounds m vpn s p h.0 ((==_iff vpn s.vpn).0 e) in
      rw e (fits.0, fits.1, (advance-IsLen m s p q h.0, h.1))
  | inr e ↦ rw e (HitFits-cons m vpn s (hit m vpn l) h.0 (hit-HitFits m vpn l p q h.1))
]

-- With a window of `max_len` pages and streams within it, a call grants at least the page that is
-- asked for, never reaches across the next multiple of `max_len`, and keeps the streams within the
-- window.
pub get_num_pages_bounds :
    (vpn : ℕ) (p : Prefetcher)
    → IsSound p
    → (1 ≤ (get_num_pages vpn p).0)
      × (vpn % p.max_len + (get_num_pages vpn p).0 ≤ p.max_len)
      × IsSound (get_num_pages vpn p).1
unfolding get_num_pages
get_num_pages_bounds vpn p h =
    from_hit (hit p.max_len vpn (age_all p.streams).1)
      (hit-HitFits p.max_len vpn (age_all p.streams).1 h.window h.small aged)
  where
    aged : All (IsLen p.max_len) (age_all p.streams).1
    aged = age_all-All p.max_len p.streams h.lens

    from_hit :
        (o : Option (ℕ × List Stream))
        → HitFits p.max_len vpn o
        → (1 ≤ (answer vpn p (age_all p.streams) o).0)
          × (vpn % p.max_len + (answer vpn p (age_all p.streams) o).0 ≤ p.max_len)
          × IsSound (answer vpn p (age_all p.streams) o).1
    from_hit none fits = (
      omega arith,
      omega (arith, mod-lt vpn h.window),
      record {
        window = h.window;
        small = h.small;
        lens = replace-All p.max_len vpn (age_all p.streams).0 _ h.window aged;
      },
    )
    from_hit (some (n, after)) fits =
        (fits.0, fits.1, record { window = h.window; small = h.small; lens = fits.2 })
