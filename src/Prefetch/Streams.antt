-- ===== src/Prefetch/Streams.antt =====
-- Which stream `AddrPrefetchHelper::get_num_pages` follows, and how the streams age
-- (sw/daemon/aos_fio.hpp).
use amorphos_fsrf.Common.{
  ℕ, zero, suc, ◌+◌, ◌≤◌, ◌<◌, ◌≡◌, refl, ◌⊎◌, inl, inr, Option, none, some, List, [], ◌∷◌, add64,
  arith, ltb, ◌==◌, ==_iff, Bool-cases, length, if◌then◌else◌,
}
use amorphos_fsrf.Prefetch.{
  Prefetcher, get_num_pages, age_all, answer, Stream, age_from, advance, later_hit, hit, replace,
}

abbrev pub Expects : ℕ → List Stream → Type 0
Expects vpn [] = ⊥
Expects vpn (s ∷ l) = (s.vpn ≡ vpn) ⊎ Expects vpn l

length-age_from :
    (l : List Stream) (i idx oldest : ℕ) → length (age_from i idx oldest l).1 ≡ length l
unfolding age_from
length-age_from [] i idx oldest = refl
length-age_from (s ∷ l) i idx oldest = omega (
  arith,
  length-age_from l (suc i) (if ltb oldest s.age then i else idx)
      (if ltb oldest s.age then add64 s.age 1 else oldest),
)

-- The index found is one of the list that began at index 0.
age_from-lt :
    (l : List Stream) (i idx oldest : ℕ) → idx < i → (age_from i idx oldest l).0 < i + length l
unfolding age_from
age_from-lt [] i idx oldest h = omega arith
age_from-lt (s ∷ l) i idx oldest h = elim (Bool-cases (ltb oldest s.age)) [
  | inl e ↦ rw e (omega (arith, age_from-lt l (suc i) i (add64 s.age 1) (omega arith)))
  | inr e ↦ rw e (omega (arith, age_from-lt l (suc i) idx oldest (omega arith)))
]

replace-Expects :
    (l : List Stream) (vpn idx : ℕ) → idx < length l → Expects (add64 vpn 1) (replace vpn idx l)
unfolding replace
replace-Expects [] vpn idx h = elim h [ ]
replace-Expects (s ∷ l) vpn zero h = inl refl
replace-Expects (s ∷ l) vpn (suc idx) h = inr (replace-Expects l vpn idx (omega arith))

abbrev HitExpects : ℕ → Option (ℕ × List Stream) → Type 0
HitExpects vpn none = Unit
HitExpects vpn (some (n, after)) = Expects (add64 vpn n) after

HitExpects-later :
    (vpn : ℕ) (s : Stream) (o : Option (ℕ × List Stream))
    → HitExpects vpn o
    → HitExpects vpn (later_hit s o)
HitExpects-later vpn s none h = tt
HitExpects-later vpn s (some (n, after)) h = inr h

hit-HitExpects : (m vpn : ℕ) (l : List Stream) → HitExpects vpn (hit m vpn l)
unfolding hit advance
hit-HitExpects m vpn [] = tt
hit-HitExpects m vpn (s ∷ l) = elim (Bool-cases (vpn == s.vpn)) [
  | inl e ↦ rw (e, (==_iff vpn s.vpn).0 e) (inl refl)
  | inr e ↦ rw e (HitExpects-later vpn s (hit m vpn l) (hit-HitExpects m vpn l))
]

length-age_all : (l : List Stream) → length (age_all l).1 ≡ length l
unfolding age_all
length-age_all [] = refl
length-age_all (s ∷ l) = omega (arith, length-age_from l 1 0 s.age)

age_all-lt : (l : List Stream) → 0 < length l → (age_all l).0 < length l
unfolding age_all
age_all-lt [] h = h
age_all-lt (s ∷ l) h = omega (arith, age_from-lt l 1 0 s.age (omega arith))

-- Where there is a stream at all, and a window of at least one page, a call leaves a stream that
-- expects the page behind the pages it granted.
pub get_num_pages-Expects :
    (vpn : ℕ) (p : Prefetcher)
    → 0 < length p.streams
    → 0 < p.max_len
    → Expects (add64 vpn (get_num_pages vpn p).0) (get_num_pages vpn p).1.streams
unfolding get_num_pages
get_num_pages-Expects vpn p h window =
    from_hit (hit p.max_len vpn (age_all p.streams).1)
      (hit-HitExpects p.max_len vpn (age_all p.streams).1)
  where
    in_range : (age_all p.streams).0 < length (age_all p.streams).1
    in_range = omega (arith, age_all-lt p.streams h, length-age_all p.streams)

    from_hit :
        (o : Option (ℕ × List Stream))
        → HitExpects vpn o
        → Expects
            (add64 vpn (answer vpn p (age_all p.streams) o).0)
            (answer vpn p (age_all p.streams) o).1.streams
    from_hit none fits = replace-Expects (age_all p.streams).1 vpn (age_all p.streams).0 in_range
    from_hit (some (n, after)) fits = fits

abbrev pub first_age : List Stream → ℕ
first_age [] = 0
first_age (s ∷ l) = s.age

first_age-replace : (vpn idx : ℕ) (l : List Stream) → first_age (replace vpn idx l) ≤ first_age l
unfolding replace
first_age-replace vpn idx [] = omega arith
first_age-replace vpn zero (s ∷ l) = omega arith
first_age-replace vpn (suc idx) (s ∷ l) = omega arith

first_age-age_all : (l : List Stream) → first_age (age_all l).1 ≡ first_age l
unfolding age_all
first_age-age_all [] = refl
first_age-age_all (s ∷ l) = refl

abbrev HitKeeps : ℕ → Option (ℕ × List Stream) → Type 0
HitKeeps age none = Unit
HitKeeps age (some (n, after)) = first_age after ≤ age

hit-HitKeeps : (m vpn : ℕ) (l : List Stream) → HitKeeps (first_age l) (hit m vpn l)
unfolding hit advance
hit-HitKeeps m vpn [] = tt
hit-HitKeeps m vpn (s ∷ l) = elim (Bool-cases (vpn == s.vpn)) [
  | inl e ↦ rw e (omega arith)
  | inr e ↦ rw e (behind (hit m vpn l))
]
  where
    behind : (o : Option (ℕ × List Stream)) → HitKeeps s.age (later_hit s o)
    behind none = tt
    behind (some (n, after)) = omega arith

-- The age of the first stream never grows, whatever is asked for: the loop that counts the ages up
-- starts at the second stream.
pub get_num_pages-first_age :
    (vpn : ℕ) (p : Prefetcher) → first_age (get_num_pages vpn p).1.streams ≤ first_age p.streams
unfolding get_num_pages
get_num_pages-first_age vpn p =
    from_hit (hit p.max_len vpn (age_all p.streams).1)
      (hit-HitKeeps p.max_len vpn (age_all p.streams).1)
  where
    from_hit :
        (o : Option (ℕ × List Stream))
        → HitKeeps (first_age (age_all p.streams).1) o
        → first_age (answer vpn p (age_all p.streams) o).1.streams ≤ first_age p.streams
    from_hit none keeps = omega (
      arith,
      first_age-replace vpn (age_all p.streams).0 (age_all p.streams).1,
      first_age-age_all p.streams,
    )
    from_hit (some (n, after)) keeps = omega (arith, first_age-age_all p.streams)
