-- ===== src/Fio/Contig/Run.antt =====
-- The run of pages that `get_virt_contig` finds (sw/daemon/aos_fio.hpp).
use mathlib.Core.Bool.{true≢false}
use mathlib.Core.Logic.{◌↔◌}
use amorphos_fsrf.Common.{
  sub64, sym, not, ◌||◌, differs, some, none, ℕ, zero, suc, ◌+◌, ◌-◌, ◌≤◌, ◌<◌, ◌≡◌, ◌⊎◌, inl, inr,
  Bool, true, false, Option, arith, Bool-cases, refl, ap, ◌∙◌, ◌==◌, ==_iff,
}
use amorphos_fsrf.Fio.{Vme}
use amorphos_fsrf.Fio.Contig.{
  after_loops, unlike, Range, stops_below, stops_above, down, up, contig,
}

below_last : (v k : ℕ) → v < suc k → (v == k) ≡ false → v < k
below_last v k p e = grind (arith, ==_iff v k)

above_first : (v k : ℕ) → k ≤ v → (v == k) ≡ false → k + 1 ≤ v
above_first v k p e = grind (arith, ==_iff v k)

module _ (vm : ℕ → Option Vme) (entry : Vme) (req_vpn : ℕ) where
  -- How the loop downwards over the pages `base` to `base + n` ends.
  abbrev DownEnds : ℕ → ℕ → Bool × ℕ → Type 0
  DownEnds n base r =
      (base ≤ r.1)
      × (r.1 ≤ base + n)
      × ((v : ℕ) → r.1 ≤ v → v < base + n → stops_below vm entry req_vpn v ≡ false)
      × (((r.0 ≡ true) × (r.1 ≡ base))
          ⊎ ((r.0 ≡ false) × (base < r.1) × (stops_below vm entry req_vpn (r.1 - 1) ≡ true)))

  down-DownEnds : (n base : ℕ) → DownEnds n base (down n vm entry req_vpn base)
  unfolding down
  down-DownEnds zero base =
      (omega arith, omega arith, λ v p q. absurd (omega arith), inl (refl, refl))
  down-DownEnds (suc n) base = elim (Bool-cases (stops_below vm entry req_vpn (base + n))) [
    | inl e ↦ rw e (
      omega arith,
      omega arith,
      λ v p q. absurd (omega arith),
      inr (refl, omega arith, ap (stops_below vm entry req_vpn) (omega arith) ∙ e),
    )
    | inr e ↦ rw e (
        let later = down-DownEnds n base in
        (
          later.0,
          omega (arith, later.1),
          λ v p q. elim (Bool-cases (v == base + n)) [
            | inl here ↦ ap (stops_below vm entry req_vpn) ((==_iff v (base + n)).0 here) ∙ e
            | inr other ↦ later.2 v p (below_last v (base + n) (omega arith) other)
          ],
          later.3,
        ))
  ]

  abbrev UpEnds : ℕ → ℕ → Bool × ℕ → Type 0
  UpEnds n first r =
      (first ≤ r.1)
      × (r.1 ≤ first + n)
      × ((v : ℕ) → first ≤ v → v < r.1 → stops_above vm entry req_vpn v ≡ false)
      × (((r.0 ≡ true) × (r.1 ≡ first + n))
          ⊎ ((r.0 ≡ false) × (r.1 < first + n) × (stops_above vm entry req_vpn r.1 ≡ true)))

  up-UpEnds : (n first : ℕ) → UpEnds n first (up n vm entry req_vpn first)
  unfolding up
  up-UpEnds zero first =
      (omega arith, omega arith, λ v p q. absurd (omega arith), inl (refl, omega arith))
  up-UpEnds (suc n) first = elim (Bool-cases (stops_above vm entry req_vpn first)) [
    | inl e ↦
        rw e (omega arith, omega arith, λ v p q. absurd (omega arith), inr (refl, omega arith, e))
    | inr e ↦ rw e (
        let later = up-UpEnds n (first + 1) in
        (
          omega (arith, later.0),
          omega (arith, later.1),
          λ v p q. elim (Bool-cases (v == first)) [
            | inl here ↦ ap (stops_above vm entry req_vpn) ((==_iff v first).0 here) ∙ e
            | inr other ↦ later.2 v (above_first v first p other) q
          ],
          elim later.3 [
            | inl (f, g) ↦ inl (f, omega arith)
            | inr (f, g, h) ↦ inr (f, omega arith, h)
          ],
        ))
  ]

-- The page has an entry of the same file with the same right to write, it is not on the device
-- yet, and its place in the file lies as far from the requested page's as the page itself.
abbrev pub Like : Vme → Option Vme → ℕ → (Vme → ℕ) → Type 0
Like entry none apart distance = ⊥
Like entry (some e) apart distance =
    (e.fd ≡ entry.fd) × (e.present ≡ false) × (e.writable ≡ entry.writable) × (distance e ≡ apart)

differs_iff : (a b : Bool) → (differs a b ≡ false) ↔ (a ≡ b)
differs_iff true true = (λ h. refl, λ h. refl)
differs_iff true false = (λ h. h, λ h. h)
differs_iff false true = (λ h. sym h, λ h. sym h)
differs_iff false false = (λ h. refl, λ h. refl)

not_or4 :
    (a b c d : Bool)
    → ((not a || b || c || not d) ≡ false) ↔ ((a ≡ true) × (b ≡ false) × (c ≡ false) × (d ≡ true))
not_or4 a b c d = ground arith

unlike_iff :
    (entry : Vme) (o : Option Vme) (apart : ℕ) (distance : Vme → ℕ)
    → (unlike entry o apart distance ≡ false) ↔ Like entry o apart distance
unlike_iff entry none apart distance = (λ h. true≢false h, λ l. elim l [ ])
unlike_iff entry (some e) apart distance =
    let fd = ==_iff e.fd entry.fd in
    let place = ==_iff (distance e) apart in
    let rights = differs_iff e.writable entry.writable in
    let all =
      not_or4 (e.fd == entry.fd) e.present (differs e.writable entry.writable)
        (distance e == apart) in
    (
      λ h. let l = all.0 h in (fd.0 l.0, l.1, rights.0 l.2, place.0 l.3),
      λ l. all.1 (fd.1 l.0, l.1, rights.1 l.2, place.1 l.3),
    )

-- The page belongs to the run of the requested page, when it lies below and when it lies above.
abbrev pub RunsBelow : (ℕ → Option Vme) → Vme → ℕ → ℕ → Type 0
RunsBelow vm entry req_vpn v = Like entry (vm v) (sub64 req_vpn v) (λ e. sub64 entry.fd_pn e.fd_pn)

abbrev pub RunsAbove : (ℕ → Option Vme) → Vme → ℕ → ℕ → Type 0
RunsAbove vm entry req_vpn v = Like entry (vm v) (sub64 v req_vpn) (λ e. sub64 e.fd_pn entry.fd_pn)

-- What a range must be: within the bounds, around the page, made of pages of its run, and not to
-- be made longer in either direction; `whole` tells whether it is all of the bounds.
pub record IsRun (vm : ℕ → Option Vme) (entry : Vme) (base req_vpn bound : ℕ) (r : Range)
    : Type 0 where
  pub base_le : base ≤ r.base_vpn
  pub base_req : r.base_vpn ≤ req_vpn
  pub req_bound : req_vpn < r.bound_vpn
  pub bound_le : r.bound_vpn ≤ bound
  pub below : (v : ℕ) → r.base_vpn ≤ v → v < req_vpn → RunsBelow vm entry req_vpn v
  pub above : (v : ℕ) → req_vpn < v → v < r.bound_vpn → RunsAbove vm entry req_vpn v
  pub lowest : base < r.base_vpn → ¬ RunsBelow vm entry req_vpn (r.base_vpn - 1)
  pub highest : r.bound_vpn < bound → ¬ RunsAbove vm entry req_vpn r.bound_vpn
  pub whole_iff : (r.whole ≡ true) ↔ ((r.base_vpn ≡ base) × (r.bound_vpn ≡ bound))

module _ (vm : ℕ → Option Vme) (entry : Vme) (req_vpn : ℕ) where
  below_iff : (v : ℕ) → (stops_below vm entry req_vpn v ≡ false) ↔ RunsBelow vm entry req_vpn v
  below_iff v = unlike_iff entry (vm v) (sub64 req_vpn v) (λ e. sub64 entry.fd_pn e.fd_pn)

  above_iff : (v : ℕ) → (stops_above vm entry req_vpn v ≡ false) ↔ RunsAbove vm entry req_vpn v
  above_iff v = unlike_iff entry (vm v) (sub64 v req_vpn) (λ e. sub64 e.fd_pn entry.fd_pn)

  DownEnds-lowest :
      (n base : ℕ) (d : Bool × ℕ)
      → DownEnds vm entry req_vpn n base d
      → base < d.1
      → ¬ RunsBelow vm entry req_vpn (d.1 - 1)
  DownEnds-lowest n base d h p l = elim h.3 [
    | inl (f, g) ↦ omega arith
    | inr (f, g, e) ↦ true≢false (sym e ∙ (below_iff (d.1 - 1)).1 l)
  ]

  UpEnds-highest :
      (n first : ℕ) (u : Bool × ℕ)
      → UpEnds vm entry req_vpn n first u
      → u.1 < first + n
      → ¬ RunsAbove vm entry req_vpn u.1
  UpEnds-highest n first u h p l = elim h.3 [
    | inl (f, g) ↦ omega arith
    | inr (f, g, e) ↦ true≢false (sym e ∙ (above_iff u.1).1 l)
  ]

  after_loops_bound :
      (bound n first : ℕ) (d u : Bool × ℕ)
      → first + n ≡ bound
      → UpEnds vm entry req_vpn n first u
      → (after_loops bound d u).bound_vpn ≡ u.1
  after_loops_bound bound n first d (true, high) e (a, b, c, inl (f, g)) = omega arith
  after_loops_bound bound n first d (true, high) e (a, b, c, inr (f, g, k)) = absurd (true≢false f)
  after_loops_bound bound n first d (false, high) e h = refl

  after_loops_whole :
      (n base first m bound : ℕ) (d u : Bool × ℕ)
      → first + m ≡ bound
      → DownEnds vm entry req_vpn n base d
      → UpEnds vm entry req_vpn m first u
      → ((after_loops bound d u).whole ≡ true) ↔ ((d.1 ≡ base) × (u.1 ≡ bound))
  after_loops_whole n base first m bound (w, low) (w', high) e hd hu = elim hd.3 [
    | inl (f, g) ↦ elim hu.3 [
      | inl (f', g') ↦ rw (f, f') (λ h. (g, omega arith), λ h. refl)
      | inr (f', g', k') ↦ rw (f, f') (λ h. absurd (true≢false (sym h)), λ h. absurd (omega arith))
    ]
    | inr (f, g, k) ↦ rw f (λ h. absurd (true≢false (sym h)), λ h. absurd (omega arith))
  ]

-- For a page within the bounds, the range found is the longest run around it.
pub contig-IsRun :
    (vm : ℕ → Option Vme) (entry : Vme) (base req_vpn bound : ℕ)
    → base ≤ req_vpn
    → req_vpn < bound
    → IsRun vm entry base req_vpn bound (contig vm entry base req_vpn bound)
unfolding contig
contig-IsRun vm entry base req_vpn bound p q =
    let n : ℕ = req_vpn - base in
    let m : ℕ = bound - (req_vpn + 1) in
    let d = down n vm entry req_vpn base in
    let u = up m vm entry req_vpn (req_vpn + 1) in
    let hd : DownEnds vm entry req_vpn n base d = down-DownEnds vm entry req_vpn n base in
    let hu : UpEnds vm entry req_vpn m (req_vpn + 1) u =
      up-UpEnds vm entry req_vpn m (req_vpn + 1) in
    let eb : base + n ≡ req_vpn = omega arith in
    let e : req_vpn + 1 + m ≡ bound = omega arith in
    let high = after_loops_bound vm entry req_vpn bound m (req_vpn + 1) d u e hu in
    record {
      base_le = hd.0;
      base_req = omega (arith, hd.1, eb);
      req_bound = rw high (omega (arith, hu.0));
      bound_le = rw high (omega (arith, hu.1, e));
      below = λ v a b. (below_iff vm entry req_vpn v).0 (hd.2 v a (omega arith));
      above = rw high (λ v a b. (above_iff vm entry req_vpn v).0 (hu.2 v (omega arith) b));
      lowest = DownEnds-lowest vm entry req_vpn n base d hd;
      highest = rw high (λ a. UpEnds-highest vm entry req_vpn m (req_vpn + 1) u hu (omega arith));
      whole_iff =
          rw high (after_loops_whole vm entry req_vpn n base (req_vpn + 1) m bound d u e hd hu);
    }
