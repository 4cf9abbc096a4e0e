-- ===== src/Fio/Control/Modes.antt =====
-- The modes that `set_mode` of sw/daemon/aos_fio.hpp selects.
use amorphos_fsrf.Common.{
  ℕ, ◌+◌, ◌<◌, ◌≤◌, ◌≢◌, true, sym, ◌∙◌, ◌≡◌, refl, arith, to_num, ◌==◌, ==_iff, leb, Bool-cases,
  inl, inr,
}
use amorphos_fsrf.Fio.{Fio, Run, ok, aborted}
use amorphos_fsrf.Fio.Control.{program_mode, set_mode}

-- One of the four mode flags is set.
abbrev pub HasOneMode : Fio → Type 0
HasOneMode s = to_num s.standard + to_num s.coyote + to_num s.physical + to_num s.aos_seg ≡ 1

-- The outcome keeps one mode, or it is the assertion on the prefetch size that fails.
abbrev pub KeepsMode : ℕ → ℕ → Run (Unit {0}) → Type 0
KeepsMode mode data_ (ok _ s) = HasOneMode s × (mode ≡ 3 → data_ ≤ 512)
KeepsMode mode data_ aborted = (mode ≡ 3) × (512 < data_)
KeepsMode mode data_ _ = ⊥

-- Where one of the four modes is set, setting any mode returns with one of them set, except that
-- setting a prefetch size above 512 never returns: its assertion fails.
pub set_mode-KeepsMode :
    (mode data_ : ℕ) (s : Fio) → HasOneMode s → KeepsMode mode data_ (set_mode mode data_ s)
unfolding set_mode program_mode
set_mode-KeepsMode mode data_ s h = elim (Bool-cases (mode == 0)) [
  | inl e ↦ rw e (refl, other_mode 0 e (λ q. omega (arith, q)))
  | inr e0 ↦ elim (Bool-cases (mode == 1)) [
    | inl e ↦ rw (e0, e) (refl, other_mode 1 e (λ q. omega (arith, q)))
    | inr e1 ↦ elim (Bool-cases (mode == 2)) [
      | inl e ↦ rw (e0, e1, e) (refl, other_mode 2 e (λ q. omega (arith, q)))
      | inr e2 ↦ elim (Bool-cases (mode == 3)) [
        | inl e ↦ elim (Bool-cases (leb data_ 512)) [
          | inl fits ↦ rw (e0, e1, e2, e, fits) (h, λ q. ground (arith, fits))
          | inr over ↦ rw (e0, e1, e2, e, over) ((==_iff mode 3).0 e, ground arith)
        ]
        | inr e3 ↦ elim (Bool-cases (mode == 4)) [
          | inl e ↦ rw (e0, e1, e2, e3, e) (refl, other_mode 4 e (λ q. omega (arith, q)))
          | inr e4 ↦ elim (Bool-cases (mode == 5)) [
            | inl e ↦ rw (e0, e1, e2, e3, e4, e) (h, other_mode 5 e (λ q. omega (arith, q)))
            | inr e5 ↦ rw (e0, e1, e2, e3, e4, e5) (h, λ q. absurd (ground (arith, q, e3)))
          ]
        ]
      ]
    ]
  ]
]
  where
    other_mode : (k : ℕ) → (mode == k) ≡ true → k ≢ 3 → mode ≡ 3 → data_ ≤ 512
    other_mode k e other q = absurd (other (sym ((==_iff mode k).0 e) ∙ q))
