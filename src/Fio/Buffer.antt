-- ===== src/Fio/Buffer.antt =====
-- The transfer buffer of sw/daemon/aos_fio.hpp: reading a file into it and writing it to a file, and
-- ranges of pages that are copied in parts.
use amorphos_fsrf.Common.{
  ℕ, ◌+◌, ◌-◌, ◌*◌, ◌≤◌, ◌/◌, ◌^◌, ◌<◌, ◌≡◌, refl, true, false, arith, ltb, leb, Bool-cases, inl,
  inr, ◌∷◌, ap, ==_refl, ◌<<<◌,
}
use amorphos_fsrf.Host.{file_read, file_written}
use amorphos_fsrf.Host.Memory.{
  Outset, Page, replay, apply, commanded, outstanding, from_file, to_file, paste, load,
}
use amorphos_fsrf.Fio.{Fio, ok}
use amorphos_fsrf.Fio.Transfer.{read_file, write_file}
use amorphos_fsrf.Fio.Ready.{IsReady, with_trace}
use amorphos_fsrf.Fio.Moves.{Moved, Does}

pub plus_zero : (x : ℕ) → x ≡ x + 0
plus_zero x = omega arith

-- A word of pages as bytes and back.
pages_bytes : (n : ℕ) → n < 2 ^ 52 → (n <<< 12) / 2 ^ 12 ≡ n
pages_bytes n h = omega arith

bytes_within :
    (before : Outset) (fd n pn : ℕ)
    → n < 2 ^ 52
    → pn < 2 ^ 52
    → pn + n ≤ before.pages fd
    → (pn <<< 12) + (n <<< 12) ≤ before.pages fd * 4096
bytes_within before fd n pn hn hp within = omega arith

module _ (before : Outset) (fd n pn : ℕ) (s : Fio) (h : IsReady before s) (hn : n < 2 ^ 52)
    (hp : pn < 2 ^ 52) (within : pn + n ≤ before.pages fd) where
  pub read_file-Moved : Moved before s 0 (Does (from_file fd pn n)) (read_file fd n pn s)
  unfolding read_file
  read_file-Moved =
      rw
        (
          h.healthy.reads s.world.trace fd (n <<< 12) (pn <<< 12)
              (bytes_within before fd n pn hn hp within),
          ==_refl (n <<< 12),
        )
        (record {
          trace = file_read fd (n <<< 12) (pn <<< 12) ∷ s.world.trace;
          returns =
              ap (λ x. ok tt (with_trace s (file_read fd (n <<< 12) (pn <<< 12) ∷ s.world.trace) x))
                (plus_zero s.pages_xfered);
          memory = λ m. unfold replay apply in rw (pages_bytes n hn, pages_bytes pn hp) refl;
          ready = record {
            healthy = h.healthy;
            patient = h.patient;
            app = h.app;
            buf = h.buf;
            channel = h.channel;
            settled = unfold commanded in omega (arith, h.settled);
            idle = unfold outstanding in h.idle;
          };
        })

  pub write_file-Moved : Moved before s 0 (Does (to_file fd pn n)) (write_file fd n pn s)
  unfolding write_file
  write_file-Moved =
      rw
        (
          h.healthy.writes s.world.trace fd (n <<< 12) (pn <<< 12)
              (bytes_within before fd n pn hn hp within),
          ==_refl (n <<< 12),
        )
        (record {
          trace = file_written fd (n <<< 12) (pn <<< 12) ∷ s.world.trace;
          returns =
              ap
                (λ x.
                  ok tt (with_trace s (file_written fd (n <<< 12) (pn <<< 12) ∷ s.world.trace) x))
                (plus_zero s.pages_xfered);
          memory = λ m. unfold replay apply in rw (pages_bytes n hn, pages_bytes pn hp) refl;
          ready = record {
            healthy = h.healthy;
            patient = h.patient;
            app = h.app;
            buf = h.buf;
            channel = h.channel;
            settled = unfold commanded in omega (arith, h.settled);
            idle = unfold outstanding in h.idle;
          };
        })

pub paste-load :
    (f g buffer : ℕ → Page) (base n off p : ℕ)
    → paste f base n (load buffer n off g) p ≡ paste f base n (λ k. g (off + k)) p
paste-load f g buffer base n off p = elim (Bool-cases (leb base p)) [
  | inl above ↦ elim (Bool-cases (ltb p (base + n))) [
    | inl first ↦ let c : ltb (p - base) n ≡ true = ground arith in rw (c, above, first) refl
    | inr behind ↦ rw (above, behind) refl
  ]
  | inr below ↦ rw below refl
]

-- Two parts of a range pasted one after the other.
pub paste-paste :
    (f f' g : ℕ → Page) (base n m off p : ℕ)
    → f' p ≡ paste f base n (λ k. g (off + k)) p
    → paste f' (base + n) m (λ k. g (off + n + k)) p ≡ paste f base (n + m) (λ k. g (off + k)) p
paste-paste f f' g base n m off p e = rw e (elim (Bool-cases (leb base p)) [
  | inl above ↦ elim (Bool-cases (ltb p (base + n))) [
    | inl first ↦
        let a : leb (base + n) p ≡ false = ground arith in
        let b : ltb p (base + (n + m)) ≡ true = ground arith in rw (a, b, above, first) refl
    | inr behind ↦
        let a : leb (base + n) p ≡ true = ground arith in
        let b : ltb p (base + n + m) ≡ ltb p (base + (n + m)) = ap (ltb p) (omega arith) in
        let c : off + n + (p - (base + n)) ≡ off + (p - base) = ground arith in
        rw (a, b, c, above, behind) refl
  ]
  | inr below ↦ let a : leb (base + n) p ≡ false = ground arith in rw (a, below) refl
])

pub paste_zero : (f g : ℕ → Page) (base p : ℕ) → paste f base 0 g p ≡ f p
paste_zero f g base p = elim (Bool-cases (leb base p)) [
  | inl above ↦ let a : ltb p (base + 0) ≡ false = ground arith in rw (a, above) refl
  | inr below ↦ rw below refl
]
