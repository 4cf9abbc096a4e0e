-- ===== src/Fio/Copies.antt =====
-- `file_to_device` of sw/daemon/aos_fio.hpp: the pages of the device afterwards.
use Prim.Native.Nat.{min}
use mathlib.Core.Path.{subst}
use amorphos_fsrf.Common.{
  ℕ, zero, suc, ◌+◌, ◌-◌, ◌^◌, ◌≤◌, ◌<◌, ◌≡◌, refl, true, false, arith, add64, ltb, Bool-cases, inl,
  inr, sym, ap, ◌∙◌,
}
use amorphos_fsrf.Host.Memory.{Outset, Memory, replay, from_file, paste}
use amorphos_fsrf.Fio.{exited, aborted, undefined, thrown, running, Cmd, Fio, Run, ok, and_then}
use amorphos_fsrf.Fio.Transfer.{
  dma_wrapper, read_file, file_to_device_from, file_to_device, buf_pages,
}
use amorphos_fsrf.Fio.Ready.{IsReady, with_trace}
use amorphos_fsrf.Fio.Moves.{Moved, dma_wrapper-Moved, moved, Does, Moved-and_then}
use amorphos_fsrf.Fio.Buffer.{plus_zero, paste-load, paste-paste, paste_zero, read_file-Moved}

-- `n` pages of the file stand on the device; files and the rest of the device are as before.
abbrev pub FileToDevice : ℕ → ℕ → ℕ → ℕ → Memory → Memory → Type 0
FileToDevice fd fd_pn n ppn m m' =
    ((p : ℕ) → m'.device p ≡ paste m.device ppn n (λ k. m.file fd (fd_pn + k)) p)
    × (m'.file ≡ m.file)

FileToDevice-chunk :
    (fd fd_pn n ppn : ℕ) (a b c : Memory)
    → Does (from_file fd fd_pn n) a b
    → Does (moved false ppn n) b c
    → FileToDevice fd fd_pn n ppn a c
FileToDevice-chunk fd fd_pn n ppn a b c e e' = (
  λ p.
      ap (λ m. m.device p) e'
      ∙ ap (λ m. paste m.device ppn n m.buffer p) e
      ∙ paste-load a.device (a.file fd) a.buffer ppn n fd_pn p,
  ap (λ m. m.file) e' ∙ ap (λ m. m.file) e,
)

FileToDevice-join :
    (fd fd_pn n k ppn : ℕ) (a b c : Memory)
    → FileToDevice fd fd_pn n ppn a b
    → FileToDevice fd (fd_pn + n) k (ppn + n) b c
    → FileToDevice fd fd_pn (n + k) ppn a c
FileToDevice-join fd fd_pn n k ppn a b c h h' = (
  λ p.
      h'.0 p
      ∙ ap (λ files. paste b.device (ppn + n) k (λ j. files fd (fd_pn + n + j)) p) h.1
      ∙ paste-paste a.device b.device (a.file fd) ppn n k fd_pn p (h.0 p),
  h'.1 ∙ h.1,
)

-- A round: the chunk goes through the buffer.
chunk-Moved :
    (before : Outset) (fd n fd_pn ppn : ℕ) (s : Fio)
    → IsReady before s
    → 1 ≤ n
    → n ≤ 512
    → fd_pn < 2 ^ 52
    → ppn < 2 ^ 24
    → s.pages_xfered + n < 2 ^ 64
    → fd_pn + n ≤ before.pages fd
    → Moved before s n
        (FileToDevice fd fd_pn n ppn)
        (and_then (read_file fd n fd_pn s) (λ _. dma_wrapper false n ppn))
chunk-Moved before fd n fd_pn ppn s h one most hf hp fits within =
    Moved-and_then before 0 n n s (Does (from_file fd fd_pn n)) (Does (moved false ppn n))
      (FileToDevice fd fd_pn n ppn) (read_file fd n fd_pn s) (dma_wrapper false n ppn) (omega arith)
      (read_file-Moved before fd n fd_pn s h (omega arith) hf within)
      (λ s' h' e. dma_wrapper-Moved before false n ppn s' h' one most hp (omega arith))
      (FileToDevice-chunk fd fd_pn n ppn)

and_then_assoc :
    (r : Run (Unit {0})) (c c' : Cmd (Unit {0}))
    → and_then r (λ _ s. and_then (c s) (λ _. c')) ≡ and_then (and_then r (λ _. c)) (λ _. c')
and_then_assoc (ok a s) c c' = refl
and_then_assoc exited c c' = refl
and_then_assoc aborted c c' = refl
and_then_assoc undefined c c' = refl
and_then_assoc thrown c c' = refl
and_then_assoc running c c' = refl

-- No round is left to do.
done-Moved :
    (before : Outset) (fd fd_pn ppn n : ℕ) (s : Fio)
    → IsReady before s
    → n ≡ 0
    → Moved before s n (FileToDevice fd fd_pn n ppn) (ok tt s)
done-Moved before fd fd_pn ppn n s h e = rw e (record {
  trace = s.world.trace;
  returns = ap (λ x. ok tt (with_trace s s.world.trace x)) (plus_zero s.pages_xfered);
  memory = λ m. (
    λ p. sym (
        paste_zero (replay before s.world.trace m).device
          (λ x. (replay before s.world.trace m).file fd (fd_pn + x)) ppn p),
    refl,
  );
  ready = record {
    healthy = h.healthy;
    patient = h.patient;
    app = h.app;
    buf = h.buf;
    channel = h.channel;
    settled = omega (arith, h.settled);
    idle = h.idle;
  };
})

-- A round and the rounds behind it.
round-Moved :
    (before : Outset) (fd fd_pn n rest total ppn : ℕ) (s : Fio) (later : Cmd (Unit {0}))
    → IsReady before s
    → n + rest ≡ total
    → 1 ≤ n
    → n ≤ 512
    → fd_pn < 2 ^ 52
    → ppn < 2 ^ 24
    → s.pages_xfered + n < 2 ^ 64
    → fd_pn + n ≤ before.pages fd
    → ((s' : Fio)
        → IsReady before s'
        → s'.pages_xfered ≡ s.pages_xfered + n
        → Moved before s' rest (FileToDevice fd (fd_pn + n) rest (ppn + n)) (later s'))
    → Moved before s total (FileToDevice fd fd_pn total ppn) (
        and_then
          (read_file fd n fd_pn s)
          (λ _ s'. and_then (dma_wrapper false n ppn s') (λ _. later)))
round-Moved before fd fd_pn n rest total ppn s later h sum one most hf hp fits within next =
    rw (and_then_assoc (read_file fd n fd_pn s) (dma_wrapper false n ppn) later) (
      Moved-and_then before n rest total s (FileToDevice fd fd_pn n ppn)
        (FileToDevice fd (fd_pn + n) rest (ppn + n)) (FileToDevice fd fd_pn total ppn)
        (and_then (read_file fd n fd_pn s) (λ _. dma_wrapper false n ppn)) later sum
        (chunk-Moved before fd n fd_pn ppn s h one most hf hp fits within) next
        (rw (← sum) (FileToDevice-join fd fd_pn n rest ppn)))

round_step :
    (k pages_done fd fd_pn num_pages ppn d f q : ℕ) (s : Fio)
    → ltb pages_done num_pages ≡ true
    → add64 pages_done buf_pages ≡ d
    → add64 fd_pn (min (num_pages - pages_done) buf_pages) ≡ f
    → add64 ppn (min (num_pages - pages_done) buf_pages) ≡ q
    → file_to_device_from (suc k) pages_done fd fd_pn num_pages ppn s
      ≡ and_then (read_file fd (min (num_pages - pages_done) buf_pages) fd_pn s) (λ _ s'.
        and_then
          (dma_wrapper false (min (num_pages - pages_done) buf_pages) ppn s')
          (λ _. file_to_device_from k d fd f num_pages q))
unfolding file_to_device_from
round_step k pages_done fd fd_pn num_pages ppn d f q s more e1 e2 e3 =
    rw (more, ← e1, ← e2, ← e3) refl

file_to_device_from-Moved :
    (before : Outset) (k pages_done fd fd_pn num_pages ppn : ℕ) (s : Fio)
    → IsReady before s
    → num_pages ≤ pages_done + k
    → pages_done ≤ num_pages + 512
    → fd_pn + (num_pages - pages_done) < 2 ^ 52
    → ppn + (num_pages - pages_done) ≤ 2 ^ 24
    → s.pages_xfered + (num_pages - pages_done) < 2 ^ 64
    → num_pages < 2 ^ 63
    → fd_pn + (num_pages - pages_done) ≤ before.pages fd
    → Moved before s
        (num_pages - pages_done)
        (FileToDevice fd fd_pn (num_pages - pages_done) ppn)
        (file_to_device_from k pages_done fd fd_pn num_pages ppn s)
unfolding file_to_device_from
file_to_device_from-Moved before zero pages_done fd fd_pn num_pages ppn s h enough near hf hp fits
      small within =
    let stop : ltb pages_done num_pages ≡ false = ground arith in
    rw stop (done-Moved before fd fd_pn ppn (num_pages - pages_done) s h (omega arith))
file_to_device_from-Moved before (suc k) pages_done fd fd_pn num_pages ppn s h enough near hf hp
      fits small within =
    elim (Bool-cases (ltb pages_done num_pages)) [
      | inl more ↦
          let n : ℕ = min (num_pages - pages_done) buf_pages in
          let rest : ℕ = num_pages - (pages_done + 512) in
          let some_left : pages_done < num_pages = ground arith in
          let sum : n + rest ≡ num_pages - pages_done = omega arith in
          let e1 : add64 pages_done 512 ≡ pages_done + 512 = omega arith in
          let e2 : add64 fd_pn n ≡ fd_pn + n = omega arith in
          let e3 : add64 ppn n ≡ ppn + n = omega arith in
          rw
            (round_step k pages_done fd fd_pn num_pages ppn (pages_done + 512) (fd_pn + n) (ppn + n)
              s more e1 e2 e3)
            (round-Moved before fd fd_pn n rest (num_pages - pages_done) ppn s
              (file_to_device_from k (pages_done + 512) fd (fd_pn + n) num_pages (ppn + n)) h sum
              (omega arith) (omega arith) (omega arith) (omega arith) (omega arith) (omega arith)
              (λ s' h' e.
                file_to_device_from-Moved before k (pages_done + 512) fd (fd_pn + n) num_pages
                  (ppn + n) s' h' (omega arith) (omega arith) (omega arith) (omega arith)
                  (omega arith) small (omega arith)))
      | inr stop ↦
          rw stop (done-Moved before fd fd_pn ppn (num_pages - pages_done) s h (ground arith))
    ]

-- With a device and files that serve as documented, the counts of pages in step, no page number or
-- count out of range and the pages within the file, the transfer of any number of pages from a file to
-- the device returns, when the engine's count shows it performed.
-- Then the device's pages are the file's, one by one; its other pages and all files are as before,
-- and the counts are in step again.
pub file_to_device-Moved :
    (before : Outset) (fd fd_pn num_pages ppn : ℕ) (s : Fio)
    → IsReady before s
    → fd_pn + num_pages < 2 ^ 52
    → ppn + num_pages ≤ 2 ^ 24
    → s.pages_xfered + num_pages < 2 ^ 64
    → fd_pn + num_pages ≤ before.pages fd
    → Moved before s num_pages
        (FileToDevice fd fd_pn num_pages ppn)
        (file_to_device fd fd_pn num_pages ppn s)
unfolding file_to_device
file_to_device-Moved before fd fd_pn num_pages ppn s h hf hp fits within =
    let e : num_pages - 0 ≡ num_pages = omega arith in
    subst
      (λ n.
        Moved before s n (FileToDevice fd fd_pn n ppn)
          (file_to_device_from num_pages 0 fd fd_pn num_pages ppn s))
      e
      (file_to_device_from-Moved before num_pages 0 fd fd_pn num_pages ppn s h (omega arith)
        (omega arith) (omega arith) (omega arith) (omega arith) (omega arith) (omega arith))
