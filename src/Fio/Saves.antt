-- ===== src/Fio/Saves.antt =====
-- `device_to_file` of sw/daemon/aos_fio.hpp: the pages of the file afterwards.
use mathlib.Core.Path.{subst}
use mathlib.Core.Bool.{true≢false}
use amorphos_fsrf.Common.{
  ◌≢◌, ne→==, ℕ, ◌+◌, ◌^◌, ◌≤◌, ◌<◌, ◌≡◌, refl, Bool, true, false, arith, leb, sym, ap, ◌∙◌,
  ==_refl,
}
use amorphos_fsrf.Host.Memory.{Outset, Memory, to_file, paste}
use amorphos_fsrf.Fio.{assert, Cmd, Fio, and_then}
use amorphos_fsrf.Fio.Transfer.{dma_wrapper, write_file, device_to_file}
use amorphos_fsrf.Fio.Ready.{IsReady}
use amorphos_fsrf.Fio.Moves.{Moved, dma_wrapper-Moved, moved, Does, Moved-and_then}
use amorphos_fsrf.Fio.Buffer.{paste-load, write_file-Moved}

-- `n` device pages stand in the file; the device and the other files are as before.
abbrev pub DeviceToFile : ℕ → ℕ → ℕ → ℕ → Memory → Memory → Type 0
DeviceToFile ppn n fd fd_pn m m' =
    (m'.device ≡ m.device)
    × ((p : ℕ) → m'.file fd p ≡ paste (m.file fd) fd_pn n (λ k. m.device (ppn + k)) p)
    × ((fd' p : ℕ) → fd' ≢ fd → m'.file fd' p ≡ m.file fd' p)

DeviceToFile-chunk :
    (ppn n fd fd_pn : ℕ) (a b c : Memory)
    → Does (moved true ppn n) a b
    → Does (to_file fd fd_pn n) b c
    → DeviceToFile ppn n fd fd_pn a c
DeviceToFile-chunk ppn n fd fd_pn a b c e e' = (
  ap (λ m. m.device) e' ∙ ap (λ m. m.device) e,
  λ p.
      ap (λ m. m.file fd p) e'
      ∙ same_file b p
      ∙ ap (λ m. paste (m.file fd) fd_pn n m.buffer p) e
      ∙ paste-load (a.file fd) a.device a.buffer fd_pn n ppn p,
  λ fd' p other. ap (λ m. m.file fd' p) e' ∙ other_file b fd' p other ∙ ap (λ m. m.file fd' p) e,
)
  where
    same_file :
        (m : Memory) (p : ℕ)
        → (to_file fd fd_pn n m).file fd p ≡ paste (m.file fd) fd_pn n m.buffer p
    same_file m p = rw (==_refl fd) refl

    other_file :
        (m : Memory) (fd' p : ℕ) → fd' ≢ fd → (to_file fd fd_pn n m).file fd' p ≡ m.file fd' p
    other_file m fd' p other = rw (ne→== fd' fd other) refl

assert-true :
    (b : Bool) (s : Fio) (c : Cmd (Unit {0})) → b ≡ true → and_then (assert b s) (λ _. c) ≡ c s
assert-true true s c e = refl
assert-true false s c e = absurd (true≢false (sym e))

-- With a device and files that serve as documented, the counts of pages in step and no page number
-- or count out of range, the transfer of 1 to 512 pages from the device to a file returns. Then the
-- file's pages are the device's, one by one; its other pages, the other files and the device are as
-- before, and the counts are in step again.
pub device_to_file-Moved :
    (before : Outset) (ppn num_pages fd fd_pn : ℕ) (s : Fio)
    → IsReady before s
    → 1 ≤ num_pages
    → num_pages ≤ 512
    → fd_pn < 2 ^ 52
    → ppn < 2 ^ 24
    → s.pages_xfered + num_pages < 2 ^ 64
    → fd_pn + num_pages ≤ before.pages fd
    → Moved before s num_pages
        (DeviceToFile ppn num_pages fd fd_pn)
        (device_to_file ppn num_pages fd fd_pn s)
unfolding device_to_file
device_to_file-Moved before ppn num_pages fd fd_pn s h one most hf hp fits within =
    let small : leb num_pages 512 ≡ true = ground arith in
    subst (Moved before s num_pages (DeviceToFile ppn num_pages fd fd_pn))
      (sym (
        assert-true (leb num_pages 512) s
          (λ s'. and_then (dma_wrapper true num_pages ppn s') (λ _. write_file fd num_pages fd_pn))
          small))
      (Moved-and_then before num_pages 0 num_pages s (Does (moved true ppn num_pages))
        (Does (to_file fd fd_pn num_pages)) (DeviceToFile ppn num_pages fd fd_pn)
        (dma_wrapper true num_pages ppn s) (write_file fd num_pages fd_pn) (omega arith)
        (dma_wrapper-Moved before true num_pages ppn s h one most hp fits)
        (λ s' h' e. write_file-Moved before fd num_pages fd_pn s' h' (omega arith) hf within)
        (DeviceToFile-chunk ppn num_pages fd fd_pn))
