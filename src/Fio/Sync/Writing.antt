-- ===== src/Fio/Sync/Writing.antt =====
-- How `msync` of sw/daemon/aos_fio.hpp puts transfers together: what a page adds to the queued one.
use amorphos_fsrf.Common.{
  ℕ, ◌+◌, ◌^◌, ◌≤◌, ◌<◌, ◌≡◌, refl, ◌∙◌, ap, Bool-cases, inl, inr, true, false, ◌&&◌, Option, none,
  some, arith, add64, if◌then◌else◌,
}
use amorphos_fsrf.Host.{Trace}
use amorphos_fsrf.Host.Memory.{Outset, Page, Memory, replay}
use amorphos_fsrf.Fio.{Fio, Vme, ok, Cmd, and_then, pure}
use amorphos_fsrf.Fio.Ready.{IsReady, with_trace}
use amorphos_fsrf.Fio.Saves.{device_to_file-Moved}
use amorphos_fsrf.Fio.Sync.{Io, new_io, breaks, write_back}
use amorphos_fsrf.Fio.Sync.Reference.{
  Files, put_page, save_page, is_dirty, queue_done, DeviceToFile-io_done, new_io_done,
  longer_io_done, fits_next,
}

abbrev pub pending : Option Io → ℕ
pending none = 0
pending (some io) = io.np

-- What a queued transfer is: within reach of a command and of its file, and of pages from `low` on.
abbrev pub IsQueued : Outset → ℕ → Option Io → Type 0
IsQueued before low none = Unit {0}
IsQueued before low (some io) =
    (1 ≤ io.np)
    × (io.np ≤ 512)
    × (io.ppn < 2 ^ 24)
    × (io.po < 2 ^ 52)
    × (io.po + io.np ≤ before.pages io.fd)
    × (low ≤ io.ppn)

-- What a round does with the queue.
abbrev pub write_dirty : Vme → Option Io → Cmd (Option Io)
write_dirty e q = if e.present && e.writable then write_back e q else pure q

-- It returns a queue, with `moved` pages moved; once this queue is made, the files are as if the page
-- had been saved when the old one was made.
pub record Written (before : Outset) (low : ℕ) (e : Vme) (q : Option Io) (s : Fio) : Type 0 where
  pub trace : Trace
  pub moved : ℕ
  pub queued : Option Io
  pub returns : write_dirty e q s ≡ ok queued (with_trace s trace (s.pages_xfered + moved))
  pub count : moved + pending queued ≡ pending q + (if is_dirty (some e) then 1 else 0)
  pub ranges : IsQueued before low queued
  pub device :
      (m : Memory) → (replay before trace m).device ≡ (replay before s.world.trace m).device
  pub files :
      (m : Memory)
      → queue_done queued (replay before s.world.trace m).device (replay before trace m).file
        ≡ save_page (some e) (replay before s.world.trace m).device (
            queue_done q
              (replay before s.world.trace m).device
              (replay before s.world.trace m).file)
  pub ready : IsReady before (with_trace s trace (s.pages_xfered + moved))

-- The state with nothing moved.
pub still-IsReady :
    (before : Outset) (s : Fio)
    → IsReady before s
    → IsReady before (with_trace s s.world.trace (s.pages_xfered + 0))
still-IsReady before s h = record {
  healthy = h.healthy;
  patient = h.patient;
  app = h.app;
  buf = h.buf;
  channel = h.channel;
  settled = omega (arith, h.settled);
  idle = h.idle;
}

module _ (before : Outset) (low : ℕ) (e : Vme) (s : Fio) (h : IsReady before s) where
  -- The queue changes, and nothing is made.
  queued-Written :
      (q q' : Option Io)
      → write_dirty e q s ≡ ok q' s
      → pending q' ≡ pending q + (if is_dirty (some e) then 1 else 0)
      → IsQueued before low q'
      → ((device : ℕ → Page) (files : Files)
          → queue_done q' device files ≡ save_page (some e) device (queue_done q device files))
      → Written before low e q s
  queued-Written q q' ran count ranges kept =
      let same : s.pages_xfered ≡ s.pages_xfered + 0 = omega arith in
      record {
        trace = s.world.trace;
        moved = 0;
        queued = q';
        returns = ran ∙ ap (λ x. ok q' (with_trace s s.world.trace x)) same;
        count = omega (arith, count);
        ranges = ranges;
        device = λ m. refl;
        files =
            λ m. kept (replay before s.world.trace m).device (replay before s.world.trace m).file;
        ready = still-IsReady before s h;
      }

  clean-Written :
      (q : Option Io)
      → IsQueued before low q
      → (e.present && e.writable) ≡ false
      → Written before low e q s
  unfolding save_page is_dirty
  clean-Written q ranges clean =
      queued-Written q q (rw clean refl) (ground (arith, clean)) ranges
        (λ device files. rw clean refl)

  module _ (dirty : (e.present && e.writable) ≡ true) (room : e.ppn < 2 ^ 24)
      (place : e.fd_pn < 2 ^ 52) (held : e.fd_pn < before.pages e.fd) (above : low ≤ e.ppn) where
    opened-Written : Written before low e none s
    unfolding save_page is_dirty write_back queue_done
    opened-Written =
        queued-Written none (some (new_io e)) (rw dirty refl) (ground (arith, dirty))
          (omega arith, omega arith, room, place, omega (arith, held), above)
          (λ device files. rw dirty (new_io_done e device files))

    longer-Written :
        (io : Io)
        → IsQueued before low (some io)
        → breaks io e ≡ false
        → Written before low e (some io) s
    unfolding save_page is_dirty write_back queue_done
    longer-Written io (one, most, reach, near, inside, high) fits =
        let short : io.np < 512 = ground (arith, fits, most) in
        let next : add64 io.np 1 ≡ io.np + 1 = omega (arith, short) in
        let (same_fd, same_ppn, same_place) = fits_next io e (omega arith) (omega arith) fits in
        let ends : io.po + add64 io.np 1 ≤ before.pages io.fd =
          rw (next, same_fd) (omega (arith, held, same_place)) in
        queued-Written (some io) (some (record io { np = add64 io.np 1 })) (rw dirty (rw fits refl))
          (rw next (ground (arith, dirty)))
          (omega (arith, next), omega (arith, next, short), reach, near, ends, high)
          (λ device files.
            rw dirty (longer_io_done io e device files (omega arith) (omega arith) short fits))

    broken-Written :
        (io : Io)
        → IsQueued before low (some io)
        → s.pages_xfered + io.np < 2 ^ 64
        → breaks io e ≡ true
        → Written before low e (some io) s
    unfolding save_page is_dirty write_back queue_done
    broken-Written io (one, most, reach, near, inside, high) fits apart =
        let r =
          device_to_file-Moved before io.ppn io.np io.fd io.po s h one most near reach fits
            inside in
        record {
          trace = r.trace;
          moved = io.np;
          queued = some (new_io e);
          returns =
              rw dirty
                (rw apart (ap (λ run. and_then run (λ _. pure (some (new_io e)))) r.returns));
          count = ground (arith, dirty);
          ranges = (omega arith, omega arith, room, place, omega (arith, held), above);
          device = λ m. (r.memory m).0;
          files = λ m.
              new_io_done e (replay before s.world.trace m).device (replay before r.trace m).file
              ∙ ap (λ f. put_page f e.fd e.fd_pn ((replay before s.world.trace m).device e.ppn))
                  (DeviceToFile-io_done io (replay before s.world.trace m) (replay before r.trace m)
                    (r.memory m))
              ∙ rw dirty refl;
          ready = r.ready;
        }

  pub write_dirty-Written :
      (q : Option Io)
      → IsQueued before low q
      → e.ppn < 2 ^ 24
      → e.fd_pn < 2 ^ 52
      → e.fd_pn < before.pages e.fd
      → ((e.present && e.writable) ≡ true → low ≤ e.ppn)
      → s.pages_xfered + pending q < 2 ^ 64
      → Written before low e q s
  write_dirty-Written q ranges room place held above fits =
      elim (Bool-cases (e.present && e.writable)) [
        | inr clean ↦ clean-Written q ranges clean
        | inl dirty ↦ dirty-Written dirty q ranges fits
      ]
    where
      dirty-Written :
          (e.present && e.writable) ≡ true
          → (q : Option Io) → IsQueued before low q
          → s.pages_xfered + pending q < 2 ^ 64
          → Written before low e q s
      dirty-Written dirty none ranges fits = opened-Written dirty room place held (above dirty)
      dirty-Written dirty (some io) ranges fits = elim (Bool-cases (breaks io e)) [
        | inr joins ↦ longer-Written dirty room place held (above dirty) io ranges joins
        | inl apart ↦ broken-Written dirty room place held (above dirty) io ranges fits apart
      ]
