-- ===== src/Fio/Ready.antt =====
-- A device and files that serve the daemon as documented, and how a loop that polls the count of
-- pages in `dma_wrapper` of sw/daemon/aos_fio.hpp ends.
use amorphos_fsrf.Common.{
  ℕ, zero, suc, ◌+◌, ◌%◌, ◌^◌, ◌≤◌, ◌<◌, ◌≡◌, refl, true, false, arith, mul64, ltb, Bool-cases, inl,
  inr, ◌∷◌, sym, ap, ◌∙◌, if◌then◌else◌, ==_refl, ==_iff, ne→==, ◌==◌, [], ◌*◌,
}
use amorphos_fsrf.Host.{Pci, Os, World, Trace, log, peeked, sys_bar}
use amorphos_fsrf.Host.Memory.{
  Outset, Memory, replay, commanded, polls, count_reg, outstanding, perform, shows_done,
}
use amorphos_fsrf.Fpga.{bar_addr, read_sys_reg}
use amorphos_fsrf.Fpga.Address.{read_sys_reg_value, read_sys_reg_world, bar_addr_sum}
use amorphos_fsrf.Fio.{exited, Fio, Run, ok}
use amorphos_fsrf.Fio.Transfer.{poll}

-- What the daemon relies on: an access of a file within its pages moves all bytes; the engine's count
-- of an application's pages never runs ahead of the pages commanded, and has reached them after as many
-- reads in a row as the model polls for.
pub record IsHealthy (pci : Pci) (os : Os) (patience app : ℕ) (before : Outset) : Type 0 where
  pub reads :
      (t : Trace) (fd n off : ℕ) → off + n ≤ before.pages fd * 4096 → os.pread t fd n off ≡ n
  pub writes :
      (t : Trace) (fd n off : ℕ) → off + n ≤ before.pages fd * 4096 → os.pwrite t fd n off ≡ n
  pub count_le :
      (t : Trace) (old : ℕ)
      → pci.peek64 t sys_bar (count_reg app) old ≤ before.count + commanded t app
  pub count_eq :
      (t : Trace) (old : ℕ)
      → patience ≤ polls t app + 1
      → pci.peek64 t sys_bar (count_reg app) old ≡ before.count + commanded t app

pub record IsReady (before : Outset) (s : Fio) : Type 0 where
  pub healthy : IsHealthy s.world.pci s.world.os s.world.patience s.app_id before
  pub patient : 1 ≤ s.world.patience
  pub app : s.app_id < 4
  pub buf : s.phys_buf < 2 ^ 40
  pub channel : before.channel ≡ s.app_id
  pub settled : s.pages_xfered ≡ before.count + commanded s.world.trace s.app_id
  pub idle : outstanding before s.world.trace ≡ []

-- The state with more events and another count.
abbrev pub with_trace : Fio → Trace → ℕ → Fio
with_trace s t n = record s { world = record s.world { trace = t }; pages_xfered = n }

read_count_value :
    (app old : ℕ) (w : World)
    → app < 4
    → ((read_sys_reg 9 (mul64 app 8) old w).value
        ≡ w.pci.peek64 w.trace sys_bar (count_reg app) old)
      × ((read_sys_reg 9 (mul64 app 8) old w).world
          ≡ log
              (peeked sys_bar (count_reg app) (w.pci.peek64 w.trace sys_bar (count_reg app) old))
              w)
read_count_value app old w h =
    let e : bar_addr 9 (mul64 app 8) true ≡ count_reg app =
      bar_addr_sum 9 (mul64 app 8) (omega arith) (omega arith) ∙ omega arith in
    let z : mul64 app 8 % 8 ≡ 0 = omega arith in
    (
      read_sys_reg_value 9 (mul64 app 8) old w z ∙ ap (λ a. w.pci.peek64 w.trace sys_bar a old) e,
      read_sys_reg_world 9 (mul64 app 8) old w z
          ∙ ap (λ a. log (peeked sys_bar a (w.pci.peek64 w.trace sys_bar a old)) w) e,
    )

equal : (v done : ℕ) → ltb v done ≡ false → ltb done v ≡ false → v ≡ done
equal v done h h' = ground arith

-- How a loop of polls ends: with the count at the pages commanded, only reads of the count added to
-- the trace, and the commands performed.
pub record Polled (before : Outset) (s : Fio) (r : Run (Unit {0})) : Type 0 where
  pub trace : Trace
  pub returns : r ≡ ok tt (with_trace s trace (before.count + commanded s.world.trace s.app_id))
  pub same_commands : commanded trace s.app_id ≡ commanded s.world.trace s.app_id
  pub performed :
      (m : Memory)
      → replay before trace m
        ≡ perform (outstanding before s.world.trace) (replay before s.world.trace m)
  pub idle : outstanding before trace ≡ []

-- The trace after a read of the count.
abbrev watched : Fio → ℕ → Trace
watched s v = peeked sys_bar (count_reg s.app_id) v ∷ s.world.trace

module _ (before : Outset) where
  more_polls :
      (n v : ℕ) (s : Fio)
      → s.world.patience ≤ polls s.world.trace s.app_id + suc n
      → s.world.patience ≤ polls (watched s v) s.app_id + n
  unfolding polls
  more_polls n v s h = rw (==_refl (count_reg s.app_id)) (omega arith)

  commanded-watched :
      (s : Fio) (v : ℕ) → commanded (watched s v) s.app_id ≡ commanded s.world.trace s.app_id
  unfolding commanded
  commanded-watched s v = refl

  shows_done_value :
      (s : Fio) (v done : ℕ)
      → before.channel ≡ s.app_id
      → done ≡ before.count + commanded s.world.trace s.app_id
      → shows_done before (count_reg s.app_id) v s.world.trace ≡ (v == done)
  unfolding shows_done
  shows_done_value s v done same e =
      rw (e, shows_done) (rw (same) (rw (==_refl (count_reg s.app_id)) refl))

  -- A count that is behind leaves a round to go.
  again :
      (n done : ℕ) (s : Fio)
      → IsHealthy s.world.pci s.world.os s.world.patience s.app_id before
      → s.app_id < 4
      → s.world.patience ≤ polls s.world.trace s.app_id + suc n
      → done ≡ before.count + commanded s.world.trace s.app_id
      → ltb (s.world.pci.peek64 s.world.trace sys_bar (count_reg s.app_id) s.pages_xfered) done
        ≡ true
      → 1 ≤ n
  again zero done s h ha enough e more =
      let reached = h.count_eq s.world.trace s.pages_xfered enough in ground arith
  again (suc n) done s h ha enough e more = omega arith

  -- One more read of the count in front, which does not show the commands done.
  Polled-next :
      (s : Fio) (v : ℕ) (r : Run (Unit {0}))
      → shows_done before (count_reg s.app_id) v s.world.trace ≡ false
      → Polled before (with_trace s (watched s v) v) r
      → Polled before s r
  Polled-next s v r behind p =
      let same : outstanding before (watched s v) ≡ outstanding before s.world.trace =
        unfold outstanding in rw behind refl in
      let still : (m : Memory) → replay before (watched s v) m ≡ replay before s.world.trace m =
        λ m. unfold replay in rw behind refl in
      record {
        trace = p.trace;
        returns =
            p.returns
            ∙ ap (λ c. ok tt (with_trace s p.trace (before.count + c))) (commanded-watched s v);
        same_commands = p.same_commands ∙ commanded-watched s v;
        performed = λ m.
            p.performed m
            ∙ ap (λ c. perform c (replay before (watched s v) m)) same
            ∙ ap (perform (outstanding before s.world.trace)) (still m);
        idle = p.idle;
      }

  poll_step :
      (n done : ℕ) (s : Fio)
      → s.app_id < 4
      → poll (suc n) done s ≡ (
          let v : ℕ =
            s.world.pci.peek64 s.world.trace sys_bar (count_reg s.app_id) s.pages_xfered in
          let s' = with_trace s (watched s v) v in
          if ltb done v then exited else if ltb v done then poll n done s' else ok tt s')
  unfolding poll
  poll_step n done s h =
      let r = read_count_value s.app_id s.pages_xfered s.world h in rw (r.0, r.1) refl

  reached-Polled :
      (done v : ℕ) (s : Fio)
      → before.channel ≡ s.app_id
      → done ≡ before.count + commanded s.world.trace s.app_id
      → v ≡ done
      → Polled before s (ok tt (with_trace s (watched s v) v))
  reached-Polled done v s same e at =
      let shown : shows_done before (count_reg s.app_id) v s.world.trace ≡ true =
        shows_done_value s v done same e ∙ (==_iff v done).1 at in
      record {
        trace = watched s v;
        returns = ap (λ k. ok tt (with_trace s (watched s v) k)) (at ∙ e);
        same_commands = commanded-watched s v;
        performed = λ m. unfold replay in rw shown refl;
        idle = unfold outstanding in rw shown refl;
      }

  pub poll-Polled :
      (n done : ℕ) (s : Fio)
      → IsHealthy s.world.pci s.world.os s.world.patience s.app_id before
      → s.app_id < 4
      → before.channel ≡ s.app_id
      → 1 ≤ n
      → s.world.patience ≤ polls s.world.trace s.app_id + n
      → done ≡ before.count + commanded s.world.trace s.app_id
      → Polled before s (poll n done s)
  poll-Polled zero done s h ha same one enough e = absurd (omega arith)
  poll-Polled (suc n) done s h ha same one enough e =
      let v : ℕ = s.world.pci.peek64 s.world.trace sys_bar (count_reg s.app_id) s.pages_xfered in
      let s' : Fio = with_trace s (watched s v) v in
      let below : v ≤ done = rw e (h.count_le s.world.trace s.pages_xfered) in
      let not_above : ltb done v ≡ false = ground arith in
      rw (poll_step n done s ha, not_above)
        (elim (Bool-cases (ltb v done)) [
          | inl more ↦ rw more (
              Polled-next s v (poll n done s')
                (shows_done_value s v done same e ∙ ne→== v done (λ q. ground (arith, more, q)))
                (poll-Polled n done s' h ha same (again n done s h ha enough e more)
                  (more_polls n v s enough)
                  (e ∙ ap (λ c. before.count + c) (sym (commanded-watched s v)))))
          | inr reached ↦
              rw reached (reached-Polled done v s same e (equal v done reached not_above))
        ])
