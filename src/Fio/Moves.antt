-- ===== src/Fio/Moves.antt =====
-- What a DMA command, and the transfer of a whole range of pages, do to the device and the files
-- (`dma_wrapper`, `file_to_device` and `device_to_file` of sw/daemon/aos_fio.hpp).
use amorphos_fsrf.Common.{
  ℕ, ◌+◌, ◌^◌, ◌≤◌, ◌<◌, ◌≡◌, refl, Bool, true, arith, add64, leb, ◌∷◌, [], ap, ◌∙◌, if◌then◌else◌,
  ==_refl,
}
use amorphos_fsrf.Host.{Trace, log, poked, sys_bar}
use amorphos_fsrf.Host.Memory.{
  Outset, Memory, replay, apply, command, commanded, outstanding, perform, dma_reg, to_device,
  from_device,
}
use amorphos_fsrf.Fpga.{bar_addr}
use amorphos_fsrf.Fpga.Address.{bar_addr_sum, write_sys_reg_world}
use amorphos_fsrf.Fio.{Fio, Run, Cmd, ok, and_then}
use amorphos_fsrf.Fio.Transfer.{poll, dma_wrapper, dma_command, send_command}
use amorphos_fsrf.Fio.Command.{dma_command_fields}
use amorphos_fsrf.Fio.Ready.{IsReady, with_trace, Polled, poll-Polled}

-- The effect of a command of either direction.
abbrev pub moved : Bool → ℕ → ℕ → Memory → Memory
moved b ppn n m = if b then from_device ppn n m else to_device ppn n m

-- The run returns with `n` more pages moved and the memory changed by `effect`; the state is ready
-- again.
pub record Moved (before : Outset) (s : Fio) (n : ℕ) (effect : Memory → Memory → Type 0)
    (r : Run (Unit {0})) : Type 0 where
  pub trace : Trace
  pub returns : r ≡ ok tt (with_trace s trace (s.pages_xfered + n))
  pub memory : (m : Memory) → effect (replay before s.world.trace m) (replay before trace m)
  pub ready : IsReady before (with_trace s trace (s.pages_xfered + n))

abbrev pub Does : (Memory → Memory) → Memory → Memory → Type 0
Does f m m' = m' ≡ f m

-- One run after another.
pub Moved-and_then :
    (before : Outset) (n k total : ℕ) (s : Fio) (first second both : Memory → Memory → Type 0)
    (r : Run (Unit {0})) (c : Cmd (Unit {0}))
    → n + k ≡ total
    → Moved before s n first r
    → ((s' : Fio)
        → IsReady before s'
        → s'.pages_xfered ≡ s.pages_xfered + n
        → Moved before s' k second (c s'))
    → ((a b c : Memory) → first a b → second b c → both a c)
    → Moved before s total both (and_then r (λ _. c))
Moved-and_then before n k total s first second both r c e h later join =
    let s' : Fio = with_trace s h.trace (s.pages_xfered + n) in
    let next : Moved before s' k second (c s') = later s' h.ready refl in
    let count : s.pages_xfered + n + k ≡ s.pages_xfered + total = omega arith in
    record {
      trace = next.trace;
      returns =
          ap (λ q. and_then q (λ _. c)) h.returns
          ∙ next.returns
          ∙ ap (λ x. ok tt (with_trace s next.trace x)) count;
      memory = λ m.
          join (replay before s.world.trace m) (replay before h.trace m)
            (replay before next.trace m) (h.memory m) (next.memory m);
      ready = rw (← count) next.ready;
    }

abbrev sent : Bool → ℕ → ℕ → Fio → Trace
sent b n ppn s = poked sys_bar dma_reg (dma_command s.phys_buf ppn n s.app_id b) ∷ s.world.trace

module _ (before : Outset) (b : Bool) (n ppn : ℕ) (s : Fio) (h : IsReady before s) (one : 1 ≤ n)
    (most : n ≤ 512) (hp : ppn < 2 ^ 24) where
  send_trace : send_command b n ppn s ≡ with_trace s (sent b n ppn s) s.pages_xfered
  unfolding send_command
  send_trace =
      let v : ℕ = dma_command s.phys_buf ppn n s.app_id b in
      let e : bar_addr 9 0 true ≡ dma_reg =
        bar_addr_sum 9 0 (omega arith) (omega arith) ∙ omega arith in
      ap (λ w. record s { world = w })
        (write_sys_reg_world 9 0 v s.world (omega arith)
          ∙ ap (λ a. log (poked sys_bar a v) s.world) e)

  sent_commanded : commanded (sent b n ppn s) s.app_id ≡ n + commanded s.world.trace s.app_id
  unfolding commanded
  sent_commanded =
      let f = dma_command_fields s.phys_buf ppn n s.app_id b h.buf hp one most h.app in
      rw (f.1, f.2, ==_refl s.app_id) refl

  sent_outstanding :
      outstanding before (sent b n ppn s) ≡ dma_command s.phys_buf ppn n s.app_id b ∷ []
  unfolding outstanding
  sent_outstanding = ap (λ rest. dma_command s.phys_buf ppn n s.app_id b ∷ rest) h.idle

  sent_performed :
      (m : Memory)
      → perform (outstanding before (sent b n ppn s)) (replay before (sent b n ppn s) m)
        ≡ moved b ppn n (replay before s.world.trace m)
  unfolding replay apply perform command
  sent_performed m =
      let f = dma_command_fields s.phys_buf ppn n s.app_id b h.buf hp one most h.app in
      ap (λ c. perform c (replay before s.world.trace m)) sent_outstanding ∙ rw (f.0, f.1, f.3) refl

  abbrev after_send : Fio
  after_send = with_trace s (sent b n ppn s) s.pages_xfered

  dma_wrapper-poll :
      s.pages_xfered + n < 2 ^ 64
      → dma_wrapper b n ppn s ≡ poll s.world.patience (s.pages_xfered + n) after_send
  unfolding dma_wrapper amorphos_fsrf.Fpga.write_sys_reg
  dma_wrapper-poll fits =
      let small : leb n 512 ≡ true = ground arith in
      let sum : add64 s.pages_xfered n ≡ s.pages_xfered + n = omega arith in
      rw (small, send_trace, sum) refl

  Polled-Moved :
      (r : Run (Unit {0})) → Polled before after_send r → Moved before s n (Does (moved b ppn n)) r
  Polled-Moved r p =
      let count : before.count + commanded (sent b n ppn s) s.app_id ≡ s.pages_xfered + n =
        omega (arith, sent_commanded, h.settled) in
      record {
        trace = p.trace;
        returns = p.returns ∙ ap (λ c. ok tt (with_trace s p.trace c)) count;
        memory = λ m. p.performed m ∙ sent_performed m;
        ready = record {
          healthy = h.healthy;
          patient = h.patient;
          app = h.app;
          buf = h.buf;
          channel = h.channel;
          settled = omega (arith, count, p.same_commands);
          idle = p.idle;
        };
      }

  -- With a device and files that serve as documented, the counts of pages in step and no overflow,
  -- a command for 1 to 512 pages at a device page below 2^24 returns; the pages have then been
  -- copied between the buffer and the device in its direction, the count has grown by their number
  -- and the counts are in step again.
  pub dma_wrapper-Moved :
      s.pages_xfered + n < 2 ^ 64 → Moved before s n (Does (moved b ppn n)) (dma_wrapper b n ppn s)
  dma_wrapper-Moved fits = rw (dma_wrapper-poll fits) (
      Polled-Moved (poll s.world.patience (s.pages_xfered + n) after_send) (
        poll-Polled before s.world.patience (s.pages_xfered + n) after_send h.healthy h.app
          h.channel h.patient (omega arith) (omega (arith, sent_commanded, h.settled))))
