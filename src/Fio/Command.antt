-- ===== src/Fio/Command.antt =====
-- The fields of a DMA command word (`dma_wrapper` in sw/daemon/aos_fio.hpp).
use amorphos_fsrf.Common.{
  ℕ, ◌+◌, ◌-◌, ◌*◌, ◌/◌, ◌^◌, ◌≤◌, ◌<◌, ◌≡◌, Bool, true, false, arith, to_num, sub64,
}
use amorphos_fsrf.Common.Bits.{or_shift_high}
use amorphos_fsrf.Host.Memory.{cmd_ppn, cmd_pages, cmd_channel, cmd_reads}
use amorphos_fsrf.Fio.Transfer.{dma_command}

to_num-le : (b : Bool) → to_num b ≤ 1
to_num-le true = omega arith
to_num-le false = omega arith

command_sum :
    (buf ppn n app : ℕ) (b : Bool)
    → buf < 2 ^ 40
    → ppn < 2 ^ 24
    → 1 ≤ n
    → n ≤ 512
    → app < 4
    → dma_command buf ppn n app b
      ≡ to_num b * 2 ^ 63 + (app * 2 ^ 61 + ((n - 1) * 2 ^ 52 + (ppn * 2 ^ 28 + buf / 2 ^ 12)))
unfolding dma_command
command_sum buf ppn n app b hb hp h1 h2 ha =
    let d = to_num-le b in
    let less_one : sub64 n 1 ≡ n - 1 = omega arith in
    rw
      (
        less_one,
        or_shift_high 28 ppn (buf / 2 ^ 12) (omega arith) (omega arith),
        or_shift_high 52 (n - 1) (ppn * 2 ^ 28 + buf / 2 ^ 12) (omega arith) (omega arith),
        or_shift_high 61 app ((n - 1) * 2 ^ 52 + (ppn * 2 ^ 28 + buf / 2 ^ 12)) (omega arith)
            (omega arith),
      )
      (or_shift_high 63 (to_num b)
        (app * 2 ^ 61 + ((n - 1) * 2 ^ 52 + (ppn * 2 ^ 28 + buf / 2 ^ 12))) (omega arith)
        (omega arith))

-- A command word for a buffer below 2^40, a device page below 2^24, 1 to 512 pages and one of the
-- four channels carries them in fields that the transfer engine reads back: the device page, the
-- number of pages, the channel and the direction.
pub dma_command_fields :
    (buf ppn n app : ℕ) (b : Bool)
    → buf < 2 ^ 40
    → ppn < 2 ^ 24
    → 1 ≤ n
    → n ≤ 512
    → app < 4
    → (cmd_ppn (dma_command buf ppn n app b) ≡ ppn)
      × (cmd_pages (dma_command buf ppn n app b) ≡ n)
      × (cmd_channel (dma_command buf ppn n app b) ≡ app)
      × (cmd_reads (dma_command buf ppn n app b) ≡ b)
dma_command_fields buf ppn n app true hb hp h1 h2 ha =
    let e = command_sum buf ppn n app true hb hp h1 h2 ha in
    (omega (arith, e), omega (arith, e), omega (arith, e), ground (arith, e))
dma_command_fields buf ppn n app false hb hp h1 h2 ha =
    let e = command_sum buf ppn n app false hb hp h1 h2 ha in
    (omega (arith, e), omega (arith, e), omega (arith, e), ground (arith, e))
