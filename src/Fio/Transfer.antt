-- ===== src/Fio/Transfer.antt =====
-- Data movement of sw/daemon/aos_fio.hpp: the DMA commands and the two directions between a file
-- and the device. The constants `file_io`, `send_data` and `pcim` are true there, so the branches
-- for the other values are left out.
use Prim.Native.Nat.{min}
use amorphos_fsrf.Common.{
  ℕ, zero, suc, ◌-◌, Bool, true, false, bit_or, to_num, add64, sub64, mul64, ltb, leb, ◌==◌,
  if◌then◌else◌, ◌<<<◌, ◌>>>◌,
}
use amorphos_fsrf.Host.{log, file_read, file_written}
use amorphos_fsrf.Fpga.{read_sys_reg, write_sys_reg}
use amorphos_fsrf.Fio.{Fio, ok, exited, running, Cmd, get, modify, assert, pure, ◌>>=◌, ◌>>◌}

-- The pages that fit the transfer buffer.
abbrev pub buf_pages : ℕ
buf_pages = 512

-- The command word: buffer page, device page, count less one, channel, direction.
unfoldable pub dma_command : ℕ → ℕ → ℕ → ℕ → Bool → ℕ
dma_command phys_buf ppn num_pages app_id from_device =
    bit_or
      (bit_or (bit_or (bit_or (phys_buf >>> 12) (ppn <<< 28)) (sub64 num_pages 1 <<< 52))
        (app_id <<< 61))
      (to_num from_device <<< 63)

-- The loop that polls the count of pages transferred.
unfoldable pub poll : ℕ → ℕ → Cmd (Unit {0})
poll zero pages_done s = running
poll (suc n) pages_done s =
    let r = read_sys_reg 9 (mul64 s.app_id 8) s.pages_xfered s.world in
    let s' : Fio = record s { world = r.world; pages_xfered = r.value } in
    let again = poll n pages_done s' in
    if ltb pages_done r.value then exited else if ltb r.value pages_done then again else ok tt s'

unfoldable pub send_command : Bool → ℕ → ℕ → Fio → Fio
unfolding dma_command
send_command from_device num_pages ppn s = record s {
  world =
      (write_sys_reg 9 0 (dma_command s.phys_buf ppn num_pages s.app_id from_device) s.world).world;
}

unfoldable pub dma_wrapper : Bool → ℕ → ℕ → Cmd (Unit {0})
unfolding send_command poll
dma_wrapper from_device num_pages ppn = do
  assert (leb num_pages 512)
  modify (send_command from_device num_pages ppn)
  s ← get
  poll s.world.patience (add64 s.pages_xfered num_pages)

-- `pread` into the buffer and `pwrite` from it, which must move all bytes.
unfoldable pub read_file : ℕ → ℕ → ℕ → Cmd (Unit {0})
read_file fd np fd_pn s =
    let w = s.world in
    if w.os.pread w.trace fd (np <<< 12) (fd_pn <<< 12) == np <<< 12
    then ok tt (record s { world = log (file_read fd (np <<< 12) (fd_pn <<< 12)) w })
    else exited

unfoldable pub write_file : ℕ → ℕ → ℕ → Cmd (Unit {0})
write_file fd np fd_pn s =
    let w = s.world in
    if w.os.pwrite w.trace fd (np <<< 12) (fd_pn <<< 12) == np <<< 12
    then ok tt (record s { world = log (file_written fd (np <<< 12) (fd_pn <<< 12)) w })
    else exited

-- The loop over chunks of the buffer's size, from `pages_done` on.
unfoldable pub file_to_device_from : ℕ → ℕ → ℕ → ℕ → ℕ → ℕ → Cmd (Unit {0})
unfolding read_file dma_wrapper
file_to_device_from zero pages_done fd fd_pn num_pages ppn =
    λ s. if ltb pages_done num_pages then running else ok tt s
file_to_device_from (suc n) pages_done fd fd_pn num_pages ppn =
    let np = min (num_pages - pages_done) buf_pages in
    let later =
      file_to_device_from n (add64 pages_done buf_pages) fd (add64 fd_pn np) num_pages
        (add64 ppn np) in
    if ltb pages_done num_pages
    then (do read_file fd np fd_pn; dma_wrapper false np ppn; later)
    else pure tt

-- Each round but the last moves 512 pages, so there are no more rounds than pages.
unfoldable pub file_to_device : ℕ → ℕ → ℕ → ℕ → Cmd (Unit {0})
unfolding file_to_device_from
file_to_device fd fd_pn num_pages ppn = file_to_device_from num_pages 0 fd fd_pn num_pages ppn

unfoldable pub device_to_file : ℕ → ℕ → ℕ → ℕ → Cmd (Unit {0})
unfolding dma_wrapper write_file
device_to_file ppn num_pages fd fd_pn = do
  assert (leb num_pages 512)
  dma_wrapper true num_pages ppn
  write_file fd num_pages fd_pn
