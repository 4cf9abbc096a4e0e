-- ===== src/Fio/Control.antt =====
-- Construction, modes, and the life of the fault thread of sw/daemon/aos_fio.hpp.
pub mod Files
pub mod Modes
use amorphos_fsrf.Common.{
  bit_and, ◌<<<◌, ℕ, zero, suc, ◌+◌, ◌-◌, ◌*◌, ◌/◌, ◌^◌, ◌%◌, Bool, true, false, ◌&&◌, ◌||◌, not,
  Option, none, some, List, [], ◌∷◌, add64, mul64, sub64, ltb, leb, ◌==◌, if◌then◌else◌, u64_max,
  minus_one,
}
use amorphos_fsrf.Host.{World, log, file_opened, file_closed}
use amorphos_fsrf.Fpga.{read_sys_reg}
use amorphos_fsrf.Tlb
use amorphos_fsrf.Tlb.{Tlb}
use amorphos_fsrf.Fio.{
  Fio, Run, ok, exited, undefined, thrown, Cmd, get, modify, pure, assert, ◌>>=◌, ◌>>◌, base_addrs,
  max_apps, fd_find, fd_erase, fd_insert,
}
use amorphos_fsrf.Fio.Alloc.{ring_start}
use amorphos_fsrf.Fio.Fault.{sys_write}
use amorphos_fsrf.Fio.Transfer.{dma_wrapper}

-- `pagemap` gives the word that the kernel keeps for a page of the process; pages have 4096 bytes.
unfoldable pub virt_to_phys : (ℕ → ℕ) → ℕ → ℕ
virt_to_phys pagemap virt_addr = bit_and (pagemap (virt_addr / 4096)) 0x7FFFFFFFFFFFFF <<< 12

-- Whether the 512 pages of the buffer are consecutive in physical memory.
unfoldable pub contiguous_from : ℕ → (ℕ → ℕ) → ℕ → ℕ → Bool
unfolding virt_to_phys
contiguous_from zero pagemap xfer_buf i = true
contiguous_from (suc n) pagemap xfer_buf i =
    let rest = contiguous_from n pagemap xfer_buf (i + 1) in
    if virt_to_phys pagemap (xfer_buf + 4096 * i) == virt_to_phys pagemap xfer_buf + 4096 * i
    then rest
    else false

-- The end of an application's device pages in the default mode.
abbrev pub full_bound : ℕ → ℕ
full_bound base = base + 16 * 2 ^ 20 / max_apps

-- The constructor. Members that it leaves unset are set to 0 here; `start` sets them before any
-- method reads them. `xfer_buf` is what the system's `mmap` returned,
-- -1 for a failure.
unfoldable pub construct : (ℕ → ℕ) → ℕ → ℕ → Tlb → World → Run (Unit {0})
unfolding virt_to_phys contiguous_from
construct pagemap xfer_buf app_id tlb w = elim (base_addrs app_id) [
  | none ↦ undefined
  | some base ↦
      if not (xfer_buf == u64_max) && contiguous_from 512 pagemap xfer_buf 0
      then ok tt (record {
        world = w;
        app_id = app_id;
        standard = true;
        coyote = false;
        coyote_huge = false;
        coyote_prefetch = false;
        physical = false;
        aos_seg = false;
        prefetch_size = 2 ^ 9;
        next_fd = 0;
        fd_map = [];
        phys_base = base;
        phys_bound = full_bound base;
        phys_next = 0;
        phys_overflow = false;
        ppo_to_vpn = λ _. 0;
        ppo_size = 0;
        next_vpn = 0;
        vm_maps = λ _. none;
        tlb = record tlb { app_id = app_id };
        huge_page = λ _. false;
        handler_running = false;
        joinable = false;
        phys_buf = virt_to_phys pagemap xfer_buf;
        pages_xfered = 0;
      })
      else exited
]

-- The four flags that select a mode.
abbrev pub select_mode : Bool → Bool → Bool → Bool → Fio → Fio
select_mode standard coyote physical aos_seg s = record s {
  standard = standard;
  coyote = coyote;
  physical = physical;
  aos_seg = aos_seg;
}

-- The registers that follow from the mode; `aos_str` is a local of `set_mode`.
unfoldable pub program_mode : Bool → Cmd (Unit {0})
program_mode aos_str s =
    let striping = s.coyote && not s.coyote_prefetch || s.aos_seg && aos_str in
    (sys_write s.app_id 0x10 (if s.physical then 0x0 else 0x1)
        >> sys_write s.app_id 0x18 (if s.coyote || s.aos_seg then 0x0 else 0x1)
        >> sys_write s.app_id 0x20 (if s.aos_seg then 0x0 else 0x1)
        >> sys_write (s.app_id + 4) 0x10 (if striping then 0x1 else 0x0)
        >> sys_write 8 0x18 (if striping then 0x1 else 0x0))
      s

unfoldable pub mode_bound : ℕ → ℕ → ℕ
mode_bound base data_ =
    if data_ == 1
    then base + (2048 - 128) * 2 ^ 8
    else if data_ == 2
    then base + 1024 * 2 ^ 8
    else full_bound base

unfoldable pub set_mode : ℕ → ℕ → Cmd (Unit {0})
unfolding program_mode mode_bound
set_mode mode data_ =
    if mode == 0
    then (modify (select_mode true false false false) >> program_mode true)
    else if mode == 1
    then (modify (select_mode false true false false)
        >> modify (λ s. record s {
          coyote_huge = data_ == 1 || data_ == 2;
          coyote_prefetch = data_ == 2 || data_ == 3;
        })
        >> program_mode true)
    else if mode == 2
    then (modify (select_mode false false true false) >> program_mode true)
    else if mode == 3
    then (modify (λ s. record s { prefetch_size = data_ }) >> assert (leb data_ 512))
    else if mode == 4
    then (modify (select_mode false false false true) >> program_mode (not (data_ == 1)))
    else if mode == 5
    then modify (λ s. record s { phys_bound = mode_bound s.phys_base data_ })
    else pure tt

-- The TLB entries of the device memory are zeroed from the buffer, 512 pages a command.
unfoldable pub zero_from : ℕ → ℕ → Cmd (Unit {0})
unfolding dma_wrapper
zero_from zero i = pure tt
zero_from (suc n) i = do s ← get; dma_wrapper false 512 (s.phys_base + i * 512); zero_from n (i + 1)

-- The members that `start` resets.
abbrev pub reset : Fio → Fio
reset s = record s {
  next_fd = 3;
  next_vpn = if s.physical then s.phys_base else 0;
  vm_maps = λ _. none;
  huge_page = λ _. false;
  phys_overflow = false;
  ppo_to_vpn = λ _. u64_max;
  ppo_size = sub64 s.phys_bound s.phys_base;
  phys_next = ring_start s;
}

unfoldable pub read_count : Cmd (Unit {0})
read_count s =
    let r = read_sys_reg 9 (mul64 s.app_id 8) s.pages_xfered s.world in
    ok tt (record s { world = r.world; pages_xfered = r.value })

-- A thread object that is a thread already cannot be assigned to: the program terminates.
unfoldable pub start : Cmd (Unit {0})
unfolding read_count zero_from
start = do
  modify reset
  read_count
  s ← get
  if s.standard then zero_from 64 0 else pure tt
  if s.coyote || s.aos_seg
      then (λ s.
          let after = Tlb.init (s.tlb, s.world) in
          ok tt (record s { tlb = after.0; world = after.1 }))
      else pure tt
  modify (λ s. record s { handler_running = true })
  λ s. if s.joinable then thrown else ok tt (record s { joinable = true })

-- `join` throws where the object is no thread.
unfoldable pub stop : Cmd (Unit {0})
stop s =
    if s.joinable then ok tt (record s { handler_running = false; joinable = false }) else thrown

abbrev pub is_empty : List (ℕ × ℕ) → Bool
is_empty [] = true
is_empty (_ ∷ _) = false

-- `fd_map[next_fd] = true_fd; return next_fd++`
abbrev pub insert_fd : ℕ → Cmd ℕ
insert_fd true_fd s =
    ok s.next_fd (record s {
      fd_map = fd_insert s.next_fd true_fd s.fd_map;
      next_fd = (s.next_fd + 1) % 2 ^ 32;
    })

-- The result is the descriptor that the application gets, or -1.
unfoldable pub file_open : List ℕ → Cmd ℕ
unfolding start
file_open path s =
    let w = s.world in
    let true_fd = w.os.open_path w.trace path in
    let opened : Fio = record s { world = log (file_opened path) w } in
    if true_fd == minus_one
    then ok minus_one opened
    else ((if is_empty s.fd_map then start else pure tt) >> insert_fd true_fd) opened

-- `fd_map[fd]`: 0 where there is no such descriptor.
abbrev pub fd_or_zero : ℕ → Fio → ℕ
fd_or_zero fd s = elim (fd_find fd s.fd_map) [ none ↦ 0 | some v ↦ v ]

unfoldable pub file_close : ℕ → Cmd ℕ
unfolding stop
file_close fd s =
    let true_fd = fd_or_zero fd s in
    let w = s.world in
    let rc = if true_fd == 0 then minus_one else w.os.close_fd w.trace true_fd in
    let closed : World = if true_fd == 0 then w else log (file_closed true_fd) w in
    let s' : Fio = record s { world = closed; fd_map = fd_erase fd s.fd_map } in
    ((if is_empty s'.fd_map then stop else pure tt) >> pure rc) s'
