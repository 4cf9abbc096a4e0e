-- ===== src/Examples.antt =====
-- Concrete states on which the theorems are used.
pub mod Hardware
pub mod Pages
pub mod Requests
pub mod Accelerators
pub mod Generated
pub mod Runs
pub mod Scans
pub mod Mains
use amorphos_fsrf.Common.{
  ℕ, ◌+◌, ◌*◌, ◌^◌, true, false, none, some, [], leb, if◌then◌else◌, u64_max,
}
use amorphos_fsrf.Host.{Pci, Os, World}
use amorphos_fsrf.Host.Memory.{commanded, polls}
use amorphos_fsrf.Tlb.{Tlb}
use amorphos_fsrf.Fio.{Fio, Vme}

-- A device whose count of pages lags for two reads.
abbrev pub slow_pci : Pci
slow_pci = record {
  poke64 = λ t bar a v. 0;
  peek64_rc = λ t bar a. 0;
  peek64 = λ t bar a old. if leb 2 (polls t 0) then commanded t 0 else 0;
}

abbrev pub plain_os : Os
plain_os = record {
  pread = λ t fd n off. n;
  pwrite = λ t fd n off. n;
  open_path = λ t path. 7;
  close_fd = λ t fd. 0;
}

abbrev pub new_world : World
new_world = record { pci = slow_pci; os = plain_os; patience = 3; trace = [] }

abbrev pub free_tlb : Tlb
free_tlb = record {
  app_id = 0;
  vpns_ = λ huge k. 0;
  ages_ = λ huge k. 0;
  valids_ = λ huge k. false;
}

-- An `aos_fio` with no file open, in the mode of segments.
abbrev pub idle_fio : Fio
idle_fio = record {
  world = new_world;
  app_id = 0;
  standard = false;
  coyote = false;
  coyote_huge = false;
  coyote_prefetch = false;
  physical = false;
  aos_seg = true;
  prefetch_size = 512;
  next_fd = 3;
  fd_map = [];
  phys_base = 0;
  phys_bound = 4 * 2 ^ 20;
  phys_next = 100;
  phys_overflow = false;
  ppo_to_vpn = λ p. u64_max;
  ppo_size = 4 * 2 ^ 20;
  next_vpn = 0;
  vm_maps = λ vpn. none;
  tlb = free_tlb;
  huge_page = λ vpn. false;
  handler_running = false;
  joinable = false;
  phys_buf = 2 ^ 21;
  pages_xfered = 0;
}

-- The entry of a page that is to come from the file 7.
abbrev pub absent_page : ℕ → Vme
absent_page fd_pn = record { ppn = 0; fd_pn = fd_pn; fd = 7; present = false; writable = true }
