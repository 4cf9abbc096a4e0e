-- ===== src/Host.antt =====
-- What the daemon does to the outside: accesses of the PCIe BARs through the AWS FPGA library and
-- file accesses through the operating system. Neither library is part of the repository, so a
-- `World` carries their behaviour as functions of everything done so far, together with the trace
-- of what was done. `patience` bounds the rounds that the model polls a register for.
pub mod Registers
pub mod Memory
use amorphos_fsrf.Common.{ℕ, List, ◌∷◌}

pub data Bar : Type 0 where
  app_bar sys_bar mem_bar : Bar

-- A `peeked` event carries the value that the access left behind.
pub data Event : Type 0 where
  poked : Bar → ℕ → ℕ → Event
  peeked : Bar → ℕ → ℕ → Event
  file_read : ℕ → ℕ → ℕ → Event
  file_written : ℕ → ℕ → ℕ → Event
  file_opened : List ℕ → Event
  file_closed : ℕ → Event

abbrev pub Trace : Type 0
Trace = List Event

-- `fpga_pci_poke64` returns a code; `fpga_pci_peek64` returns a code and leaves a value behind,
-- which may be the one that stood there.
pub record Pci : Type 0 where
  pub poke64 : Trace → Bar → ℕ → ℕ → ℕ
  pub peek64_rc : Trace → Bar → ℕ → ℕ
  pub peek64 : Trace → Bar → ℕ → ℕ → ℕ

-- `pread` and `pwrite` take a descriptor, a byte count and an offset and return a byte count;
-- `open` takes a path and returns a descriptor, `close` a code.
pub record Os : Type 0 where
  pub pread : Trace → ℕ → ℕ → ℕ → ℕ
  pub pwrite : Trace → ℕ → ℕ → ℕ → ℕ
  pub open_path : Trace → List ℕ → ℕ
  pub close_fd : Trace → ℕ → ℕ

pub record World : Type 0 where
  pub pci : Pci
  pub os : Os
  pub patience : ℕ
  pub trace : Trace

abbrev pub log : Event → World → World
log e w = record w { trace = e ∷ w.trace }
