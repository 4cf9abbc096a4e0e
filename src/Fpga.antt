-- ===== src/Fpga.antt =====
-- Register access of sw/daemon/aos_fpga.hpp. An access returns its code, the value left in the
-- caller's variable, and the world after it.
use amorphos_fsrf.Common.{ℕ, ◌%◌, bit_or, Bool, true, false, ◌<<<◌, ◌>>>◌, nonzero, if◌then◌else◌}
use amorphos_fsrf.Host.{Bar, app_bar, sys_bar, mem_bar, poked, peeked, World, log}
pub mod Address

pub record Access : Type 0 where
  pub rc : ℕ
  pub value : ℕ
  pub world : World

-- The address that reaches the BAR: a masked access puts the application's number in bits 3 to 6.
unfoldable pub bar_addr : ℕ → ℕ → Bool → ℕ
bar_addr app_id addr mask = if mask then bit_or ((addr >>> 3) <<< 7) (app_id <<< 3) else addr

-- A code other than 0 of the library becomes 1.
unfoldable pub reg_access : Bar → ℕ → ℕ → ℕ → Bool → Bool → World → Access
unfolding bar_addr
reg_access bar app_id addr value write mask w =
    let a = bar_addr app_id addr mask in
    if nonzero (addr % 8)
    then record { rc = 1; value = value; world = w }
    else if write
    then record {
      rc = if nonzero (w.pci.poke64 w.trace bar a value) then 1 else 0;
      value = value;
      world = log (poked bar a value) w;
    }
    else record {
      rc = if nonzero (w.pci.peek64_rc w.trace bar a) then 1 else 0;
      value = w.pci.peek64 w.trace bar a value;
      world = log (peeked bar a (w.pci.peek64 w.trace bar a value)) w;
    }

unfoldable pub read_app_reg : ℕ → ℕ → ℕ → World → Access
unfolding reg_access
read_app_reg app_id addr value = reg_access app_bar app_id addr value false true

unfoldable pub write_app_reg : ℕ → ℕ → ℕ → World → Access
unfolding reg_access
write_app_reg app_id addr value = reg_access app_bar app_id addr value true true

unfoldable pub read_sys_reg : ℕ → ℕ → ℕ → World → Access
unfolding reg_access
read_sys_reg app_id addr value = reg_access sys_bar app_id addr value false true

unfoldable pub write_sys_reg : ℕ → ℕ → ℕ → World → Access
unfolding reg_access
write_sys_reg app_id addr value = reg_access sys_bar app_id addr value true true

unfoldable pub read_mem_reg : ℕ → ℕ → World → Access
unfolding reg_access
read_mem_reg addr value = reg_access mem_bar 0 addr value false false

unfoldable pub write_mem_reg : ℕ → ℕ → World → Access
unfolding reg_access
write_mem_reg addr value = reg_access mem_bar 0 addr value true false
