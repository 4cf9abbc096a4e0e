-- ===== src/Fpga/Address.antt =====
-- The BAR addresses of masked register accesses (sw/daemon/aos_fpga.hpp, `reg_access`).
use amorphos_fsrf.Common.{ℕ, ◌+◌, ◌*◌, ◌/◌, ◌%◌, ◌^◌, ◌<◌, ◌≡◌, true, arith}
use amorphos_fsrf.Common.Bits.{or_shift_low, shift_fits}
use amorphos_fsrf.Host.{sys_bar, poked, peeked, World, log}
use amorphos_fsrf.Fpga.{bar_addr, read_sys_reg, write_sys_reg}

-- The bits of the application and of the register do not overlap.
pub bar_addr_sum :
    (app addr : ℕ) → app < 16 → addr < 2 ^ 60 → bar_addr app addr true ≡ addr / 8 * 128 + app * 8
unfolding bar_addr
bar_addr_sum app addr ha hb = rw (
  shift_fits 3 app (omega arith),
  or_shift_low 7 (addr / 8) (app * 8) (omega arith) (omega arith),
)

-- Masked accesses of two applications, or of two registers of one application, never reach the
-- same BAR address: for aligned registers the address determines application and register.
pub bar_addr_injective :
    (app1 app2 addr1 addr2 : ℕ)
    → app1 < 16
    → app2 < 16
    → addr1 < 2 ^ 60
    → addr2 < 2 ^ 60
    → addr1 % 8 ≡ 0
    → addr2 % 8 ≡ 0
    → bar_addr app1 addr1 true ≡ bar_addr app2 addr2 true
    → (app1 ≡ app2) × (addr1 ≡ addr2)
bar_addr_injective app1 app2 addr1 addr2 ha1 ha2 hb1 hb2 al1 al2 e =
    omega (arith, bar_addr_sum app1 addr1 ha1 hb1, bar_addr_sum app2 addr2 ha2 hb2)

-- An aligned masked write makes one library call.
pub write_sys_reg_world :
    (app addr value : ℕ) (w : World)
    → addr % 8 ≡ 0
    → (write_sys_reg app addr value w).world ≡ log (poked sys_bar (bar_addr app addr true) value) w
unfolding write_sys_reg
write_sys_reg_world app addr value w h = ground arith

-- An aligned masked read makes one library call.
pub read_sys_reg_value :
    (app addr old : ℕ) (w : World)
    → addr % 8 ≡ 0
    → (read_sys_reg app addr old w).value
      ≡ w.pci.peek64 w.trace sys_bar (bar_addr app addr true) old
unfolding read_sys_reg
read_sys_reg_value app addr old w h = ground arith

pub read_sys_reg_world :
    (app addr old : ℕ) (w : World)
    → addr % 8 ≡ 0
    → (read_sys_reg app addr old w).world
      ≡ log
          (peeked sys_bar
            (bar_addr app addr true)
            (w.pci.peek64 w.trace sys_bar (bar_addr app addr true) old))
          w
unfolding read_sys_reg
read_sys_reg_world app addr old w h = ground arith
