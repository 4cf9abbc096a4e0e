-- ===== src/Host/Registers.antt =====
-- The system registers as the pokes of a trace left them.
use amorphos_fsrf.Common.{ℕ, Option, none, some, [], ◌∷◌, ◌==◌, if◌then◌else◌}
use amorphos_fsrf.Host.{
  Trace, poked, peeked, file_read, file_written, file_opened, file_closed, app_bar, sys_bar,
  mem_bar,
}

-- The value last written to an address of the system BAR.
unfoldable pub sys_reg : Trace → ℕ → Option ℕ
sys_reg [] a = none
sys_reg (poked sys_bar b v ∷ t) a = if b == a then some v else sys_reg t a
sys_reg (poked app_bar b v ∷ t) a = sys_reg t a
sys_reg (poked mem_bar b v ∷ t) a = sys_reg t a
sys_reg (peeked bar b v ∷ t) a = sys_reg t a
sys_reg (file_read fd n o ∷ t) a = sys_reg t a
sys_reg (file_written fd n o ∷ t) a = sys_reg t a
sys_reg (file_opened p ∷ t) a = sys_reg t a
sys_reg (file_closed fd ∷ t) a = sys_reg t a
