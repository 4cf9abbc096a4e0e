-- ===== src/Drivers.antt =====
-- What the main programs of sw/app call, as a list of phases: a program goes over the applications
-- several times, and makes each time the same few calls through the client of each one.
pub mod Programs
pub mod Sessions
use amorphos_fsrf.Common.{
  ℕ, zero, suc, ◌+◌, Bool, true, false, Option, none, some, List, [], ◌∷◌, ◌++◌, ltb, ◌==◌, ◌&&◌,
  if◌then◌else◌,
}
use amorphos_fsrf.Client.{
  Call, aos_cntrlreg_read, aos_cntrlreg_write, aos_file_open, aos_file_close, aos_mmap, aos_munmap,
  aos_msync, aos_set_mode,
}
use amorphos_fsrf.Setup.Polling.{Goal}

-- `each n body` is a loop over the first `n` applications, `on app calls` uses one client, `finish`
-- is a call of `finish_runs` on a register, and `settle` reads a register of each application until
-- it gives the same value twice.
pub data Phase : Type 0 where
  each : ℕ → (ℕ → List Call) → Phase
  on : ℕ → List Call → Phase
  finish : ℕ → Goal → Phase
  settle : ℕ → ℕ → Phase

-- What the daemon answers: the descriptor of each application's file, and the addresses of its
-- mappings, in order; and what a variable that was never set holds.
pub record Answers : Type 0 where
  pub fd : ℕ → ℕ
  pub addr : ℕ → ℕ → ℕ
  pub unset : ℕ → ℕ

pub data Main : Type 0 where
  aborted : Main
  undefined : Main
  program : List Phase → Main

-- The calls that change something, made through the client of one application.
unfoldable pub calls_of : ℕ → List Phase → List Call
calls_of j [] = []
calls_of j (each n body ∷ phases) = (if ltb j n then body j else []) ++ calls_of j phases
calls_of j (on app calls ∷ phases) = (if j == app then calls else []) ++ calls_of j phases
calls_of j (finish reg goal ∷ phases) = calls_of j phases
calls_of j (settle n reg ∷ phases) = calls_of j phases
