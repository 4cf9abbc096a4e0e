-- ===== src/Daemon/Loop.antt =====
-- The main loop of sw/daemon/aos_daemon.hpp, one round a step. What the system's calls give in the
-- round are inputs.
use amorphos_fsrf.Common.{ℕ, Option, none, some, List}
use amorphos_fsrf.Daemon.{Daemon, Handled, handled}
use amorphos_fsrf.Daemon.Sockets.{
  Selected, start_transaction, Incoming, Read, failed, got, read_command,
}
use amorphos_fsrf.Daemon.Handlers.{handle_transaction}

-- A request that could be read is handled; the code of its handler is dropped.
unfoldable pub after_read : ℕ → Daemon → Read → Handled
unfolding handle_transaction
after_read cfd d (failed d1) = handled 1 d1
after_read cfd d (got r) = handle_transaction cfd r d

-- `none` while no request has come.
unfoldable pub listen_round : List Selected → (ℕ → Incoming) → Daemon → Option Handled
unfolding start_transaction read_command after_read
listen_round rs incoming d = elim (start_transaction rs d) [
  | none ↦ none
  | some (cfd, d1) ↦ some (after_read cfd d1 (read_command cfd (incoming cfd) d1))
]
