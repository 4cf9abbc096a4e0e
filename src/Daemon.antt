-- ===== src/Daemon.antt =====
-- `aos_host` of sw/daemon/aos_daemon.hpp: the requests of the clients and what the daemon does with
-- them. The flag `error_codes` is false there, so no error code is sent.
pub mod Sockets
pub mod Handlers
pub mod Loop
use amorphos_fsrf.Common.{
  ℕ, ◌+◌, ◌*◌, ◌/◌, ◌%◌, ◌^◌, Bool, true, false, Option, none, some, List, [], ◌∷◌, ◌==◌,
  if◌then◌else◌, ltb, All,
}
use amorphos_fsrf.Host.{World}
use amorphos_fsrf.Tlb.{Tlb}
use amorphos_fsrf.Protocol.{
  Command, cntrlreg_read_response, file_open_response, file_close_response, mmap_response,
}
use amorphos_fsrf.Fio.{Fio, Run, ok, exited, aborted, undefined, thrown, running, Cmd}

-- A response on its way: the connection, the number of bytes, and their value.
pub record Sent : Type 0 where
  pub cfd : ℕ
  pub bytes : ℕ
  pub value : ℕ

-- What the system gives the daemon: the bytes that a `write` of so many takes after the responses
-- sent, the page map and the buffer of a new `aos_fio`, and the arrays of its new TLB.
pub record Platform : Type 0 where
  pub written : List Sent → ℕ → ℕ → ℕ
  pub pagemap : ℕ → ℕ
  pub xfer_buf : ℕ
  pub fresh_tlb : Tlb

-- `head` is the first word of the packet union, in which responses are written over requests.
pub record Daemon : Type 0 where
  pub world : World
  pub platform : Platform
  pub file_io : ℕ → Option Fio
  pub head : ℕ
  pub open_fds : List ℕ
  pub sent : List Sent

-- `handleTransaction` returns a code, or the process ends.
pub data Handled : Type 0 where
  handled : ℕ → Daemon → Handled
  died : Handled

abbrev pub then_do : Handled → (ℕ → Daemon → Handled) → Handled
then_do (handled rc d) k = k rc d
then_do died k = died

abbrev pub remove_fd : ℕ → List ℕ → List ℕ
remove_fd fd [] = []
remove_fd fd (x ∷ xs) = let rest = remove_fd fd xs in if x == fd then rest else x ∷ rest

-- The bytes that a response has; 0 where nothing is sent.
unfoldable pub response_bytes : Command → ℕ
response_bytes cntrlreg_read_response = 8
response_bytes file_open_response = 4
response_bytes file_close_response = 4
response_bytes mmap_response = 8
response_bytes _ = 0

-- A connection whose `write` falls short is closed.
unfoldable pub write_response : ℕ → Command → Daemon → Daemon
unfolding response_bytes
write_response cfd cmd d =
    let n = response_bytes cmd in
    if n == 0
    then d
    else if ltb (d.platform.written d.sent cfd n) n
    then record d { open_fds = remove_fd cfd d.open_fds }
    else record d { sent = record { cfd = cfd; bytes = n; value = d.head % 2 ^ (8 * n) } ∷ d.sent }

-- The daemon once a method has ended; only one that returns leaves it running.
abbrev pub after_method : {A : Type 0} → ℕ → Daemon → (A → Daemon → Handled) → Run A → Handled
after_method app d k (ok a s) =
    k a (record d { world = s.world; file_io = λ n. if n == app then some s else d.file_io n })
after_method app d k exited = died
after_method app d k aborted = died
after_method app d k undefined = died
after_method app d k thrown = died
after_method app d k running = died

-- A method of the application's `aos_fio`, which shares the FPGA with the others; the application
-- must have one.
unfoldable pub on_fio : {A : Type 0} → ℕ → Cmd A → Daemon → (A → Daemon → Handled) → Handled
on_fio app method d k = elim (d.file_io app) [
  | none ↦ died
  | some s ↦ after_method app d k (method (record s { world = d.world }))
]
