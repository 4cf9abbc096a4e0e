-- ===== src/Protocol.antt =====
-- The commands and packets that the clients and the daemon exchange over the socket
-- (sw/daemon/aos.hpp): sizes are those of the structs on x86-64.
use amorphos_fsrf.Common.{ℕ, List}

pub data Command : Type 0 where
  cntrlreg_read_request cntrlreg_read_response : Command
  cntrlreg_write_request cntrlreg_write_response : Command
  file_open_request file_open_response : Command
  file_close_request file_close_response : Command
  mmap_request mmap_response : Command
  munmap_request munmap_response : Command
  msync_request msync_response : Command
  set_mode_request set_mode_response : Command

pub data Errcode : Type 0 where
  success retry alignment_failure protection_failure : Errcode
  app_does_not_exist timeout unknown_failure : Errcode

-- The request packets, by command.
pub data Request : Type 0 where
  cntrl_read_req : ℕ → ℕ → ℕ → Request
  cntrl_write_req : ℕ → ℕ → ℕ → ℕ → Request
  file_open_req : ℕ → List ℕ → Request
  file_close_req : ℕ → ℕ → Request
  mmap_req : ℕ → ℕ → ℕ → ℕ → ℕ → ℕ → ℕ → Request
  munmap_req : ℕ → ℕ → ℕ → Request
  msync_req : ℕ → ℕ → ℕ → ℕ → Request
  set_mode_req : ℕ → ℕ → ℕ → Request

-- The response packets that are sent back.
pub data Response : Type 0 where
  cntrl_read_resp : ℕ → Response
  file_open_resp : ℕ → Response
  mmap_resp : ℕ → Response

-- The command that a client sends before a packet.
unfoldable pub command_of : Request → Command
command_of (cntrl_read_req slot app addr) = cntrlreg_read_request
command_of (cntrl_write_req slot app addr v) = cntrlreg_write_request
command_of (file_open_req app path) = file_open_request
command_of (file_close_req app fd) = file_close_request
command_of (mmap_req app addr len prot flags fd offset) = mmap_request
command_of (munmap_req app addr len) = munmap_request
command_of (msync_req app addr len flags) = msync_request
command_of (set_mode_req app mode data_) = set_mode_request

-- `sizeof` of the packets, with the padding of an `int` at the end.
unfoldable pub size_of : Request → ℕ
size_of (cntrl_read_req slot app addr) = 24
size_of (cntrl_write_req slot app addr v) = 32
size_of (file_open_req app path) = 4104
size_of (file_close_req app fd) = 16
size_of (mmap_req app addr len prot flags fd offset) = 48
size_of (munmap_req app addr len) = 24
size_of (msync_req app addr len flags) = 32
size_of (set_mode_req app mode data_) = 24

unfoldable pub response_size : Response → ℕ
response_size (cntrl_read_resp v) = 8
response_size (file_open_resp fd) = 4
response_size (mmap_resp addr) = 8
