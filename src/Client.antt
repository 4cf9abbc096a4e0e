-- ===== src/Client.antt =====
-- `aos_client` of sw/daemon/aos.hpp: what each call sends and how many bytes it then reads. The
-- flag `error_codes` is false there, so no error code is read.
pub mod Agreement
use amorphos_fsrf.Common.{
  minus_one, ◌==◌, ℕ, Bool, true, false, Option, none, some, List, if◌then◌else◌,
}
use amorphos_fsrf.Protocol.{
  Errcode, success, Request, cntrl_read_req, cntrl_write_req, file_open_req, file_close_req,
  mmap_req, munmap_req, msync_req, set_mode_req, response_size, cntrl_read_resp, file_open_resp,
  mmap_resp,
}

pub record Client : Type 0 where
  pub slot_id : ℕ
  pub app_id : ℕ
  pub cfd : ℕ
  pub connection_open : Bool

abbrev pub new_client : Client
new_client = record { slot_id = 0; app_id = 0; cfd = minus_one; connection_open = false }

abbrev pub set_slot_id : ℕ → Client → Client
set_slot_id new_slot_id c = record c { slot_id = new_slot_id }

abbrev pub set_app_id : ℕ → Client → Client
set_app_id new_app_id c = record c { app_id = new_app_id }

-- `socket_fd` and `rc` are what the system's `socket` and `connect` return. The result is whether
-- the connection was opened; a socket that could not be connected stays in `cfd`.
unfoldable pub open_socket : ℕ → ℕ → Client → Bool × Client
open_socket socket_fd rc c =
    if socket_fd == minus_one
    then (false, record c { cfd = socket_fd })
    else if rc == minus_one
    then (false, record c { cfd = socket_fd })
    else (true, record c { cfd = socket_fd; connection_open = true })

-- The connection counts as closed even where the system's `close` fails.
abbrev pub close_socket : Client → Client
close_socket c = record c { connection_open = false }

unfoldable pub disconnect : Client → Client
disconnect c = if c.connection_open then close_socket c else c

-- No error code is sent, so none is read: every call reports success.
abbrev pub read_errco : Errcode
read_errco = success

-- The calls, with their arguments.
pub data Call : Type 0 where
  aos_cntrlreg_read : ℕ → Call
  aos_cntrlreg_write : ℕ → ℕ → Call
  aos_file_open : List ℕ → Call
  aos_file_close : ℕ → Call
  aos_mmap : ℕ → ℕ → ℕ → ℕ → ℕ → ℕ → Call
  aos_munmap : ℕ → ℕ → Call
  aos_msync : ℕ → ℕ → ℕ → Call
  aos_set_mode : ℕ → ℕ → Call

-- The packet, and the bytes of the response packet that the call reads; 0 where it reads none.
pub record Exchange : Type 0 where
  pub packet : Request
  pub awaits : ℕ

-- `realpath` is the system's. The structure that `aos_file_close` reads into is that of the
-- response to `open`.
unfoldable pub exchange : (List ℕ → List ℕ) → Client → Call → Exchange
unfolding response_size
exchange realpath c (aos_cntrlreg_read addr) = record {
  packet = cntrl_read_req c.slot_id c.app_id addr;
  awaits = response_size (cntrl_read_resp 0);
}
exchange realpath c (aos_cntrlreg_write addr value) = record {
  packet = cntrl_write_req c.slot_id c.app_id addr value;
  awaits = 0;
}
exchange realpath c (aos_file_open path) = record {
  packet = file_open_req c.app_id (realpath path);
  awaits = response_size (file_open_resp 0);
}
exchange realpath c (aos_file_close fd) = record {
  packet = file_close_req c.app_id fd;
  awaits = response_size (file_open_resp 0);
}
exchange realpath c (aos_mmap addr length prot flags fd offset) = record {
  packet = mmap_req c.app_id addr length prot flags fd offset;
  awaits = response_size (mmap_resp 0);
}
exchange realpath c (aos_munmap addr length) = record {
  packet = munmap_req c.app_id addr length;
  awaits = 0;
}
exchange realpath c (aos_msync addr length flags) = record {
  packet = msync_req c.app_id addr length flags;
  awaits = 0;
}
exchange realpath c (aos_set_mode mode data_) = record {
  packet = set_mode_req c.app_id mode data_;
  awaits = 0;
}

-- A call on a connection that is not open fails its assertion.
unfoldable pub call : (List ℕ → List ℕ) → Client → Call → Option Exchange
unfolding exchange
call realpath c x = if c.connection_open then some (exchange realpath c x) else none
