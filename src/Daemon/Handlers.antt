-- ===== src/Daemon/Handlers.antt =====
-- The handlers of sw/daemon/aos_daemon.hpp. A handler reads its packet, calls the application's
-- `aos_fio` or the register access, writes its result over the head of the packet, responds, and
-- returns 1 where its error code is not `SUCCESS`.
pub mod Faults
use amorphos_fsrf.Common.{
  ℕ, ◌+◌, ◌*◌, ◌/◌, ◌%◌, ◌^◌, Bool, true, false, not, Option, none, some, List, ◌==◌, if◌then◌else◌,
  bit_and, nonzero, to_num, minus_one, u64_max,
}
use amorphos_fsrf.Fpga.{read_app_reg, write_app_reg}
use amorphos_fsrf.Fio.{Fio, Run, ok, exited, aborted, undefined, thrown, running, Cmd}
use amorphos_fsrf.Fio.Control.{construct, set_mode, file_open, file_close}
use amorphos_fsrf.Fio.Map.{mmap, munmap}
use amorphos_fsrf.Fio.Sync.{msync}
use amorphos_fsrf.Protocol.{
  Command, cntrlreg_read_response, cntrlreg_write_response, file_open_response, file_close_response,
  mmap_response, munmap_response, msync_response, set_mode_response, Request, cntrl_read_req,
  cntrl_write_req, file_open_req, file_close_req, mmap_req, munmap_req, msync_req, set_mode_req,
}
use amorphos_fsrf.Daemon.{
  after_method, Daemon, Handled, handled, died, then_do, write_response, on_fio,
}

abbrev pub ms_invalidate : ℕ
ms_invalidate = 2

-- An `int` written over the head of the packet leaves the upper half.
abbrev pub put_int : ℕ → Daemon → Daemon
put_int v d = record d { head = d.head / 2 ^ 32 * 2 ^ 32 + v }

-- The response, and the code for whether the request failed.
abbrev pub reply : ℕ → Command → Bool → Daemon → Handled
reply cfd cmd failed d = handled (to_num failed) (write_response cfd cmd d)

unfoldable pub handle_cntrlreg_read : ℕ → ℕ → ℕ → Daemon → Handled
handle_cntrlreg_read cfd app addr d =
    let r = read_app_reg app addr 0 d.world in
    reply cfd cntrlreg_read_response (nonzero r.rc) (record d { world = r.world; head = r.value })

unfoldable pub handle_cntrlreg_write : ℕ → ℕ → ℕ → ℕ → Daemon → Handled
handle_cntrlreg_write cfd app addr value d =
    let r = write_app_reg app addr value d.world in
    reply cfd cntrlreg_write_response (nonzero r.rc) (record d { world = r.world })

-- A new `aos_fio` for an application that has none.
unfoldable pub ensure_fio : ℕ → Daemon → (Bool → Daemon → Handled) → Handled
ensure_fio app d k = elim (d.file_io app) [
  | some s ↦ k false d
  | none ↦
      after_method app d (λ _ d1. k true d1)
        (construct d.platform.pagemap d.platform.xfer_buf app d.platform.fresh_tlb d.world)
]

unfoldable pub handle_file_open : ℕ → ℕ → List ℕ → Daemon → Handled
unfolding ensure_fio on_fio
handle_file_open cfd app path d = ensure_fio app d λ new d1.
    then_do (if new then on_fio app (set_mode 0 0) d1 (λ _ d2. handled 0 d2) else handled 0 d1)
      λ _ d2.
        on_fio app (file_open path) d2
          λ fd d3. reply cfd file_open_response (fd == minus_one) (put_int fd d3)

unfoldable pub handle_file_close : ℕ → ℕ → ℕ → Daemon → Handled
unfolding on_fio
handle_file_close cfd app fd d =
    on_fio app (file_close fd) d λ rc d1. reply cfd file_close_response (rc == minus_one) d1

-- An offset that is not a multiple of the page size is an alignment failure.
unfoldable pub handle_mmap : ℕ → ℕ → ℕ → ℕ → ℕ → ℕ → ℕ → Daemon → Handled
unfolding on_fio
handle_mmap cfd app length prot flags fd offset d =
    if nonzero (offset % (4 * 2 ^ 10))
    then elim (d.file_io app) [ none ↦ died | some s ↦ reply cfd mmap_response true d ]
    else on_fio app (mmap length prot flags fd offset) d
        (λ addr d1. reply cfd mmap_response (addr == u64_max) (record d1 { head = addr }))

unfoldable pub handle_munmap : ℕ → ℕ → ℕ → ℕ → Daemon → Handled
unfolding on_fio
handle_munmap cfd app addr length d =
    on_fio app (munmap addr length) d λ rc d1. reply cfd munmap_response (nonzero rc) d1

-- The handler takes the packet's length for its flags.
unfoldable pub handle_msync : ℕ → ℕ → ℕ → ℕ → ℕ → Daemon → Handled
unfolding on_fio
handle_msync cfd app addr length flags d =
    let flags_ = length % 2 ^ 32 in
    on_fio app (msync addr length (nonzero (bit_and flags_ ms_invalidate))) d
      λ rc d1. reply cfd msync_response (nonzero rc) d1

unfoldable pub handle_set_mode : ℕ → ℕ → ℕ → ℕ → Daemon → Handled
unfolding ensure_fio on_fio
handle_set_mode cfd app mode data_ d =
    ensure_fio app d
      λ new d1. on_fio app (set_mode mode data_) d1 λ _ d2. reply cfd set_mode_response false d2

-- The first word of a request packet.
unfoldable pub head_of : Request → ℕ
head_of (cntrl_read_req slot app addr) = slot
head_of (cntrl_write_req slot app addr v) = slot
head_of (file_open_req app path) = app
head_of (file_close_req app fd) = app
head_of (mmap_req app addr length prot flags fd offset) = app
head_of (munmap_req app addr length) = app
head_of (msync_req app addr length flags) = app
head_of (set_mode_req app mode data_) = app

unfoldable pub dispatch : ℕ → Request → Daemon → Handled
unfolding handle_cntrlreg_read handle_cntrlreg_write handle_file_open handle_file_close handle_mmap
    handle_munmap handle_msync handle_set_mode
dispatch cfd (cntrl_read_req slot app addr) d = handle_cntrlreg_read cfd app addr d
dispatch cfd (cntrl_write_req slot app addr v) d = handle_cntrlreg_write cfd app addr v d
dispatch cfd (file_open_req app path) d = handle_file_open cfd app path d
dispatch cfd (file_close_req app fd) d = handle_file_close cfd app fd d
dispatch cfd (mmap_req app addr length prot flags fd offset) d =
    handle_mmap cfd app length prot flags fd offset d
dispatch cfd (munmap_req app addr length) d = handle_munmap cfd app addr length d
dispatch cfd (msync_req app addr length flags) d = handle_msync cfd app addr length flags d
dispatch cfd (set_mode_req app mode data_) d = handle_set_mode cfd app mode data_ d

-- The packet has been read into the union.
unfoldable pub handle_transaction : ℕ → Request → Daemon → Handled
unfolding dispatch head_of
handle_transaction cfd r d = dispatch cfd r (record d { head = head_of r })
