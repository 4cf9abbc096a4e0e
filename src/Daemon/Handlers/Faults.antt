-- ===== src/Daemon/Handlers/Faults.antt =====
-- Requests that sw/daemon/aos_daemon.hpp answers otherwise than the client means them.
use amorphos_fsrf.Common.{
  ℕ, ◌/◌, ◌%◌, ◌^◌, ◌≤◌, ◌<◌, ◌≡◌, ◌≢◌, refl, true, false, some, ◌∷◌, arith, ltb, bit_and, nonzero,
}
use amorphos_fsrf.Common.Bits.{and_digit, and_zero_below}
use amorphos_fsrf.Fio.{Fio}
use amorphos_fsrf.Fio.Sync.{msync}
use amorphos_fsrf.Protocol.{mmap_req, msync_response}
use amorphos_fsrf.Daemon.{Daemon, handled, on_fio, write_response, response_bytes}
use amorphos_fsrf.Daemon.Handlers.{
  handle_msync, handle_mmap, handle_transaction, dispatch, head_of, reply,
}

-- `a & 2`
and_two : (a : ℕ) → a % 4 ≡ 0 → bit_and a 2 ≡ 0
and_two a h = omega (
  arith,
  and_digit a 2,
  and_digit (a / 2) 1,
  and_zero_below (a / 2 / 2) (a / 2 / 2) (omega arith),
)

-- A request to synchronise a length that is a multiple of 4, which every whole number of pages is,
-- is carried out without invalidation, whatever its flags are.
pub handle_msync-never_invalidates :
    (cfd app addr length flags : ℕ) (d : Daemon)
    → length % 4 ≡ 0
    → handle_msync cfd app addr length flags d
      ≡ on_fio app (msync addr length false) d (λ rc d1. reply cfd msync_response (nonzero rc) d1)
unfolding handle_msync
handle_msync-never_invalidates cfd app addr length flags d h =
    let e : bit_and (length % 2 ^ 32) 2 ≡ 0 = and_two (length % 2 ^ 32) (omega arith) in rw e refl

-- A request to map an offset that is not a multiple of the page size, for an application that has
-- an `aos_fio`, fails; on a connection that takes the bytes, the address that the client receives
-- is the application's number, and not the -1 of a failed mapping unless the number is.
pub handle_transaction-unaligned :
    (cfd app addr length prot flags fd offset : ℕ) (d : Daemon) (s : Fio)
    → d.file_io app ≡ some s
    → offset % 4096 ≢ 0
    → app < 2 ^ 64
    → 8 ≤ d.platform.written d.sent cfd 8
    → handle_transaction cfd (mmap_req app addr length prot flags fd offset) d
      ≡ handled 1
          (record d { head = app; sent = record { cfd = cfd; bytes = 8; value = app } ∷ d.sent })
unfolding handle_transaction dispatch head_of handle_mmap write_response response_bytes
handle_transaction-unaligned cfd app addr length prot flags fd offset d s h off fits whole =
    let bad : nonzero (offset % 4096) ≡ true = ground arith in
    let taken : ltb (d.platform.written d.sent cfd 8) 8 ≡ false = ground arith in
    let v : app % 2 ^ 64 ≡ app = omega arith in rw (bad, h, taken, v) refl
