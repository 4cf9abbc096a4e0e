-- ===== src/Examples/Requests.antt =====
-- Requests at a concrete state of the daemon (sw/daemon/aos_daemon.hpp).
use amorphos_fsrf.Fio.{aborted}
use amorphos_fsrf.Fio.Control.{set_mode}
use amorphos_fsrf.Setup.{Settings, parse_std_args}
use amorphos_fsrf.Setup.Modes.{parse_std_args-not_aborted}
use amorphos_fsrf.Common.{
  ◌≢◌, ◌<<<◌, true, false, true, ◌≡◌, refl, none, some, [], ◌∷◌, arith, ◌==◌, if◌then◌else◌,
  nonzero, false,
}
use amorphos_fsrf.Fio.Sync.{msync}
use amorphos_fsrf.Protocol.{mmap_req, msync_response}
use amorphos_fsrf.Daemon.{Daemon, handled, on_fio}
use amorphos_fsrf.Daemon.Handlers.{handle_msync, handle_transaction, reply}
use amorphos_fsrf.Daemon.Handlers.Faults.{
  handle_msync-never_invalidates, handle_transaction-unaligned,
}
use amorphos_fsrf.Client.{Client, exchange, aos_file_open}
use amorphos_fsrf.Client.Agreement.{Answers, exchange-Answers}
use amorphos_fsrf.Examples.{new_world, idle_fio, free_tlb}

-- Application 0 has an `aos_fio`, and connection 5 is open.
abbrev one_app : Daemon
one_app = record {
  world = new_world;
  platform = record {
    written = λ sent cfd n. n;
    pagemap = λ a. a;
    xfer_buf = 0;
    fresh_tlb = free_tlb;
  };
  file_io = λ app. if app == 0 then some idle_fio else none;
  head = 0;
  open_fds = 5 ∷ [];
  sent = [];
}

handle_msync-never_invalidates_example :
    handle_msync 5 0 40960 8192 2 one_app
    ≡ on_fio 0 (msync 40960 8192 false) one_app (λ rc d1. reply 5 msync_response (nonzero rc) d1)
handle_msync-never_invalidates_example =
    handle_msync-never_invalidates 5 0 40960 8192 2 one_app refl

handle_transaction-unaligned_example :
    handle_transaction 5 (mmap_req 0 0 8192 3 1 3 100) one_app
    ≡ handled 1 (record one_app {
      head = 0;
      sent = record { cfd = 5; bytes = 8; value = 0 } ∷ one_app.sent;
    })
handle_transaction-unaligned_example =
    handle_transaction-unaligned 5 0 0 8192 3 1 3 100 one_app idle_fio refl (omega arith)
      (omega arith) (omega arith)

abbrev app_client : Client
app_client = record { slot_id = 0; app_id = 0; cfd = 5; connection_open = true }

exchange-Answers_example :
    Answers
      (exchange (λ p. p) app_client (aos_file_open [])).awaits
      5
      []
      (handle_transaction 5 (exchange (λ p. p) app_client (aos_file_open [])).packet one_app)
exchange-Answers_example =
    exchange-Answers (λ p. p) app_client (aos_file_open []) 5 one_app (λ t cfd n. omega arith)

-- The arguments for 2 applications in the mode of huge pages.
abbrev two_apps : Settings
two_apps = record {
  num_apps = 2;
  populate = false;
  fio_mode = 1;
  coyote_config = 2;
  log_prefetch_size = 9;
}

two_apps-parsed : parse_std_args (2 ∷ 0 ∷ 1 ∷ 2 ∷ []) ≡ some two_apps
unfolding parse_std_args
two_apps-parsed = refl

parse_std_args-not_aborted_example :
    (set_mode 1 2 idle_fio ≢ aborted) × (set_mode 3 (1 <<< 9) idle_fio ≢ aborted)
parse_std_args-not_aborted_example =
    parse_std_args-not_aborted (2 ∷ 0 ∷ 1 ∷ 2 ∷ []) two_apps idle_fio two_apps-parsed refl
