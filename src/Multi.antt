-- ===== src/Multi.antt =====
-- sw/app/multi.cpp, which keeps four accelerators busy: it starts each one anew when it is done, until
-- the PageRank accelerator has made 25 runs, and then waits for all four.  What the registers return
-- is a parameter: `reads app k` is what the `k`-th read through the client of an application gives.
-- The clock counts the rounds of the loop.
pub mod Slots
pub mod Kept
pub mod Invariant
pub mod Waiting
pub mod Finish
use amorphos_fsrf.Common.{
  ℕ, zero, suc, ◌+◌, ◌*◌, ◌^◌, Bool, true, false, not, ◌&&◌, Option, none, some, List, [], ◌∷◌,
  ◌++◌, add64, sub64, mul64, bit_and, ◌||◌, bit_or, ltb, leb, ◌==◌, ◌<<<◌, if◌then◌else◌,
}
use amorphos_fsrf.Client.{
  Call, aos_cntrlreg_write, aos_file_open, aos_file_close, aos_mmap, aos_munmap, aos_set_mode,
}
use amorphos_fsrf.Setup.{next_arg}
use amorphos_fsrf.Drivers.{Phase, each, on, Answers}
use amorphos_fsrf.Drivers.Programs.{file_name, prot_read, prot_write}
use amorphos_fsrf.Drivers.Programs.Hls.{sized_name, rank_registers, read_length, write_length}

-- What the program holds of one application, and the writes that it sent to it since the set-up.
pub record Slot : Type 0 where
  pub done : Bool
  pub runs : ℕ
  pub ended : Option ℕ
  pub next : ℕ
  pub sent : List Call

pub record Multi : Type 0 where
  pub rng : Slot
  pub sha : Slot
  pub pgrnk : Slot
  pub aes : Slot
  pub rng_prev : ℕ
  pub runs_left : ℕ

-- The applications by their indices.
abbrev pub rng_app : ℕ
rng_app = 0

abbrev pub sha_app : ℕ
sha_app = 1

abbrev pub pgrnk_app : ℕ
pgrnk_app = 2

abbrev pub aes_app : ℕ
aes_app = 3

abbrev pub command_run : List Call
command_run = aos_cntrlreg_write 0x0 0x1 ∷ []

abbrev pub command_clear : List Call
command_clear = aos_cntrlreg_write 0x00 0x10 ∷ []

-- A run that is started, where the application is done.
unfoldable pub start_slot : List Call → Slot → Slot
start_slot commands s =
    if s.done
    then record s { done = false; runs = add64 s.runs 1; sent = s.sent ++ commands }
    else s

-- After a read that showed the application done, and one that did not.
abbrev pub stop_slot : List Call → ℕ → ℕ → Slot → Slot
stop_slot commands runs_left round s = record s {
  done = true;
  ended = if runs_left == 0 then some round else s.ended;
  next = suc s.next;
  sent = s.sent ++ commands;
}

abbrev pub go_on : Slot → Slot
go_on s = record s { next = suc s.next }

module _ (reads : ℕ → ℕ → ℕ) where
  -- Whether the application's next read has bit 1, or is 0.
  abbrev pub has_bit : ℕ → Slot → Bool
  has_bit app s = bit_and (reads app s.next) 0x2 == 0x2

  abbrev pub is_zero : ℕ → Slot → Bool
  is_zero app s = reads app s.next == 0

  unfoldable pub check_pgrnk : ℕ → Slot → ℕ → Slot × ℕ
  check_pgrnk round s runs_left =
      if s.done
      then (s, runs_left)
      else if has_bit pgrnk_app s
      then (let left = sub64 runs_left 1 in (stop_slot command_clear left round s, left))
      else (go_on s, runs_left)

  unfoldable pub check_rng : ℕ → ℕ → Slot → ℕ → Slot × ℕ
  check_rng runs_left round s rng_prev =
      if s.done
      then (s, rng_prev)
      else (let temp = reads rng_app s.next in
          (if temp == rng_prev then stop_slot [] runs_left round s else go_on s, temp))

  unfoldable pub check_sha : ℕ → ℕ → Slot → Slot
  check_sha runs_left round s =
      if s.done
      then s
      else if has_bit sha_app s
      then stop_slot command_clear runs_left round s
      else go_on s

  unfoldable pub check_aes : ℕ → ℕ → Slot → Slot
  check_aes runs_left round s =
      if s.done then s else if is_zero aes_app s then stop_slot [] runs_left round s else go_on s

  -- A start of rng is followed by a read, with which the next one is compared.
  unfoldable pub start_rng : ℕ → Slot → ℕ → Slot × ℕ
  start_rng rng_value s rng_prev =
      if s.done
      then (go_on (start_slot (aos_cntrlreg_write 0x0 rng_value ∷ []) s), reads rng_app s.next)
      else (s, rng_prev)

  module _ (rng_value : ℕ) (aes_commands : List Call) where
    unfoldable pub start_apps : Multi → Multi
    start_apps t =
        if ltb 0 t.runs_left
        then (let (rng, rng_prev) = start_rng rng_value t.rng t.rng_prev in
            record {
              rng = rng;
              sha = start_slot command_run t.sha;
              pgrnk = start_slot command_run t.pgrnk;
              aes = start_slot aes_commands t.aes;
              rng_prev = rng_prev;
              runs_left = t.runs_left;
            })
        else t

    -- PageRank is looked at first, and the others with the count of runs that it leaves.
    unfoldable pub check_apps : ℕ → Multi → Multi
    check_apps round t =
        let (pgrnk, runs_left) = check_pgrnk round t.pgrnk t.runs_left in
        let (rng, rng_prev) = check_rng runs_left round t.rng t.rng_prev in
        record {
          rng = rng;
          sha = check_sha runs_left round t.sha;
          pgrnk = pgrnk;
          aes = check_aes runs_left round t.aes;
          rng_prev = rng_prev;
          runs_left = runs_left;
        }

    abbrev pub is_over : Multi → Bool
    is_over t = (t.runs_left == 0) && t.rng.done && t.sha.done && t.pgrnk.done && t.aes.done

    -- `while (true)`, for at most `fuel` rounds; `none` when it goes on.
    unfoldable pub run_loop : ℕ → ℕ → Multi → Option Multi
    run_loop zero round t = none
    run_loop (suc fuel) round t =
        let u = check_apps round (start_apps t) in
        let later = run_loop fuel (suc round) u in if is_over u then some u else later

-- No read was made of any register before the loop.
abbrev pub idle_slot : Slot
idle_slot = record { done = true; runs = 0; ended = none; next = 0; sent = [] }

abbrev pub start_state : Multi
start_state = record {
  rng = idle_slot;
  sha = idle_slot;
  pgrnk = idle_slot;
  aes = idle_slot;
  rng_prev = 0;
  runs_left = 25;
}

-- The constants of the four configurations.
abbrev pub num_verts : ℕ
num_verts = 68863488

abbrev pub num_edges : ℕ
num_edges = 143415296

abbrev pub rng_bytes : ℕ
rng_bytes = 2 ^ (19 + 6 + 6)

abbrev pub sha_words : ℕ
sha_words = 2 ^ 25

abbrev pub aes_words : ℕ
aes_words = 2 ^ 24

-- What the three arguments set; `none` where an assertion fails.
pub record Modes : Type 0 where
  pub fio_mode : ℕ
  pub coyote_config : ℕ
  pub log_prefetch_size : ℕ

unfoldable pub parse_modes : List ℕ → Option Modes
parse_modes args =
    let (fio_mode, args1) = next_arg 0 args in
    let (coyote_config, args2) = next_arg 0 args1 in
    let (log_prefetch_size, args3) = next_arg 9 args2 in
    if (leb fio_mode 2 || fio_mode == 4) && leb coyote_config 2 && leb log_prefetch_size 9
    then some (record {
      fio_mode = fio_mode;
      coyote_config = coyote_config;
      log_prefetch_size = log_prefetch_size;
    })
    else none

-- With the first Coyote configuration, rng gets the mode of its own.
unfoldable pub mode_calls : Modes → ℕ → List Call
mode_calls m app =
    (if m.fio_mode == 0 && m.coyote_config == 1
      then aos_set_mode (if app == 0 then 0 else 1) 2
      else aos_set_mode m.fio_mode m.coyote_config)
    ∷ aos_set_mode 3 (1 <<< m.log_prefetch_size)
    ∷ []

module _ (a : Answers) where
  -- The regions, all populated.
  abbrev pub map_phases : List Phase
  map_phases =
      on rng_app (aos_mmap 0 rng_bytes prot_read 0x8000 (a.fd rng_app) 0 ∷ [])
      ∷ on sha_app (aos_mmap 0 (mul64 sha_words 64) prot_read 0x8000 (a.fd sha_app) 0 ∷ [])
      ∷ on pgrnk_app (
          aos_mmap 0 (read_length num_verts num_edges) prot_read 0x8000 (a.fd pgrnk_app) 0
          ∷ aos_mmap 0 (write_length num_verts) prot_write 0x8000 (a.fd pgrnk_app)
              (read_length num_verts num_edges)
          ∷ [])
      ∷ on aes_app (
          aos_mmap 0 (mul64 aes_words 64) prot_read 0x8000 (a.fd aes_app) 0
          ∷ aos_mmap 0 (mul64 aes_words 64) prot_write 0x8000 (a.fd aes_app) (mul64 aes_words 64)
          ∷ [])
      ∷ []

  -- The registers that the runs share.
  abbrev pub register_phases : List Phase
  register_phases =
      on sha_app
        (aos_cntrlreg_write 0x48 (a.addr sha_app 0) ∷ aos_cntrlreg_write 0x58 sha_words ∷ [])
      ∷ on pgrnk_app (rank_registers a num_verts num_edges pgrnk_app)
      ∷ on aes_app (
          aos_cntrlreg_write 0x00 1
          ∷ aos_cntrlreg_write 0x08 2
          ∷ aos_cntrlreg_write 0x10 3
          ∷ aos_cntrlreg_write 0x18 4
          ∷ aos_cntrlreg_write 0x38 8
          ∷ aos_cntrlreg_write 0x40 8
          ∷ [])
      ∷ []

  abbrev pub cleanup_phases : List Phase
  cleanup_phases =
      on rng_app (aos_munmap (a.addr rng_app 0) rng_bytes ∷ [])
      ∷ on sha_app (aos_munmap (a.addr sha_app 0) (mul64 sha_words 64) ∷ [])
      ∷ on pgrnk_app (
          aos_munmap (a.addr pgrnk_app 0) (read_length num_verts num_edges)
          ∷ aos_munmap (a.addr pgrnk_app 1) (write_length num_verts)
          ∷ [])
      ∷ on aes_app (
          aos_munmap (a.addr aes_app 0) (mul64 aes_words 64)
          ∷ aos_munmap (a.addr aes_app 1) (mul64 aes_words 64)
          ∷ [])
      ∷ each 4 (λ app. aos_file_close (a.fd app) ∷ [])
      ∷ []

  abbrev pub rng_value : ℕ
  rng_value = bit_or (bit_or (a.addr rng_app 0) (6 <<< 48)) (0 <<< 52)

  abbrev pub aes_commands : List Call
  aes_commands =
      aos_cntrlreg_write 0x20 (a.addr aes_app 0)
      ∷ aos_cntrlreg_write 0x28 (a.addr aes_app 1)
      ∷ aos_cntrlreg_write 0x30 aes_words
      ∷ []

  -- What a finished loop sent, between the set-up and the release of the regions.
  unfoldable pub multi_phases : Modes → Multi → List Phase
  multi_phases m t =
      (each 4 (mode_calls m)
        ∷ each 4 (λ app. aos_file_open (if app == 2 then sized_name 2 app else file_name app) ∷ [])
        ∷ [])
      ++ (map_phases
          ++ (register_phases
              ++ ((on rng_app t.rng.sent
                    ∷ on sha_app t.sha.sent
                    ∷ on pgrnk_app t.pgrnk.sent
                    ∷ on aes_app t.aes.sent
                    ∷ [])
                  ++ cleanup_phases)))

  -- The program, with at most `fuel` rounds of its loop.
  unfoldable pub multi : (ℕ → ℕ → ℕ) → ℕ → Modes → Option (List Phase)
  multi reads fuel m = elim (run_loop reads rng_value aes_commands fuel 0 start_state) [
    | none ↦ none
    | some t ↦ some (multi_phases m t)
  ]
