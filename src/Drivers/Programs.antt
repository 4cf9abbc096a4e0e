-- ===== src/Drivers/Programs.antt =====
-- The main programs of sw/app, one function for each: its arguments to the phases of its calls, with
-- `Answers` for what the daemon returns.  An `int` is shifted by less than 31 places, or the program
-- is undefined.  Timing and printing are left out.
pub mod Hls
use Prim.Native.Char.{code}
use Prim.Native.String.{String}
use amorphos_fsrf.Common.{
  ℕ, zero, suc, ◌+◌, ◌-◌, ◌*◌, ◌/◌, ◌%◌, ◌^◌, Bool, true, false, not, ◌&&◌, ◌||◌, Option, none,
  some, List, [], ◌∷◌, ◌++◌, add64, mul64, ltb, leb, ◌==◌, bit_or, bit_and, nonzero, if◌then◌else◌,
  u64_max, get_or, ◌<<<◌,
}
use amorphos_fsrf.Client.{
  Call, aos_cntrlreg_read, aos_cntrlreg_write, aos_file_open, aos_file_close, aos_mmap, aos_munmap,
  aos_set_mode,
}
use amorphos_fsrf.Setup.{Settings, next_arg, parse_std_args, setup_client}
use amorphos_fsrf.Setup.Polling.{Goal}
use amorphos_fsrf.Drivers.{
  Phase, each, on, finish, settle, Answers, Main, aborted, undefined, program,
}

abbrev pub codes : String → List ℕ
codes String.[] = []
codes (String.◌∷◌ c s) = code c ∷ codes s

abbrev pub prot_read : ℕ
prot_read = 1

abbrev pub prot_write : ℕ
prot_write = 2

abbrev pub map_flags : Settings → ℕ
map_flags s = if s.populate then 0x8000 else 0

-- `assert` before the rest of a program.
unfoldable pub assert_that : Bool → Main → Main
assert_that test rest = if test then rest else aborted

unfoldable pub with_settings : List ℕ → (Settings → Main) → Main
with_settings args rest = elim (parse_std_args args) [ none ↦ aborted | some s ↦ rest s ]

-- `1 << length`, of an `int`.
unfoldable pub shift_one : ℕ → (ℕ → Main) → Main
shift_one length rest = if ltb length 31 then rest (2 ^ length) else undefined

-- The arguments by default of `finish_runs`, whose mask is all ones.
abbrev pub value_is : ℕ → Goal
value_is v = record { fixed_val = true; done_val = v; reg_mask = u64_max }

abbrev pub value_stays : Goal
value_stays = record { fixed_val = false; done_val = 0; reg_mask = u64_max }

abbrev pub bit_one : Goal
bit_one = record { fixed_val = true; done_val = 0x2; reg_mask = 0x2 }

-- The names "/mnt/nvme0/file0.bin" and so on.
abbrev pub file_name : ℕ → List ℕ
file_name app = codes "/mnt/nvme0/file" ++ ((48 + app) ∷ codes ".bin")

abbrev pub clients : Settings → Phase
clients s = each s.num_apps (λ app. (setup_client s app).1)

abbrev pub open_files : Settings → Phase
open_files s = each s.num_apps (λ app. aos_file_open (file_name app) ∷ [])

-- `I_SIZE`, whose index is not checked against its four entries.
abbrev pub sizes : List ℕ
sizes = 128 ∷ 4096 ∷ 32768 ∷ 131072 ∷ []

-- The runs of dnn.cpp, one for each kernel, from the `k`-th range of the region on.
unfoldable pub kernel_runs : ℕ → ℕ → (ℕ → ℕ) → List Phase
kernel_runs num_apps zero start_addr = []
kernel_runs num_apps (suc kernels) start_addr =
    each num_apps (λ app. aos_cntrlreg_write 0x0 (start_addr app) ∷ [])
    ∷ settle num_apps 0x0
    ∷ kernel_runs num_apps kernels (λ app. add64 (start_addr app) (358 * 4096))

module _ (a : Answers) where
  unfoldable pub aes : List ℕ → Main
  aes args =
      let (length, rest) = next_arg 24 args in
      assert_that (leb length 33) (
        with_settings rest λ s. shift_one length λ num_words.
          let bytes = mul64 num_words 64 in
          program (
            clients s
            ∷ open_files s
            ∷ each s.num_apps (λ app.
              aos_mmap 0 bytes prot_read (map_flags s) (a.fd app) 0
              ∷ aos_mmap (a.addr app 0) bytes prot_write (map_flags s) (a.fd app) bytes
              ∷ [])
            ∷ each s.num_apps (λ app.
              aos_cntrlreg_write 0x00 1
              ∷ aos_cntrlreg_write 0x08 2
              ∷ aos_cntrlreg_write 0x10 3
              ∷ aos_cntrlreg_write 0x18 4
              ∷ aos_cntrlreg_write 0x20 (a.addr app 0)
              ∷ aos_cntrlreg_write 0x28 (a.addr app 1)
              ∷ aos_cntrlreg_write 0x38 8
              ∷ aos_cntrlreg_write 0x40 8
              ∷ aos_cntrlreg_write 0x30 num_words
              ∷ [])
            ∷ finish 0x38 (value_is 0)
            ∷ each s.num_apps (λ app.
              aos_munmap (a.addr app 0) bytes
              ∷ aos_munmap (a.addr app 1) bytes
              ∷ aos_file_close (a.fd app)
              ∷ [])
            ∷ []))

  -- The phases in which md5.cpp and sha.cpp map their one region, and release it.
  abbrev pub map_source : Settings → ℕ → Phase
  map_source s bytes =
      each s.num_apps (λ app. aos_mmap 0 bytes prot_read (map_flags s) (a.fd app) 0 ∷ [])

  abbrev pub drop_source : Settings → ℕ → Phase
  drop_source s bytes =
      each s.num_apps (λ app. aos_munmap (a.addr app 0) bytes ∷ aos_file_close (a.fd app) ∷ [])

  unfoldable pub md5 : List ℕ → Main
  md5 args =
      let (length, rest) = next_arg 25 args in
      assert_that (leb length 34) (
        with_settings rest λ s. shift_one length λ num_words. program (
          clients s
          ∷ open_files s
          ∷ map_source s (mul64 num_words 64)
          ∷ each s.num_apps (λ app.
            aos_cntrlreg_write 0x10 (a.addr app 0)
            ∷ aos_cntrlreg_write 0x18 8
            ∷ aos_cntrlreg_write 0x20 num_words
            ∷ [])
          ∷ finish 0x28 (value_is num_words)
          ∷ drop_source s (mul64 num_words 64)
          ∷ []))

  unfoldable pub sha : List ℕ → Main
  sha args =
      let (length, rest) = next_arg 25 args in
      assert_that (leb length 34) (
        with_settings rest λ s. shift_one length λ num_words. program (
          clients s
          ∷ open_files s
          ∷ map_source s (mul64 num_words 64)
          ∷ each s.num_apps (λ app.
            aos_cntrlreg_write 0x20 (a.addr app 0)
            ∷ aos_cntrlreg_write 0x28 8
            ∷ aos_cntrlreg_write 0x30 num_words
            ∷ [])
          ∷ finish 0x38 (value_is num_words)
          ∷ drop_source s (mul64 num_words 64)
          ∷ []))

  unfoldable pub conv : List ℕ → Main
  conv args =
      let (version, rest) = next_arg 25 args in
      assert_that (leb version 35) (
        if ltb version 4
        then (let size = get_or sizes version 0 in
            let bytes = 2 * (size * size) / 2 in
            with_settings rest λ s. program (
              clients s
              ∷ open_files s
              ∷ each s.num_apps (λ app.
                aos_mmap 0 bytes prot_read (map_flags s) (a.fd app) 0
                ∷ aos_mmap (a.addr app 0) bytes prot_write (map_flags s) (a.fd app) bytes
                ∷ [])
              ∷ each s.num_apps (λ app.
                aos_cntrlreg_write 0x00 (a.addr app 0)
                ∷ aos_cntrlreg_write 0x08 (a.addr app 1)
                ∷ aos_cntrlreg_write 0x10 size
                ∷ aos_cntrlreg_write 0x18 0x0401
                ∷ [])
              ∷ finish 0x108 (value_is 0)
              ∷ each s.num_apps (λ app.
                aos_munmap (a.addr app 0) bytes
                ∷ aos_munmap (a.addr app 1) bytes
                ∷ aos_file_close (a.fd app)
                ∷ [])
              ∷ []))
        else undefined)

  unfoldable pub nw : List ℕ → Main
  nw args =
      let (length0, args1) = next_arg 10 args in
      let (length1, args2) = next_arg length0 args1 in
      assert_that (leb length0 20) (
        assert_that (leb length1 20) (
          with_settings args2 λ s.
            let s0_words = 2 ^ length0 in
            let s1_words = 2 ^ length1 in
            let sc_count = mul64 (mul64 s0_words 4) (mul64 s1_words 4) in
            let sc_words = add64 sc_count 63 / 64 in
            let bytes0 = mul64 s0_words 64 in
            let bytes1 = mul64 s1_words 64 in
            let bytes2 = mul64 sc_words 64 in
            program (
              clients s
              ∷ open_files s
              ∷ each s.num_apps (λ app.
                aos_mmap 0 bytes0 prot_read (map_flags s) (a.fd app) 0
                ∷ aos_mmap (a.addr app 0) bytes1 prot_read (map_flags s) (a.fd app) bytes0
                ∷ aos_mmap (a.addr app 1) bytes2 prot_write (map_flags s) (a.fd app)
                    (add64 bytes0 bytes1)
                ∷ [])
              ∷ each s.num_apps (λ app.
                aos_cntrlreg_write 0x00 (a.addr app 0)
                ∷ aos_cntrlreg_write 0x08 s0_words
                ∷ aos_cntrlreg_write 0x10 (a.addr app 1)
                ∷ aos_cntrlreg_write 0x18 s1_words
                ∷ aos_cntrlreg_write 0x20 256
                ∷ aos_cntrlreg_write 0x28 sc_count
                ∷ aos_cntrlreg_write 0x30 (a.addr app 2)
                ∷ aos_cntrlreg_write 0x38 sc_words
                ∷ [])
              ∷ finish 0x48 (value_is 0)
              ∷ each s.num_apps (λ app.
                aos_munmap (a.addr app 0) bytes0
                ∷ aos_munmap (a.addr app 1) bytes1
                ∷ aos_munmap (a.addr app 2) bytes2
                ∷ aos_file_close (a.fd app)
                ∷ [])
              ∷ [])))

  -- rng.cpp: the reads of the counters come after the runs.
  unfoldable pub rng : List ℕ → Main
  rng args =
      let (rw_mode, args1) = next_arg 1 args in
      let (size_shift, args2) = next_arg 6 args1 in
      let (linear_arg, args3) = next_arg 0 args2 in
      let reading = nonzero (bit_and rw_mode 1) in
      let writing = nonzero (bit_and rw_mode 2) in
      let linear = if nonzero linear_arg then 1 else 0 in
      assert_that (leb 1 rw_mode && leb rw_mode 3) (
        assert_that (leb size_shift 15) (
          with_settings args3 λ s.
            let bytes = 2 ^ (19 + 6 + size_shift) in
            let prot =
              bit_or (if reading then prot_read else 0) (if writing then prot_write else 0) in
            let reg = if writing then 0x20 else 0x00 in
            program (
              clients s
              ∷ open_files s
              ∷ each s.num_apps (λ app. aos_mmap 0 bytes prot (map_flags s) (a.fd app) 0 ∷ [])
              ∷ each s.num_apps (λ app.
                let value = bit_or (bit_or (a.addr app 0) (size_shift <<< 48)) (linear <<< 52) in
                (if reading then aos_cntrlreg_write 0 value ∷ [] else [])
                ++ (if writing then aos_cntrlreg_write 0x20 value ∷ [] else []))
              ∷ finish reg value_stays
              ∷ each s.num_apps (λ app. aos_cntrlreg_read reg ∷ [])
              ∷ drop_source s bytes
              ∷ [])))

  unfoldable pub gups : List ℕ → Main
  gups args =
      let (length, args1) = next_arg 25 args in
      let (big, args2) = next_arg 0 args1 in
      assert_that (leb length 34) (
        assert_that (leb big 1) (
          with_settings args2 λ s. shift_one length λ m.
            let bytes = mul64 m 8 in
            program (
              clients s
              ∷ each s.num_apps (λ app.
                (if nonzero big then aos_set_mode 5 1 ∷ [] else [])
                ++ (aos_file_open (file_name app) ∷ []))
              ∷ each s.num_apps
                  (λ app. aos_mmap 0 bytes (prot_read + prot_write) (map_flags s) (a.fd app) 0 ∷ [])
              ∷ each s.num_apps
                  (λ app. aos_cntrlreg_write 0x00 (a.addr app 0) ∷ aos_cntrlreg_write 0x10 m ∷ [])
              ∷ finish 0x00 value_stays
              ∷ each s.num_apps (λ app. aos_cntrlreg_read 0x00 ∷ [])
              ∷ each s.num_apps (λ app.
                aos_munmap (a.addr app 0) bytes
                ∷ aos_file_close (a.fd app)
                ∷ (if nonzero big then aos_set_mode 5 0 ∷ [] else []))
              ∷ [])))

  -- dnn.cpp, which passes addresses that were never set to `aos_mmap`.
  unfoldable pub dnn : List ℕ → Main
  unfolding kernel_runs
  dnn args =
      let (kernels, rest) = next_arg 1 args in
      with_settings rest λ s.
        let bytes = mul64 kernels (358 * 4096) in
        program (
          (clients s
            ∷ open_files s
            ∷ each s.num_apps (λ app.
              aos_mmap (a.unset app) bytes (prot_read + prot_write) (map_flags s) (a.fd app) 0 ∷ [])
            ∷ [])
          ++ (kernel_runs s.num_apps kernels (λ app. a.addr app 0) ++ (drop_source s bytes ∷ [])))
