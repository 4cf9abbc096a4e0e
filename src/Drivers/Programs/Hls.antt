-- ===== src/Drivers/Programs/Hls.antt =====
-- The main programs that drive the accelerators written in C++: hls_sha.cpp, hls_hll.cpp,
-- hls_flow.cpp, hls_pgrnk.cpp and hls_tri.cpp.
use amorphos_fsrf.Common.{
  ℕ, ◌+◌, ◌*◌, ◌/◌, ◌%◌, ◌^◌, Bool, ◌||◌, List, [], ◌∷◌, ◌++◌, add64, mul64, leb, ◌==◌,
  if◌then◌else◌, get_or,
}
use amorphos_fsrf.Client.{
  Call, aos_cntrlreg_read, aos_cntrlreg_write, aos_file_open, aos_file_close, aos_mmap, aos_munmap,
  aos_set_mode,
}
use amorphos_fsrf.Setup.{Settings, next_arg}
use amorphos_fsrf.Drivers.{Phase, each, on, finish, Answers, Main, undefined, program}
use amorphos_fsrf.Drivers.Programs.{
  codes, prot_read, prot_write, map_flags, assert_that, with_settings, shift_one, bit_one, clients,
  open_files, map_source, drop_source,
}

-- Runs of an accelerator whose control register is at 0.
abbrev pub acknowledge : Settings → Phase
acknowledge s = each s.num_apps (λ app. aos_cntrlreg_write 0x00 0x10 ∷ [])

-- The names in `fnames`, with the application put in for `%lu`.
abbrev pub sized_name : ℕ → ℕ → List ℕ
sized_name fname_sel app =
    get_or
      (codes "/mnt/nvme0/file"
        ∷ codes "/mnt/nvme0/small"
        ∷ codes "/mnt/nvme0/medium"
        ∷ codes "/mnt/nvme0/large"
        ∷ [])
      fname_sel []
    ++ ((48 + app) ∷ codes ".bin")

-- The lengths of the regions that hls_pgrnk.cpp reads and writes.
abbrev pub read_length : ℕ → ℕ → ℕ
read_length num_verts num_edges = add64 (mul64 num_verts (16 + 8)) (mul64 num_edges 8)

abbrev pub write_length : ℕ → ℕ
write_length num_verts = mul64 num_verts 8

-- The graph's number is the first two characters of the first argument.
abbrev pub graph_name : Bool → ℕ → ℕ → ℕ → List ℕ
graph_name large first second app =
    codes "/mnt/nvme0/graph"
    ++ ((if large then 51 else first) ∷ second ∷ 95 ∷ (48 + app) ∷ codes ".bin")

module _ (a : Answers) where
  unfoldable pub hls_sha : List ℕ → Main
  hls_sha args =
      let (length, rest) = next_arg 25 args in
      assert_that (leb length 34) (
        with_settings rest λ s. shift_one length λ num_words. program (
          clients s
          ∷ open_files s
          ∷ map_source a s (mul64 num_words 64)
          ∷ each s.num_apps (λ app.
            aos_cntrlreg_write 0x48 (a.addr app 0)
            ∷ aos_cntrlreg_write 0x58 num_words
            ∷ aos_cntrlreg_write 0x00 0x1
            ∷ [])
          ∷ finish 0x00 bit_one
          ∷ acknowledge s
          ∷ drop_source a s (mul64 num_words 64)
          ∷ []))

  unfoldable pub hls_hll : List ℕ → Main
  hls_hll args =
      let (length, rest) = next_arg 25 args in
      assert_that (leb length 34) (
        with_settings rest λ s. shift_one length λ num_words. program (
          clients s
          ∷ open_files s
          ∷ map_source a s (mul64 num_words 64)
          ∷ each s.num_apps (λ app.
            aos_cntrlreg_write 0x30 (a.addr app 0)
            ∷ aos_cntrlreg_write 0x40 num_words
            ∷ aos_cntrlreg_write 0x00 0x1
            ∷ [])
          ∷ finish 0x00 bit_one
          ∷ each s.num_apps (λ app. aos_cntrlreg_write 0x00 0x10 ∷ aos_cntrlreg_read 0x20 ∷ [])
          ∷ drop_source a s (mul64 num_words 64)
          ∷ []))

  unfoldable pub hls_flow : List ℕ → Main
  hls_flow args =
      let (length, rest) = next_arg 8 args in
      assert_that (leb length 17) (
        with_settings rest λ s.
          let n = 2 ^ length in
          let bytes = 512 * 1024 * 8 * n in
          program (
            clients s
            ∷ open_files s
            ∷ each s.num_apps (λ app.
              aos_mmap 0 bytes prot_read (map_flags s) (a.fd app) 0
              ∷ aos_mmap 0 bytes prot_write (map_flags s) (a.fd app) bytes
              ∷ [])
            ∷ each s.num_apps (λ app.
              aos_cntrlreg_write 0x20 (a.addr app 0)
              ∷ aos_cntrlreg_write 0x30 (a.addr app 1)
              ∷ aos_cntrlreg_write 0x40 n
              ∷ aos_cntrlreg_write 0x00 0x1
              ∷ [])
            ∷ finish 0x00 bit_one
            ∷ acknowledge s
            ∷ each s.num_apps (λ app.
              aos_munmap (a.addr app 0) bytes
              ∷ aos_munmap (a.addr app 1) bytes
              ∷ aos_file_close (a.fd app)
              ∷ [])
            ∷ []))

  -- The registers of the accelerator: counts, and where the vertices, edges, weights and results are.
  abbrev pub rank_registers : ℕ → ℕ → ℕ → List Call
  rank_registers num_verts num_edges app =
      let vert_ptr = a.addr app 0 in
      let edge_ptr = add64 vert_ptr (mul64 num_verts 16) in
      aos_cntrlreg_write 0x20 num_verts
      ∷ aos_cntrlreg_write 0x30 num_edges
      ∷ aos_cntrlreg_write 0x40 vert_ptr
      ∷ aos_cntrlreg_write 0x50 edge_ptr
      ∷ aos_cntrlreg_write 0x60 (add64 edge_ptr (mul64 num_edges 8))
      ∷ aos_cntrlreg_write 0x70 (a.addr app 1)
      ∷ []

  unfoldable pub hls_pgrnk : List ℕ → Main
  hls_pgrnk args =
      let (num_verts, args1) = next_arg 4 args in
      let (num_edges, args2) = next_arg 8 args1 in
      let (fname_sel, args3) = next_arg 0 args2 in
      assert_that (num_verts % 4 == 0) (
        assert_that (num_edges % 8 == 0) (
          assert_that (leb fname_sel 3) (
            with_settings args3 λ s. program (
              clients s
              ∷ each s.num_apps (λ app. aos_file_open (sized_name fname_sel app) ∷ [])
              ∷ each s.num_apps (λ app.
                aos_mmap 0 (read_length num_verts num_edges) prot_read (map_flags s) (a.fd app) 0
                ∷ aos_mmap 0 (write_length num_verts) prot_write (map_flags s) (a.fd app)
                    (read_length num_verts num_edges)
                ∷ [])
              ∷ each s.num_apps (λ app.
                rank_registers num_verts num_edges app ++ (aos_cntrlreg_write 0x00 0x1 ∷ []))
              ∷ finish 0x00 bit_one
              ∷ acknowledge s
              ∷ each s.num_apps (λ app.
                aos_munmap (a.addr app 0) (read_length num_verts num_edges)
                ∷ aos_munmap (a.addr app 1) (write_length num_verts)
                ∷ aos_file_close (a.fd app)
                ∷ [])
              ∷ []))))

  -- Undefined without a first argument, and with fewer than four clients, since it uses all four.
  unfoldable pub hls_tri : (first second : ℕ) → List ℕ → Main
  hls_tri first second [] = undefined
  hls_tri first second (asked ∷ rest) =
      let large = asked == 41 in
      let length = if large then 31 else asked in
      assert_that (leb asked 34 || large) (
        with_settings rest λ s.
          let num_words = 2 ^ length / 64 in
          if s.num_apps == 4
          then (program (
              clients s
              ∷ each 4 (λ i. aos_set_mode 5 (if large then 1 else 0) ∷ [])
              ∷ each s.num_apps (λ app. aos_file_open (graph_name large first second app) ∷ [])
              ∷ map_source a s (mul64 num_words 64)
              ∷ each s.num_apps (λ app.
                aos_cntrlreg_write 0x60 (a.addr app 0)
                ∷ aos_cntrlreg_write 0x70 (a.addr app 0)
                ∷ aos_cntrlreg_write 0x80 (a.addr app 0)
                ∷ aos_cntrlreg_write 0x90 num_words
                ∷ aos_cntrlreg_write 0x00 0x1
                ∷ [])
              ∷ finish 0x00 bit_one
              ∷ each s.num_apps (λ app. aos_cntrlreg_write 0x00 0x10 ∷ aos_cntrlreg_read 0x50 ∷ [])
              ∷ on 0 (
                  aos_cntrlreg_read 0x20
                  ∷ aos_cntrlreg_read 0x28
                  ∷ aos_cntrlreg_read 0x30
                  ∷ aos_cntrlreg_read 0x38
                  ∷ aos_cntrlreg_read 0x40
                  ∷ aos_cntrlreg_read 0x48
                  ∷ [])
              ∷ each s.num_apps (λ app.
                aos_set_mode 5 0
                ∷ aos_munmap (a.addr app 0) (mul64 num_words 64)
                ∷ aos_file_close (a.fd app)
                ∷ [])
              ∷ []))
          else undefined)
