-- ===== src/Drivers/Sessions/Plain.antt =====
-- The sessions of the programs that drive accelerators written in Verilog.
use amorphos_fsrf.Common.{
  ℕ, zero, suc, ◌*◌, Bool, true, false, List, [], ◌∷◌, ◌++◌, add64, mul64, ltb, ◌≡◌, refl,
  if◌then◌else◌, fun_ext, Bool-cases, inl, inr, nonzero, bit_and,
}
use amorphos_fsrf.Setup.{next_arg, setup_client}
use amorphos_fsrf.Drivers.{Phase, Answers, Main, calls_of}
use amorphos_fsrf.Drivers.Programs.{
  drop_source, kernel_runs, aes, md5, sha, conv, nw, rng, gups, dnn,
}
use amorphos_fsrf.Drivers.Sessions.{Held, perform, Tidy}
use amorphos_fsrf.Drivers.Sessions.Regions.{
  Gives, assert_that-Gives, with_settings-Gives, shift_one-Gives, one_region, two_regions,
  three_regions,
}

module _ (a : Answers) (j : ℕ) (args : List ℕ) where
  pub aes-Tidy : Gives (Tidy a j) (aes a args)
  unfolding aes calls_of perform setup_client
  aes-Tidy =
      (assert_that-Gives (Tidy a j) _ _ (
        with_settings-Gives (Tidy a j) _ _ λ s.
          shift_one-Gives (Tidy a j) _ _ (elim (Bool-cases (ltb j s.num_apps)) [
            | inl e ↦ (2, rw e (two_regions (a.fd j) (a.addr j) _ _))
            | inr e ↦ (0, rw e refl)
          ])))

  pub md5-Tidy : Gives (Tidy a j) (md5 a args)
  unfolding md5 calls_of perform setup_client
  md5-Tidy =
      (assert_that-Gives (Tidy a j) _ _ (
        with_settings-Gives (Tidy a j) _ _ λ s.
          shift_one-Gives (Tidy a j) _ _ (elim (Bool-cases (ltb j s.num_apps)) [
            | inl e ↦ (1, rw e (one_region (a.fd j) (a.addr j) _))
            | inr e ↦ (0, rw e refl)
          ])))

  pub sha-Tidy : Gives (Tidy a j) (sha a args)
  unfolding sha calls_of perform setup_client
  sha-Tidy =
      (assert_that-Gives (Tidy a j) _ _ (
        with_settings-Gives (Tidy a j) _ _ λ s.
          shift_one-Gives (Tidy a j) _ _ (elim (Bool-cases (ltb j s.num_apps)) [
            | inl e ↦ (1, rw e (one_region (a.fd j) (a.addr j) _))
            | inr e ↦ (0, rw e refl)
          ])))

  pub nw-Tidy : Gives (Tidy a j) (nw a args)
  unfolding nw calls_of perform setup_client
  nw-Tidy =
      (assert_that-Gives (Tidy a j) _ _ (
        assert_that-Gives (Tidy a j) _ _ (
          with_settings-Gives (Tidy a j) _ _ λ s. (elim (Bool-cases (ltb j s.num_apps)) [
            | inl e ↦ (3, rw e (three_regions (a.fd j) (a.addr j) _ _ _))
            | inr e ↦ (0, rw e refl)
          ]))))

  pub rng-Tidy : Gives (Tidy a j) (rng a args)
  unfolding rng calls_of perform setup_client
  rng-Tidy = assert_that-Gives (Tidy a j) _ _ (
      assert_that-Gives (Tidy a j) _ _ (
        with_settings-Gives (Tidy a j) _ _ λ s. elim (Bool-cases (ltb j s.num_apps)) [
          | inl e ↦ (
            1,
            rw e (elim (Bool-cases (nonzero (bit_and (next_arg 1 args).0 1))) [
              | inl r ↦ elim (Bool-cases (nonzero (bit_and (next_arg 1 args).0 2))) [
                | inl w ↦ rw (r, w) (one_region (a.fd j) (a.addr j) _)
                | inr w ↦ rw (r, w) (one_region (a.fd j) (a.addr j) _)
              ]
              | inr r ↦ elim (Bool-cases (nonzero (bit_and (next_arg 1 args).0 2))) [
                | inl w ↦ rw (r, w) (one_region (a.fd j) (a.addr j) _)
                | inr w ↦ rw (r, w) (one_region (a.fd j) (a.addr j) _)
              ]
            ]),
          )
          | inr e ↦ (0, rw e refl)
        ]))

  pub gups-Tidy : Gives (Tidy a j) (gups a args)
  unfolding gups calls_of perform setup_client
  gups-Tidy = assert_that-Gives (Tidy a j) _ _ (
      assert_that-Gives (Tidy a j) _ _ (
        with_settings-Gives (Tidy a j) _ _ λ s.
          shift_one-Gives (Tidy a j) _ _ (elim (Bool-cases (ltb j s.num_apps)) [
            | inl e ↦ (
              1,
              rw e (elim (Bool-cases (nonzero (next_arg 0 (next_arg 25 args).1).0)) [
                | inl big ↦ rw big (one_region (a.fd j) (a.addr j) _)
                | inr small ↦ rw small (one_region (a.fd j) (a.addr j) _)
              ]),
            )
            | inr e ↦ (0, rw e refl)
          ])))

  when-Gives :
      (b : Bool) (m n : Main)
      → Gives (Tidy a j) m
      → Gives (Tidy a j) n
      → Gives (Tidy a j) (if b then m else n)
  when-Gives true m n h k = h
  when-Gives false m n h k = k

  pub conv-Tidy : Gives (Tidy a j) (conv a args)
  unfolding conv calls_of perform setup_client
  conv-Tidy = assert_that-Gives (Tidy a j) _ _ (
      when-Gives (ltb (next_arg 25 args).0 4) _ _
        (with_settings-Gives (Tidy a j) _ _ λ s. elim (Bool-cases (ltb j s.num_apps)) [
          | inl e ↦ (2, rw e (two_regions (a.fd j) (a.addr j) _ _))
          | inr e ↦ (0, rw e refl)
        ])
        tt)

  -- The runs of dnn.cpp change nothing that is held.
  kernel_runs_skip :
      (f : ℕ) (addr : ℕ → ℕ) (num_apps kernels : ℕ) (start_addr : ℕ → ℕ) (rest : List Phase)
      (h : Held)
      → perform f addr (calls_of j (kernel_runs num_apps kernels start_addr ++ rest)) h
        ≡ perform f addr (calls_of j rest) h
  unfolding kernel_runs calls_of perform
  kernel_runs_skip f addr num_apps zero start_addr rest h = refl
  kernel_runs_skip f addr num_apps (suc kernels) start_addr rest h =
      let later =
        kernel_runs_skip f addr num_apps kernels (λ app. add64 (start_addr app) (358 * 4096)) rest
          h in
      elim (Bool-cases (ltb j num_apps)) [ inl e ↦ rw e later | inr e ↦ rw e later ]

  pub dnn-Tidy : Gives (Tidy a j) (dnn a args)
  unfolding dnn calls_of perform setup_client
  dnn-Tidy = with_settings-Gives (Tidy a j) _ _ λ s.
      let bytes = mul64 (next_arg 1 args).0 (358 * 4096) in
      let skip = fun_ext (
        kernel_runs_skip (a.fd j) (a.addr j) s.num_apps (next_arg 1 args).0 (λ app. a.addr app 0)
          (drop_source a s bytes ∷ [])) in
      elim (Bool-cases (ltb j s.num_apps)) [
        | inl e ↦ (1, rw (e, skip, e) (one_region (a.fd j) (a.addr j) bytes))
        | inr e ↦ (0, rw (e, skip, e) refl)
      ]
