-- ===== src/Drivers/Sessions/Tidy.antt =====
-- Every main program releases what it acquired.
use amorphos_fsrf.Common.{
  ℕ, some, List, [], ◌∷◌, ltb, ◌==◌, ◌≡◌, refl, Bool-cases, ==_iff, inl, inr,
}
use amorphos_fsrf.Setup.{setup_client}
use amorphos_fsrf.Drivers.{Phase, Answers, program, calls_of}
use amorphos_fsrf.Drivers.Programs.Hls.{hls_sha, hls_hll, hls_flow, hls_pgrnk, hls_tri}
use amorphos_fsrf.Drivers.Sessions.{
  nothing, perform, Tidy, Program, is_aes, is_md5, is_sha, is_conv, is_nw, is_rng, is_gups, is_dnn,
  is_hls_sha, is_hls_hll, is_hls_flow, is_hls_pgrnk, is_hls_tri, main_of,
}
use amorphos_fsrf.Drivers.Sessions.Regions.{
  Gives, assert_that-Gives, with_settings-Gives, shift_one-Gives, one_region, two_regions,
}
use amorphos_fsrf.Drivers.Sessions.Plain.{
  aes-Tidy, md5-Tidy, sha-Tidy, conv-Tidy, nw-Tidy, rng-Tidy, gups-Tidy, dnn-Tidy,
}

module _ (a : Answers) (j : ℕ) (args : List ℕ) where
  hls_sha-Tidy : Gives (Tidy a j) (hls_sha a args)
  unfolding hls_sha calls_of perform setup_client
  hls_sha-Tidy =
      (assert_that-Gives (Tidy a j) _ _ (
        with_settings-Gives (Tidy a j) _ _ λ s.
          shift_one-Gives (Tidy a j) _ _ (elim (Bool-cases (ltb j s.num_apps)) [
            | inl e ↦ (1, rw e (one_region (a.fd j) (a.addr j) _))
            | inr e ↦ (0, rw e refl)
          ])))

  hls_hll-Tidy : Gives (Tidy a j) (hls_hll a args)
  unfolding hls_hll calls_of perform setup_client
  hls_hll-Tidy =
      (assert_that-Gives (Tidy a j) _ _ (
        with_settings-Gives (Tidy a j) _ _ λ s.
          shift_one-Gives (Tidy a j) _ _ (elim (Bool-cases (ltb j s.num_apps)) [
            | inl e ↦ (1, rw e (one_region (a.fd j) (a.addr j) _))
            | inr e ↦ (0, rw e refl)
          ])))

  hls_flow-Tidy : Gives (Tidy a j) (hls_flow a args)
  unfolding hls_flow calls_of perform setup_client
  hls_flow-Tidy =
      (assert_that-Gives (Tidy a j) _ _ (
        with_settings-Gives (Tidy a j) _ _ λ s. (elim (Bool-cases (ltb j s.num_apps)) [
          | inl e ↦ (2, rw e (two_regions (a.fd j) (a.addr j) _ _))
          | inr e ↦ (0, rw e refl)
        ])))

  hls_pgrnk-Tidy : Gives (Tidy a j) (hls_pgrnk a args)
  unfolding hls_pgrnk calls_of perform setup_client
  hls_pgrnk-Tidy =
      (assert_that-Gives (Tidy a j) _ _ (
        assert_that-Gives (Tidy a j) _ _ (
          assert_that-Gives (Tidy a j) _ _ (
            with_settings-Gives (Tidy a j) _ _ λ s. (elim (Bool-cases (ltb j s.num_apps)) [
              | inl e ↦ (2, rw e (two_regions (a.fd j) (a.addr j) _ _))
              | inr e ↦ (0, rw e refl)
            ])))))

hls_tri-Tidy :
    (a : Answers) (j first second : ℕ) (args : List ℕ)
    → Gives (Tidy a j) (hls_tri a first second args)
unfolding hls_tri calls_of perform setup_client
hls_tri-Tidy a j first second [] = tt
hls_tri-Tidy a j first second (asked ∷ rest) = assert_that-Gives (Tidy a j) _ _ (
    with_settings-Gives (Tidy a j) _ _ λ s. elim (Bool-cases (s.num_apps == 4)) [
      | inr fewer ↦ rw fewer tt
      | inl all_four ↦ rw ((==_iff s.num_apps 4).0 all_four) (elim (Bool-cases (ltb j 4)) [
        | inl e ↦ elim (Bool-cases (j == 0)) [
          | inl first_app ↦ (1, rw (e, first_app) (one_region (a.fd j) (a.addr j) _))
          | inr other ↦ (1, rw (e, other) (one_region (a.fd j) (a.addr j) _))
        ]
        | inr e ↦ elim (Bool-cases (j == 0)) [
          | inl first_app ↦ (0, rw (e, first_app) refl)
          | inr other ↦ (0, rw (e, other) refl)
        ]
      ])
    ])

main-Tidy :
    (p : Program) (a : Answers) (j : ℕ) (args : List ℕ) → Gives (Tidy a j) (main_of p a args)
unfolding main_of
main-Tidy is_aes a j args = aes-Tidy a j args
main-Tidy is_md5 a j args = md5-Tidy a j args
main-Tidy is_sha a j args = sha-Tidy a j args
main-Tidy is_conv a j args = conv-Tidy a j args
main-Tidy is_nw a j args = nw-Tidy a j args
main-Tidy is_rng a j args = rng-Tidy a j args
main-Tidy is_gups a j args = gups-Tidy a j args
main-Tidy is_dnn a j args = dnn-Tidy a j args
main-Tidy is_hls_sha a j args = hls_sha-Tidy a j args
main-Tidy is_hls_hll a j args = hls_hll-Tidy a j args
main-Tidy is_hls_flow a j args = hls_flow-Tidy a j args
main-Tidy is_hls_pgrnk a j args = hls_pgrnk-Tidy a j args
main-Tidy (is_hls_tri first second) a j args = hls_tri-Tidy a j first second args

-- Whatever the arguments, the answers of the daemon and what unset variables hold: each application of
-- a program that runs opens its file before it maps regions of it, unmaps only regions that it mapped,
-- with their addresses and lengths, closes the file when none is left, and ends with no file open and
-- no region mapped.
pub main_of-Tidy :
    (p : Program) (a : Answers) (j : ℕ) (args : List ℕ) (phases : List Phase)
    → main_of p a args ≡ program phases
    → (n : ℕ) × (perform (a.fd j) (a.addr j) (calls_of j phases) nothing
        ≡ some (record { files = []; regions = []; mapped = n }))
main_of-Tidy p a j args phases runs = rw runs at (main-Tidy p a j args)
