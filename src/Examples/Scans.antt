-- ===== src/Examples/Scans.antt =====
-- The random-access benchmark of the processor (sw/app/cpu_rng.cpp) with whole transfers.
use amorphos_fsrf.Common.{ℕ, ◌+◌, ◌^◌, ◌<◌, ◌≤◌, ◌≡◌, refl, true, false, List, All, arith}
use amorphos_fsrf.CpuRng.{Io, Scan, finished, out_of_range, big_page, cpu_rng}
use amorphos_fsrf.CpuRng.Coverage.{calls_of, listed, Distinct, cpu_rng-calls_of}
use amorphos_fsrf.CpuRng.Range.{cpu_rng-out_of_range}

abbrev whole : List Io → Io → ℕ
whole done io = io.io_size

cpu_rng-calls_of_example :
    (t : Scan) × (pages : List ℕ) × (cpu_rng whole true 512 ≡ finished t)
    × (t.calls ≡ calls_of true 512 pages)
    × Distinct pages
    × All (λ io. io.offset + io.io_size ≤ 2 ^ 31) t.calls
    × ((j : ℕ) → j < 2 ^ 19 → listed (big_page 512 j) pages ≡ true)
cpu_rng-calls_of_example = cpu_rng-calls_of whole true 512 (omega arith) refl (λ done io. refl)

cpu_rng-out_of_range_example : cpu_rng whole false 3 ≡ out_of_range
cpu_rng-out_of_range_example =
    cpu_rng-out_of_range whole false 3 (omega arith) (omega arith) (λ done io. refl)
