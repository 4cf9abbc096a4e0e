-- ===== src/CpuRng.antt =====
-- The processor's side of the random-access benchmark, sw/app/cpu_rng.cpp: pages of a file of 2^31
-- bytes, in the order of a permutation, each moved at its first access only.  `moves` is the system's
-- `pread` or `pwrite`: what it returns for a transfer, after the transfers so far.
pub mod Coverage
pub mod Range
use amorphos_fsrf.Common.{
  ℕ, zero, suc, ◌+◌, ◌-◌, ◌*◌, ◌/◌, ◌%◌, ◌^◌, Bool, true, false, List, [], ◌∷◌, mul64, ◌<<<◌,
  bit_and, bit_xor, nonzero, ltb, ◌==◌, if◌then◌else◌,
}

-- `temp = (temp * temp) & 0x3FFFFFFFFF`, reduced by the prime 2^19 - 1, and turned over for an index
-- with bit 18; the result is cut to 32 bits.
unfoldable pub permute : ℕ → ℕ
permute idx =
    let prime = 2 ^ 19 - 1 in
    let temp = bit_and (mul64 idx idx) (2 ^ 38 - 1) % prime in
    (if nonzero (bit_and idx (1 <<< 18)) then prime - temp else temp) % 2 ^ 32

-- One call of `pread` or `pwrite`.
pub record Io : Type 0 where
  pub reading : Bool
  pub io_size : ℕ
  pub offset : ℕ

-- The vector of flags, and the calls so far, the last one first.
pub record Scan : Type 0 where
  pub faulted : ℕ → Bool
  pub calls : List Io

pub data Outcome : Type 0 where
  finished : Scan → Outcome
  failed : Scan → Outcome
  out_of_range : Outcome

unfoldable pub big_page : ℕ → ℕ → ℕ
big_page page_size i = permute (bit_xor (permute i) 13877) / page_size

unfoldable pub io_of : Bool → ℕ → ℕ → Io
io_of reading page_size page = record {
  reading = reading;
  io_size = page_size <<< 12;
  offset = mul64 page_size page <<< 12;
}

abbrev pub mark : ℕ → (ℕ → Bool) → ℕ → Bool
mark page faulted = λ p. if p == page then true else faulted p

module _ (moves : List Io → Io → ℕ) (reading : Bool) (page_size : ℕ) where
  -- The body of the loop, for a page in the range of the flags.
  unfoldable pub access : ℕ → Scan → Outcome
  access page s =
      let io = io_of reading page_size page in
      if s.faulted page
      then finished s
      else if moves s.calls io == io.io_size
      then finished (record s { faulted = mark page s.faulted; calls = io ∷ s.calls })
      else failed s

  unfoldable pub step : ℕ → Scan → Outcome
  step i s =
      if ltb (big_page page_size i) (2 ^ 19 / page_size)
      then access (big_page page_size i) s
      else out_of_range

  abbrev pub after : Outcome → (Scan → Outcome) → Outcome
  after (finished s) go_on = go_on s
  after (failed s) go_on = failed s
  after out_of_range go_on = out_of_range

  -- `n` rounds from `i` on.
  unfoldable pub scan : ℕ → ℕ → Scan → Outcome
  scan zero i s = finished s
  scan (suc n) i s = after (step i s) (scan n (suc i))

unfoldable pub cpu_rng : (List Io → Io → ℕ) → Bool → ℕ → Outcome
cpu_rng moves reading page_size =
    scan moves reading page_size (2 ^ 19) 0 (record { faulted = λ p. false; calls = [] })
