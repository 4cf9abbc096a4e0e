-- ===== src/Fio/Alloc.antt =====
-- Physical memory of sw/daemon/aos_fio.hpp: allocation in a ring of device pages, and the eviction
-- of the pages that a second turn of the ring takes.
pub mod Ring
use amorphos_fsrf.Common.{
  ℕ, zero, suc, ◌+◌, ◌*◌, ◌^◌, Bool, true, false, ◌&&◌, Option, none, some, add64, sub64, ltb, ◌==◌,
  if◌then◌else◌, ◌<<<◌,
}
use amorphos_fsrf.Fio.{
  Fio, Run, ok, undefined, running, Cmd, get, modify, pure, ◌>>=◌, ◌>>◌, invalid_vpn,
}
use amorphos_fsrf.Fio.Sync.{msync}

-- `ppo_to_vpn[ppo]`
unfoldable pub read_ppo : ℕ → Cmd ℕ
read_ppo ppo s = if ltb ppo s.ppo_size then ok (s.ppo_to_vpn ppo) s else undefined

-- The loop that skips pages that hold nothing: the offset it ends at and what stands there.
unfoldable pub skip_from : ℕ → ℕ → ℕ → ℕ → Cmd (ℕ × ℕ)
unfolding read_ppo
skip_from zero ppo base_vpn ppo_bound = λ _. running
skip_from (suc n) ppo base_vpn ppo_bound =
    let later = read_ppo (ppo + 1) >>= λ v. skip_from n (ppo + 1) v ppo_bound in
    if base_vpn == invalid_vpn && ltb ppo ppo_bound then later else pure (ppo, base_vpn)

-- The `do` loop over a run of consecutive virtual pages.
unfoldable pub run_from : ℕ → ℕ → ℕ → ℕ → Cmd (ℕ × ℕ)
unfolding read_ppo
run_from zero ppo bound_vpn ppo_bound = λ _. running
run_from (suc n) ppo bound_vpn ppo_bound =
    let ppo' = ppo + 1 in
    let bound' = add64 bound_vpn 1 in
    let later = run_from n ppo' bound' ppo_bound in
    if ltb ppo' ppo_bound
    then (read_ppo ppo' >>= λ v. if v == bound' then later else pure (ppo', bound'))
    else pure (ppo', bound')

unfoldable pub evict_from : ℕ → ℕ → ℕ → Cmd (Unit {0})
unfolding skip_from run_from
evict_from zero ppo ppo_bound = λ s. if ltb ppo ppo_bound then running else ok tt s
evict_from (suc n) ppo ppo_bound =
    let round : Cmd (Unit {0}) = (do
      s ← get
      first ← read_ppo ppo
      (ppo1, base_vpn) ← skip_from (s.ppo_size + 1) ppo first ppo_bound
      (ppo2, bound_vpn) ← run_from (s.ppo_size + 1) ppo1 base_vpn ppo_bound
      if ltb 0 (sub64 bound_vpn base_vpn)
          then (msync (base_vpn <<< 12) (sub64 bound_vpn base_vpn <<< 12) true >> pure tt)
          else pure tt
      evict_from n ppo2 ppo_bound) in
    if ltb ppo ppo_bound then round else pure tt

unfoldable pub phys_evict : ℕ → ℕ → Cmd (Unit {0})
unfolding evict_from
phys_evict ppn num_pages = do
  s ← get
  evict_from num_pages (sub64 ppn s.phys_base) (sub64 (add64 ppn num_pages) s.phys_base)

-- Where the ring starts: behind the TLB entries in the mode that keeps them in the device memory.
abbrev pub ring_start : Fio → ℕ
ring_start s = if s.standard then add64 s.phys_base (32 * 2 ^ 10) else s.phys_base

-- How many pages are granted of those asked for.
abbrev pub grant : ℕ → Fio → ℕ
grant num_pages s =
    let max_pages = sub64 s.phys_bound s.phys_next in
    if ltb max_pages num_pages then max_pages else num_pages

-- The ring moves on by pages that are granted.
abbrev pub take_pages : ℕ → Fio → Fio
take_pages num_pages s =
    let next = add64 s.phys_next num_pages in
    if next == s.phys_bound
    then record s { phys_overflow = true; phys_next = ring_start s }
    else record s { phys_next = next }

-- The result is the number of pages granted and the first of them.
unfoldable pub phys_alloc_unaligned : ℕ → Cmd (ℕ × ℕ)
unfolding phys_evict
phys_alloc_unaligned num_pages s =
    let n = grant num_pages s in
    let ppn = if ltb 0 n then s.phys_next else 0 in
    ((if s.phys_overflow then phys_evict ppn n else pure tt)
        >> modify (take_pages n)
        >> pure (n, ppn))
      s
