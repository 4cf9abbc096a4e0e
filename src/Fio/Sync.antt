-- ===== src/Fio/Sync.antt =====
-- `msync` of sw/daemon/aos_fio.hpp and the address of a page's TLB entry in the device memory.
pub mod Address
pub mod Reference
pub mod Agreement
pub mod Draining
pub mod Saving
pub mod Wiped
pub mod Cells
pub mod Clearing
pub mod Rounds
pub mod Writing
use amorphos_fsrf.Common.{
  ℕ, zero, suc, ◌+◌, ◌-◌, ◌*◌, ◌/◌, ◌^◌, Bool, true, false, ◌&&◌, ◌||◌, not, Option, none, some,
  bit_and, add64, sub64, ltb, ◌==◌, if◌then◌else◌, ◌<<<◌, ◌>>>◌,
}
use amorphos_fsrf.Host.{World}
use amorphos_fsrf.Fpga.{write_mem_reg}
use amorphos_fsrf.Tlb
use amorphos_fsrf.Tlb.{Tlb, small, large, segment}
use amorphos_fsrf.Fio.{
  Fio, Vme, Run, ok, undefined, Cmd, get, modify, pure, ◌>>=◌, ◌>>◌, update, invalid_vpn,
}
use amorphos_fsrf.Fio.Transfer.{device_to_file}

-- The offset of an application's TLB entries; another index is out of bounds.
abbrev pub app_offsets : ℕ → Option ℕ
app_offsets app_id =
    if app_id == 0
    then some 0
    else if app_id == 1
    then some (32 * 2 ^ 30)
    else if app_id == 2
    then some (16 * 2 ^ 30)
    else if app_id == 3
    then some (48 * 2 ^ 30)
    else none

unfoldable pub tlb_addr : ℕ → ℕ → Option ℕ
tlb_addr app_id vpn =
    let vpn_index = bit_and vpn (2 ^ 21 - 1) in
    let vpn_offset = bit_and (vpn >>> 21) 0x7 in
    elim (app_offsets app_id) [
      | none ↦ none
      | some offset ↦ some (vpn_index * 64 + offset + vpn_offset * 8)
    ]

-- `write_mem_reg` at the address of a page's TLB entry.
unfoldable pub write_tlb_dram : ℕ → ℕ → Cmd (Unit {0})
unfolding tlb_addr
write_tlb_dram vpn entry s = elim (tlb_addr s.app_id vpn) [
  | none ↦ undefined
  | some dram_addr ↦ ok tt (record s { world = (write_mem_reg dram_addr entry s.world).world })
]

-- A method of the Coyote TLB.
abbrev pub on_tlb : (Tlb × World → Tlb × World) → Cmd (Unit {0})
on_tlb f s = let after = f (s.tlb, s.world) in ok tt (record s { tlb = after.0; world = after.1 })

-- An assignment to `ppo_to_vpn` at a page's offset.
unfoldable pub set_ppo : ℕ → ℕ → Cmd (Unit {0})
set_ppo ppo vpn s =
    if ltb ppo s.ppo_size
    then ok tt (record s { ppo_to_vpn = update s.ppo_to_vpn ppo vpn })
    else undefined

-- The I/O that is being put together: `queued_io` and its four variables.
pub record Io : Type 0 where
  pub fd : ℕ
  pub ppn : ℕ
  pub np : ℕ
  pub po : ℕ

-- The variables of the loop.
pub record Pass : Type 0 where
  pub rc : ℕ
  pub queued : Option Io
  pub current_huge : ℕ

-- The entry of a present page leaves the TLB; the result is `current_huge`.
unfoldable pub drop_tlb : ℕ → ℕ → Cmd ℕ
unfolding write_tlb_dram
drop_tlb vpn current_huge s =
    if s.standard
    then (write_tlb_dram vpn 0 >> pure current_huge) s
    else if s.coyote
    then (if s.coyote_huge && not (current_huge == vpn >>> 9)
        then (on_tlb (Tlb.remove small vpn)
              >> on_tlb (Tlb.remove large (vpn >>> 9))
              >> modify (λ s. record s { huge_page = update s.huge_page (vpn >>> 9) false })
              >> pure (vpn >>> 9))
            s
        else (on_tlb (Tlb.remove small vpn) >> pure current_huge) s)
    else if s.aos_seg
    then (on_tlb (Tlb.remove segment (vpn >>> 20)) >> pure current_huge) s
    else ok current_huge s

abbrev pub new_io : Vme → Io
new_io e = record { fd = e.fd; ppn = e.ppn; np = 1; po = e.fd_pn }

-- Whether the queued I/O cannot take the page as its next one.
abbrev pub breaks : Io → Vme → Bool
breaks io e =
    not (io.fd == e.fd)
    || not (add64 io.ppn io.np == e.ppn)
    || not (add64 io.po io.np == e.fd_pn)
    || io.np == 512

-- A dirty page extends the queued I/O, or starts a new one when the queued one was done.
unfoldable pub write_back : Vme → Option Io → Cmd (Option Io)
write_back e none = pure (some (new_io e))
write_back e (some io) =
    if breaks io e
    then (device_to_file io.ppn io.np io.fd io.po >> pure (some (new_io e)))
    else pure (some (record io { np = add64 io.np 1 }))

-- The page is no longer present.
unfoldable pub drop_entry : ℕ → Vme → Cmd (Unit {0})
unfolding set_ppo
drop_entry vpn e = do
  s ← get
  set_ppo (sub64 e.ppn s.phys_base) invalid_vpn
  modify (λ s. record s {
    vm_maps = update s.vm_maps vpn (some (record e { ppn = 0; present = false }));
  })

-- A round of the loop at a page that has an entry.
unfoldable pub sync_entry : Bool → ℕ → Vme → Pass → Cmd Pass
unfolding drop_tlb write_back drop_entry
sync_entry invalidate vpn e p = do
  huge ← if invalidate && e.present then drop_tlb vpn p.current_huge else pure p.current_huge
  queued ← if e.present && e.writable then write_back e p.queued else pure p.queued
  if invalidate && e.present then drop_entry vpn e else pure tt
  pure (record p { queued = queued; current_huge = huge })

unfoldable pub sync_page : Bool → ℕ → Pass → Cmd Pass
unfolding sync_entry
sync_page invalidate vpn p s = elim (s.vm_maps vpn) [
  | none ↦ ok (record p { rc = 1 }) s
  | some e ↦ sync_entry invalidate vpn e p s
]

-- The loop, from `vpn` on.
unfoldable pub sync_from : ℕ → ℕ → Bool → Pass → Cmd Pass
unfolding sync_page
sync_from zero vpn invalidate p = pure p
sync_from (suc n) vpn invalidate p =
    sync_page invalidate vpn p >>= λ p'. sync_from n (vpn + 1) invalidate p'

unfoldable pub flush : Option Io → Cmd (Unit {0})
flush none = pure tt
flush (some io) = device_to_file io.ppn io.np io.fd io.po

abbrev pub first_pass : Pass
first_pass = record { rc = 0; queued = none; current_huge = invalid_vpn }

abbrev pub page_len : ℕ → ℕ
page_len length = add64 length (4 * 2 ^ 10 - 1) / (4 * 2 ^ 10)

-- The result is the code that the method returns.
unfoldable pub msync : ℕ → ℕ → Bool → Cmd ℕ
unfolding sync_from flush
msync addr length invalidate = do
  p ← sync_from (page_len length) (addr / (4 * 2 ^ 10)) invalidate first_pass
  flush p.queued
  pure p.rc
