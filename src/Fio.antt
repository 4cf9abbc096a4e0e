-- ===== src/Fio.antt =====
-- The state of `aos_fio` (sw/daemon/aos_fio.hpp), one for each application, and the outcomes of its
-- methods. The two recursive mutexes are not modelled: a method holds them from its first access of
-- the shared state to its last, so methods and the rounds of the fault handler are single steps.
pub mod Transfer
pub mod Command
pub mod Ready
pub mod Moves
pub mod Buffer
pub mod Copies
pub mod Saves
pub mod Sync
pub mod Alloc
pub mod Contig
pub mod Populate
pub mod Fault
pub mod Control
pub mod Map
use amorphos_fsrf.Common.{
  ℕ, suc, ◌+◌, ◌*◌, ◌/◌, ◌^◌, Bool, true, false, Option, none, some, List, [], ◌∷◌, ◌==◌, minus_one,
  u64_max, if◌then◌else◌,
}
use amorphos_fsrf.Host.{World}
use amorphos_fsrf.Tlb.{Tlb}

-- `VME`, the entry of a virtual page.
pub record Vme : Type 0 where
  pub ppn : ℕ
  pub fd_pn : ℕ
  pub fd : ℕ
  pub present : Bool
  pub writable : Bool

-- What `operator[]` of a map puts at a key that it does not have.
abbrev pub zero_vme : Vme
zero_vme = record { ppn = 0; fd_pn = 0; fd = 0; present = false; writable = false }

-- The hash maps keyed by page numbers are functions; `ppo_to_vpn` is a vector, its cells a function
-- and its size apart. `joinable` says whether `fault_thread` is a thread.
pub record Fio : Type 0 where
  pub world : World
  pub app_id : ℕ
  pub standard : Bool
  pub coyote : Bool
  pub coyote_huge : Bool
  pub coyote_prefetch : Bool
  pub physical : Bool
  pub aos_seg : Bool
  pub prefetch_size : ℕ
  pub next_fd : ℕ
  pub fd_map : List (ℕ × ℕ)
  pub phys_base : ℕ
  pub phys_bound : ℕ
  pub phys_next : ℕ
  pub phys_overflow : Bool
  pub ppo_to_vpn : ℕ → ℕ
  pub ppo_size : ℕ
  pub next_vpn : ℕ
  pub vm_maps : ℕ → Option Vme
  pub tlb : Tlb
  pub huge_page : ℕ → Bool
  pub handler_running : Bool
  pub joinable : Bool
  pub phys_buf : ℕ
  pub pages_xfered : ℕ

abbrev pub invalid_vpn : ℕ
invalid_vpn = u64_max

abbrev pub max_apps : ℕ
max_apps = 4

-- The base addresses of the four applications; another index is out of bounds.
abbrev pub base_addrs : ℕ → Option ℕ
base_addrs app_id =
    if app_id == 0
    then some 0
    else if app_id == 1
    then some (8 * 2 ^ 20)
    else if app_id == 2
    then some (4 * 2 ^ 20)
    else if app_id == 3
    then some (12 * 2 ^ 20)
    else none

-- How a method ends: normally, by `exit(EXIT_FAILURE)`, by a failed `assert`, in undefined
-- behaviour, by an exception that nothing catches, or in a loop that is still running after the
-- rounds that the model allows it.
pub data Run (A : Type 0) : Type 0 where
  ok : A → Fio → Run A
  exited aborted undefined thrown running : Run A

abbrev pub Cmd : Type 0 → Type 0
Cmd A = Fio → Run A

abbrev pub pure : {A : Type 0} → A → Cmd A
pure a s = ok a s

module _ {A B : Type 0} where
  abbrev pub and_then : Run A → (A → Cmd B) → Run B
  and_then (ok a s) k = k a s
  and_then exited k = exited
  and_then aborted k = aborted
  and_then undefined k = undefined
  and_then thrown k = thrown
  and_then running k = running

  infixl 5 ◌>>=◌ ◌>>◌
  abbrev pub ◌>>=◌ : Cmd A → (A → Cmd B) → Cmd B
  m >>= k = λ s. and_then (m s) k

  abbrev pub ◌>>◌ : Cmd A → Cmd B → Cmd B
  m >> k = m >>= λ _. k

abbrev pub get : Cmd Fio
get s = ok s s

abbrev pub modify : (Fio → Fio) → Cmd (Unit {0})
modify f s = ok tt (f s)

abbrev pub assert : Bool → Cmd (Unit {0})
assert true s = ok tt s
assert false s = aborted

-- Assignments to a key of a map or a cell of an array.
abbrev pub update : {A : Type 0} → (ℕ → A) → ℕ → A → ℕ → A
update f k v k' = if k == k' then v else f k'

-- `operator[]` of the page map on a key, which it adds where it is missing.
abbrev pub entry_or_zero : Option Vme → Vme
entry_or_zero none = zero_vme
entry_or_zero (some e) = e

abbrev pub vm_touch : ℕ → Cmd Vme
vm_touch vpn s =
    ok (entry_or_zero (s.vm_maps vpn))
      (record s { vm_maps = update s.vm_maps vpn (some (entry_or_zero (s.vm_maps vpn))) })

-- The descriptor map.
abbrev pub fd_find : ℕ → List (ℕ × ℕ) → Option ℕ
fd_find k [] = none
fd_find k ((j, v) ∷ m) = if j == k then some v else fd_find k m

abbrev pub fd_erase : ℕ → List (ℕ × ℕ) → List (ℕ × ℕ)
fd_erase k [] = []
fd_erase k ((j, v) ∷ m) = let rest = fd_erase k m in if j == k then rest else (j, v) ∷ rest

abbrev pub fd_insert : ℕ → ℕ → List (ℕ × ℕ) → List (ℕ × ℕ)
fd_insert k v m = (k, v) ∷ fd_erase k m
