-- ===== src/Tlb.antt =====
-- `CyTLB` of sw/daemon/aos_fio.hpp: the daemon's mirror of one application's set-associative TLBs,
-- one for each page size, and the hardware entries that it writes. The index `huge` 0, 1, 2 of the
-- class is `small`, `large`, `segment` here.
pub mod Ways
pub mod Lookup
pub mod Add
pub mod Remove
pub mod Mirror
pub mod Init
pub mod Entries
use amorphos_fsrf.Common.{
  ℕ, zero, suc, ◌+◌, ◌-◌, ◌^◌, Bool, true, false, ◌&&◌, ◌||◌, Option, none, some, bit_and, bit_or,
  add64, ltb, ◌==◌, if◌then◌else◌, ◌<<<◌,
}
use amorphos_fsrf.Host.{World}
use amorphos_fsrf.Fpga.{write_sys_reg}

pub data Huge : Type 0 where
  small large segment : Huge

abbrev pub same : Huge → Huge → Bool
same small small = true
same large large = true
same segment segment = true
same _ _ = false

abbrev pub orders : Huge → ℕ
orders small = 10
orders large = 6
orders segment = 2

abbrev pub assocs : Huge → ℕ
assocs small = 2
assocs large = 1
assocs segment = 2

-- The sets of a TLB, and the ways of a set.
abbrev pub sets : Huge → ℕ
sets huge = 2 ^ orders huge

abbrev pub ways : Huge → ℕ
ways huge = 2 ^ assocs huge

pub record Tlb : Type 0 where
  pub app_id : ℕ
  pub vpns_ : Huge → ℕ → ℕ
  pub ages_ : Huge → ℕ → ℕ
  pub valids_ : Huge → ℕ → Bool

-- An assignment to one cell of the three arrays.
abbrev pub store : {A : Type 0} → (Huge → ℕ → A) → Huge → ℕ → A → Huge → ℕ → A
store f huge k v huge' k' = if same huge huge' && k == k' then v else f huge' k'

unfoldable pub idx : Huge → ℕ → ℕ → ℕ
idx huge vpi way = bit_or (vpi <<< assocs huge) way

abbrev pub vpns : Tlb → Huge → ℕ → ℕ → ℕ
vpns t huge vpi way = t.vpns_ huge (idx huge vpi way)

abbrev pub ages : Tlb → Huge → ℕ → ℕ → ℕ
ages t huge vpi way = t.ages_ huge (idx huge vpi way)

abbrev pub vlds : Tlb → Huge → ℕ → ℕ → Bool
vlds t huge vpi way = t.valids_ huge (idx huge vpi way)

-- The register of a hardware entry.
unfoldable pub tlb_reg : Huge → ℕ → ℕ → ℕ
tlb_reg segment vpi way = bit_or (bit_or (vpi <<< 11) (way <<< 9)) (1 <<< 13)
tlb_reg large vpi way = bit_or (bit_or (vpi <<< 8) (way <<< 7)) (1 <<< 14)
tlb_reg small vpi way = bit_or (bit_or (vpi <<< 5) (way <<< 3)) (1 <<< 15)

unfoldable pub write_tlb : ℕ → Huge → ℕ → ℕ → ℕ → World → World
unfolding tlb_reg
write_tlb app_id huge vpi way entry w =
    (write_sys_reg (app_id + 4) (tlb_reg huge vpi way) entry w).world

-- The hardware entry of a mapping.
unfoldable pub tlb_entry : Huge → ℕ → ℕ → ℕ
tlb_entry segment vpn ppn = bit_or (bit_or (vpn <<< 48) (ppn <<< 24)) 0x7
tlb_entry large vpn ppn = bit_or (bit_or (vpn <<< 37) (ppn <<< 13)) 0x7
tlb_entry small vpn ppn = bit_or (bit_or (vpn <<< 28) (ppn <<< 4)) 0x7

-- `vpn & mask`
unfoldable pub set_of : Huge → ℕ → ℕ
set_of huge vpn = bit_and vpn (sets huge - 1)

-- Construction, the arrays' contents left as they are, and `init`.
unfoldable pub init_way : Huge → ℕ → ℕ → Tlb × World → Tlb × World
unfolding write_tlb
init_way huge i j (t, w) = (
  record t {
    ages_ = store t.ages_ huge (idx huge i j) j;
    valids_ = store t.valids_ huge (idx huge i j) false;
  },
  write_tlb t.app_id huge i j 0 w,
)

-- The two inner loops of `init`, from way `j` and from set `i` on.
unfoldable pub init_ways : ℕ → ℕ → Huge → ℕ → Tlb × World → Tlb × World
unfolding init_way
init_ways zero j huge i s = s
init_ways (suc n) j huge i s = init_ways n (j + 1) huge i (init_way huge i j s)

unfoldable pub init_sets : ℕ → ℕ → Huge → Tlb × World → Tlb × World
unfolding init_ways
init_sets zero i huge s = s
init_sets (suc n) i huge s = init_sets n (i + 1) huge (init_ways (ways huge) 0 huge i s)

unfoldable pub init : Tlb × World → Tlb × World
init s =
    init_sets (sets segment) 0 segment
      (init_sets (sets large) 0 large (init_sets (sets small) 0 small s))

-- Whether way `j` is a better victim than way `a`.
abbrev pub preferred : Tlb → Huge → ℕ → ℕ → ℕ → Bool
preferred t huge i a j =
    let older = ltb (ages t huge i a) (ages t huge i j) in
    if vlds t huge i j then vlds t huge i a && older else vlds t huge i a || older

-- The loop that looks for the page and for a victim: `none` where the page is there already.
unfoldable pub victim_from : ℕ → ℕ → ℕ → Tlb → Huge → ℕ → ℕ → Option ℕ
victim_from zero j a t huge i vpn = some a
victim_from (suc n) j a t huge i vpn =
    let later = victim_from n (j + 1) (if preferred t huge i a j then j else a) t huge i vpn in
    if vlds t huge i j && vpns t huge i j == vpn then none else later

unfoldable pub age_ways : ℕ → ℕ → Tlb → Huge → ℕ → Tlb
age_ways zero j t huge i = t
age_ways (suc n) j t huge i =
    age_ways n (j + 1)
      (record t { ages_ = store t.ages_ huge (idx huge i j) (add64 (ages t huge i j) 1) }) huge i

-- The way `a` of the set takes the page.
unfoldable pub fill : Huge → ℕ → ℕ → ℕ → ℕ → Tlb × World → Tlb × World
unfolding write_tlb tlb_entry
fill huge i a vpn ppn (t, w) = (
  record t {
    vpns_ = store t.vpns_ huge (idx huge i a) vpn;
    ages_ = store t.ages_ huge (idx huge i a) 0;
    valids_ = store t.valids_ huge (idx huge i a) true;
  },
  write_tlb t.app_id huge i a (tlb_entry huge vpn ppn) w,
)

-- The rest of `add` once the loop has found the page (`none`) or a victim.
unfoldable pub settle : Huge → ℕ → ℕ → Tlb × World → Option ℕ → Tlb × World
unfolding set_of age_ways fill
settle huge vpn ppn s none = s
settle huge vpn ppn (t, w) (some a) =
    fill huge (set_of huge vpn) a vpn ppn (age_ways (ways huge) 0 t huge (set_of huge vpn), w)

unfoldable pub add : Huge → ℕ → ℕ → Tlb × World → Tlb × World
unfolding set_of victim_from settle
add huge vpn ppn (t, w) =
    settle huge vpn ppn (t, w) (victim_from (ways huge) 0 0 t huge (set_of huge vpn) vpn)

-- The loop of `remove` stops at the first way that holds the page.
unfoldable pub remove_from : ℕ → ℕ → Huge → ℕ → ℕ → Tlb × World → Tlb × World
unfolding write_tlb
remove_from zero j huge i vpn s = s
remove_from (suc n) j huge i vpn (t, w) =
    let later = remove_from n (j + 1) huge i vpn (t, w) in
    if vlds t huge i j && vpns t huge i j == vpn
    then (
      record t { valids_ = store t.valids_ huge (idx huge i j) false },
      write_tlb t.app_id huge i j 0 w,
    )
    else later

unfoldable pub remove : Huge → ℕ → Tlb × World → Tlb × World
unfolding set_of remove_from
remove huge vpn s = remove_from (ways huge) 0 huge (set_of huge vpn) vpn s
