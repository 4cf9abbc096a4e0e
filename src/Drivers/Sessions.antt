-- ===== src/Drivers/Sessions.antt =====
-- What an application holds while its program runs: open files, and mapped regions.
pub mod Regions
pub mod Plain
pub mod Tidy
use amorphos_fsrf.Common.{
  ℕ, zero, suc, Bool, true, false, Option, none, some, List, [], ◌∷◌, ◌==◌, ◌&&◌, ◌≡◌,
  if◌then◌else◌,
}
use amorphos_fsrf.Client.{
  Call, aos_cntrlreg_read, aos_cntrlreg_write, aos_file_open, aos_file_close, aos_mmap, aos_munmap,
  aos_msync, aos_set_mode,
}
use amorphos_fsrf.Drivers.{Phase, Answers, Main, aborted, undefined, program, calls_of}
use amorphos_fsrf.Drivers.Programs.{aes, md5, sha, conv, nw, rng, gups, dnn}
use amorphos_fsrf.Drivers.Programs.Hls.{hls_sha, hls_hll, hls_flow, hls_pgrnk, hls_tri}

-- The descriptors that are open, the address and length of each region, and how many were mapped.
pub record Held : Type 0 where
  pub files : List ℕ
  pub regions : List (ℕ × ℕ)
  pub mapped : ℕ

abbrev pub nothing : Held
nothing = record { files = []; regions = []; mapped = 0 }

abbrev pub is_open : ℕ → List ℕ → Bool
is_open fd [] = false
is_open fd (f ∷ files) = if f == fd then true else is_open fd files

abbrev pub put_back : ℕ → Option (List ℕ) → Option (List ℕ)
put_back f none = none
put_back f (some files) = some (f ∷ files)

abbrev pub close : ℕ → List ℕ → Option (List ℕ)
close fd [] = none
close fd (f ∷ files) = if f == fd then some files else put_back f (close fd files)

abbrev pub keep : ℕ × ℕ → Option (List (ℕ × ℕ)) → Option (List (ℕ × ℕ))
keep r none = none
keep r (some regions) = some (r ∷ regions)

abbrev pub unmap : ℕ → ℕ → List (ℕ × ℕ) → Option (List (ℕ × ℕ))
unmap addr length [] = none
unmap addr length ((a, n) ∷ regions) =
    if (a == addr) && (n == length) then some regions else keep (a, n) (unmap addr length regions)

abbrev pub with_regions : Held → Option (List (ℕ × ℕ)) → Option Held
with_regions h none = none
with_regions h (some regions) = some (record h { regions = regions })

abbrev pub with_files : Held → Option (List ℕ) → Option Held
with_files h none = none
with_files h (some files) = some (record h { files = files })

-- A file is closed when no region of the application is left.
abbrev pub close_unused : ℕ → Held → List (ℕ × ℕ) → Option Held
close_unused fd h [] = with_files h (close fd h.files)
close_unused fd h (r ∷ regions) = none

-- One call, with the daemon's answers; `none` for a call that uses what is not held.
abbrev pub act : ℕ → (ℕ → ℕ) → Call → Held → Option Held
act fd addr (aos_cntrlreg_read reg) h = some h
act fd addr (aos_cntrlreg_write reg v) h = some h
act fd addr (aos_file_open path) h = some (record h { files = fd ∷ h.files })
act fd addr (aos_file_close f) h = close_unused f h h.regions
act fd addr (aos_mmap hint length prot flags f offset) h =
    if is_open f h.files
    then some (record h { regions = (addr h.mapped, length) ∷ h.regions; mapped = suc h.mapped })
    else none
act fd addr (aos_munmap a length) h = with_regions h (unmap a length h.regions)
act fd addr (aos_msync a length flags) h = some h
act fd addr (aos_set_mode mode data_) h = some h

abbrev pub and_then : Option Held → (Held → Option Held) → Option Held
and_then none f = none
and_then (some h) f = f h

unfoldable pub perform : ℕ → (ℕ → ℕ) → List Call → Held → Option Held
perform fd addr [] h = some h
perform fd addr (c ∷ calls) h = and_then (act fd addr c h) (perform fd addr calls)

-- The calls of one application can all be made, and leave it with nothing.
abbrev pub Tidy : Answers → ℕ → List Phase → Type 0
Tidy a j phases =
    (n : ℕ) × (perform (a.fd j) (a.addr j) (calls_of j phases) nothing
      ≡ some (record { files = []; regions = []; mapped = n }))

-- The programs, by name.
pub data Program : Type 0 where
  is_aes is_md5 is_sha is_conv is_nw is_rng is_gups is_dnn : Program
  is_hls_sha is_hls_hll is_hls_flow is_hls_pgrnk : Program
  is_hls_tri : ℕ → ℕ → Program

unfoldable pub main_of : Program → Answers → List ℕ → Main
main_of is_aes a args = aes a args
main_of is_md5 a args = md5 a args
main_of is_sha a args = sha a args
main_of is_conv a args = conv a args
main_of is_nw a args = nw a args
main_of is_rng a args = rng a args
main_of is_gups a args = gups a args
main_of is_dnn a args = dnn a args
main_of is_hls_sha a args = hls_sha a args
main_of is_hls_hll a args = hls_hll a args
main_of is_hls_flow a args = hls_flow a args
main_of is_hls_pgrnk a args = hls_pgrnk a args
main_of (is_hls_tri first second) a args = hls_tri a first second args
