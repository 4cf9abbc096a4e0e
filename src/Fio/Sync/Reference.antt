-- ===== src/Fio/Sync/Reference.antt =====
-- What `msync` of sw/daemon/aos_fio.hpp is to do with the files: to save the dirty pages one by one.
use amorphos_fsrf.Common.{
  ℕ, zero, suc, ◌+◌, ◌-◌, ◌^◌, ◌<◌, ◌≡◌, sym, ◌∙◌, ap, Bool, false, ◌&&◌, Option, none, some, arith,
  ◌==◌, ==_iff, add64, if◌then◌else◌, Bool-cases, inl, inr, fun_ext,
}
use amorphos_fsrf.Host.Memory.{Page, Memory, paste}
use amorphos_fsrf.Fio.{Vme}
use amorphos_fsrf.Fio.Saves.{DeviceToFile}
use amorphos_fsrf.Fio.Sync.{Io, new_io, breaks}

-- The contents of the files, by descriptor and page.
abbrev pub Files : Type 0
Files = ℕ → ℕ → Page

-- One page of a file gets a new content.
abbrev pub put_page : Files → ℕ → ℕ → Page → Files
put_page files fd pn v = λ f p. if (f == fd) && (p == pn) then v else files f p

-- A dirty page is saved, any other left.
unfoldable pub save_page : Option Vme → (ℕ → Page) → Files → Files
save_page none device files = files
save_page (some e) device files =
    if e.present && e.writable then put_page files e.fd e.fd_pn (device e.ppn) else files

-- Page by page, `n` pages from `vpn` on.
unfoldable pub saved : (ℕ → Option Vme) → ℕ → ℕ → (ℕ → Page) → Files → Files
saved vm zero vpn device files = files
saved vm (suc n) vpn device files = saved vm n (vpn + 1) device (save_page (vm vpn) device files)

-- How many pages of them are dirty, and whether one is missing.
unfoldable pub is_dirty : Option Vme → Bool
is_dirty none = false
is_dirty (some e) = e.present && e.writable

unfoldable pub dirty_pages : (ℕ → Option Vme) → ℕ → ℕ → ℕ
dirty_pages vm zero vpn = 0
dirty_pages vm (suc n) vpn = (if is_dirty (vm vpn) then 1 else 0) + dirty_pages vm n (vpn + 1)

unfoldable pub sync_code : (ℕ → Option Vme) → ℕ → ℕ → ℕ → ℕ
sync_code vm zero vpn rc = rc
sync_code vm (suc n) vpn rc = sync_code vm n (vpn + 1) (elim (vm vpn) [ none ↦ 1 | some e ↦ rc ])

-- The files once a queued transfer was made.
unfoldable pub io_done : Io → (ℕ → Page) → Files → Files
io_done io device files = λ f p.
    if f == io.fd then paste (files f) io.po io.np (λ k. device (io.ppn + k)) p else files f p

unfoldable pub queue_done : Option Io → (ℕ → Page) → Files → Files
queue_done none device files = files
queue_done (some io) device files = io_done io device files

pub DeviceToFile-io_done :
    (io : Io) (m m' : Memory)
    → DeviceToFile io.ppn io.np io.fd io.po m m'
    → m'.file ≡ io_done io m.device m.file
unfolding io_done
DeviceToFile-io_done io m m' (same, here, there) = fun_ext λ f. fun_ext λ p.
    elim (Bool-cases (f == io.fd)) [
      | inl e ↦
          let q = (==_iff f io.fd).0 e in
          rw e (
            ap (λ x. m'.file x p) q
            ∙ here p
            ∙ ap (λ x. paste (m.file x) io.po io.np (λ k. m.device (io.ppn + k)) p) (sym q))
      | inr e ↦ rw e (there f p (λ q. ground (arith, e, q)))
    ]

-- A transfer of one page, and one that is a page longer.
pub new_io_done :
    (e : Vme) (device : ℕ → Page) (files : Files)
    → io_done (new_io e) device files ≡ put_page files e.fd e.fd_pn (device e.ppn)
unfolding io_done
new_io_done e device files = fun_ext λ f. fun_ext λ p. elim (Bool-cases (p == e.fd_pn)) [
  | inl at ↦
      let same = (==_iff p e.fd_pn).0 at in
      let first : e.ppn + (p - e.fd_pn) ≡ e.ppn = omega (arith, same) in
      ground (arith, at, same, ap device first)
  | inr other ↦ ground (arith, other)
]

pub fits_next :
    (io : Io) (e : Vme)
    → io.po + io.np < 2 ^ 64
    → io.ppn + io.np < 2 ^ 64
    → breaks io e ≡ false
    → (io.fd ≡ e.fd) × (io.ppn + io.np ≡ e.ppn) × (io.po + io.np ≡ e.fd_pn)
fits_next io e place room fits =
    let wide : add64 io.ppn io.np ≡ io.ppn + io.np = omega (arith, room) in
    let broad : add64 io.po io.np ≡ io.po + io.np = omega (arith, place) in
    ground (arith, fits, wide, broad)

pub longer_io_done :
    (io : Io) (e : Vme) (device : ℕ → Page) (files : Files)
    → io.po + io.np < 2 ^ 64
    → io.ppn + io.np < 2 ^ 64
    → io.np < 512
    → breaks io e ≡ false
    → io_done (record io { np = add64 io.np 1 }) device files
      ≡ put_page (io_done io device files) e.fd e.fd_pn (device e.ppn)
unfolding io_done
longer_io_done io e device files place room short fits =
    let (fd_same, ppn_next, po_next) = fits_next io e place room fits in
    let count : add64 io.np 1 ≡ io.np + 1 = omega (arith, short) in
    rw (count, sym fd_same, sym po_next, sym ppn_next)
      (fun_ext λ f. fun_ext λ p. elim (Bool-cases (p == io.po + io.np)) [
        | inl at ↦
            let same = (==_iff p (io.po + io.np)).0 at in
            let last : io.ppn + (p - io.po) ≡ io.ppn + io.np = omega (arith, same) in
            ground (arith, at, same, ap device last)
        | inr other ↦ ground (arith, other)
      ])
