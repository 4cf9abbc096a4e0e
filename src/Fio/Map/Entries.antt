-- ===== src/Fio/Map/Entries.antt =====
-- The entries of pages that `populate_unaligned` of sw/daemon/aos_fio.hpp has brought to the device, and
-- what it means to save them.
use amorphos_fsrf.Common.{
  ℕ, zero, suc, ◌+◌, ◌-◌, ◌^◌, ◌≤◌, ◌<◌, ◌≡◌, refl, sym, ◌∙◌, ap, Bool-cases, inl, inr, true, ◌&&◌,
  Option, none, some, arith, leb, ltb, ◌==◌, ==_iff, sub64, fun_ext,
}
use mathlib.Core.Option.{some-injective}
use mathlib.Core.Path.{subst}
use amorphos_fsrf.Host.Memory.{Outset, Page, paste}
use amorphos_fsrf.Fio.{Fio, Vme}
use amorphos_fsrf.Fio.Sync.Reference.{Files, put_page, save_page, saved, sync_code}
use amorphos_fsrf.Fio.Sync.Address.{table_end}
use amorphos_fsrf.Fio.Sync.Cells.{in_range}
use amorphos_fsrf.Fio.Sync.Draining.{IsReachable, IsOwning}
use amorphos_fsrf.Fio.Populate.Placed.{placed, entered}
use amorphos_fsrf.Fio.Populate.Loading.{IsPart}
use amorphos_fsrf.Fio.Map.Unmapping.{unmapped}

put_page_same :
    (files : Files) (fd pn : ℕ) (v : Page) → v ≡ files fd pn → put_page files fd pn v ≡ files
put_page_same files fd pn v same = fun_ext λ f. fun_ext λ p. elim (Bool-cases (f == fd)) [
  | inr other ↦ rw other refl
  | inl at ↦ elim (Bool-cases (p == pn)) [
    | inr other ↦ rw (at, other) refl
    | inl here ↦
        rw (at, here)
          (same
            ∙ ap (λ x. files x pn) (sym ((==_iff f fd).0 at))
            ∙ ap (files f) (sym ((==_iff p pn).0 here)))
  ]
]

save_page_same :
    (o : Option Vme) (device : ℕ → Page) (files : Files)
    → ((e : Vme) → o ≡ some e → device e.ppn ≡ files e.fd e.fd_pn)
    → save_page o device files ≡ files
unfolding save_page
save_page_same none device files same = refl
save_page_same (some e) device files same = elim (Bool-cases (e.present && e.writable)) [
  | inl dirty ↦ rw dirty (put_page_same files e.fd e.fd_pn (device e.ppn) (same e refl))
  | inr clean ↦ rw clean refl
]

-- Where the device holds what the files hold, saving changes nothing.
pub saved_same :
    (vm : ℕ → Option Vme) (n vpn : ℕ) (device : ℕ → Page) (files : Files)
    → ((v : ℕ) (e : Vme)
        → vpn ≤ v
        → v < vpn + n
        → vm v ≡ some e
        → device e.ppn ≡ files e.fd e.fd_pn)
    → saved vm n vpn device files ≡ files
unfolding saved
saved_same vm zero vpn device files same = refl
saved_same vm (suc n) vpn device files same =
    let here : save_page (vm vpn) device files ≡ files =
      save_page_same (vm vpn) device files
        (λ e found. same vpn e (omega arith) (omega arith) found) in
    rw here (
      saved_same vm n (vpn + 1) device files
        (λ v e low high found. same v e (omega (arith, low)) (omega (arith, high)) found))

pub sync_code_mapped :
    (vm : ℕ → Option Vme) (n vpn rc : ℕ)
    → ((v : ℕ) → vpn ≤ v → v < vpn + n → (e : Vme) × (vm v ≡ some e))
    → sync_code vm n vpn rc ≡ rc
unfolding sync_code
sync_code_mapped vm zero vpn rc mapped = refl
sync_code_mapped vm (suc n) vpn rc mapped = rw ((mapped vpn (omega arith) (omega arith)).1) (
    sync_code_mapped vm n (vpn + 1) rc
      (λ v low high. mapped v (omega (arith, low)) (omega (arith, high))))

-- The entries of pages that have just been populated.
module _ (n vpn ppn : ℕ) (vm : ℕ → Option Vme) where
  pub entered_inside :
      (v : ℕ)
      → vpn ≤ v
      → v < vpn + n
      → entered n vpn ppn vm v ≡ some (placed (ppn + (v - vpn)) (vm v))
  entered_inside v low high = let inside : in_range n vpn v ≡ true = ground arith in rw inside refl

  pub unmapped-entered : unmapped n vpn (entered n vpn ppn vm) ≡ unmapped n vpn vm
  unmapped-entered = fun_ext λ v. elim (Bool-cases (in_range n vpn v)) [
    | inl inside ↦ rw inside refl
    | inr outside ↦ rw outside refl
  ]

  -- An entry is an old one, or one of the pages'.
  entered_cases :
      (P : Vme → Type 0)
      → ((v : ℕ) (e : Vme) → vm v ≡ some e → P e)
      → ((v : ℕ) → vpn ≤ v → v < vpn + n → P (placed (ppn + (v - vpn)) (vm v)))
      → (v : ℕ) (e : Vme) → entered n vpn ppn vm v ≡ some e
      → P e
  entered_cases P old new v e found = elim (Bool-cases (in_range n vpn v)) [
    | inl inside ↦
        let low : vpn ≤ v = ground (arith, inside) in
        let high : v < vpn + n = ground (arith, inside) in
        let same : placed (ppn + (v - vpn)) (vm v) ≡ e =
          some-injective _ _ (sym (entered_inside v low high) ∙ found) in
        rw same at (new v low high)
    | inr outside ↦
        let same : entered n vpn ppn vm v ≡ vm v = rw outside refl in old v e (sym same ∙ found)
  ]

  pub entered-IsReachable :
      (o : Outset)
      → IsReachable o vm
      → ((v : ℕ) → vpn ≤ v → v < vpn + n → (e : Vme) × (vm v ≡ some e))
      → ppn + n ≤ 2 ^ 24
      → IsReachable o (entered n vpn ppn vm)
  entered-IsReachable o reach mapped room =
      entered_cases (λ e. (e.ppn < 2 ^ 24) × (e.fd_pn < 2 ^ 52) × (e.fd_pn < o.pages e.fd)) reach
        (λ v low high.
          let (e, found) = mapped v low high in
          (
            omega (arith, low, high, room),
            rw found ((reach v e found).1),
            rw found ((reach v e found).2),
          ))

  -- After the transfer the device holds the pages of the file.
  pub entered_contents :
      (fd fd_pn : ℕ) (device : ℕ → Page) (files : Files) (before : ℕ → Page)
      → IsPart vm n vpn fd fd_pn
      → ((p : ℕ) → device p ≡ paste before ppn n (λ k. files fd (fd_pn + k)) p)
      → (v : ℕ) (e : Vme) → vpn ≤ v
      → v < vpn + n
      → entered n vpn ppn vm v ≡ some e
      → device e.ppn ≡ files e.fd e.fd_pn
  entered_contents fd fd_pn device files before part held v e low high found =
      let k = v - vpn in
      let (old, mapped, same_fd, same_place) = part k (omega (arith, low, high)) in
      let at : vpn + k ≡ v = omega (arith, low) in
      let was : vm v ≡ some old = ap vm (sym at) ∙ mapped in
      let now : some (placed (ppn + k) (some old)) ≡ some e =
        ap (λ o. some (placed (ppn + k) o)) (sym was) ∙ sym (entered_inside v low high) ∙ found in
      let first : leb ppn (ppn + k) && ltb (ppn + k) (ppn + n) ≡ true = ground (arith, low, high) in
      let offset : ppn + k - ppn ≡ k = omega arith in
      let held_here : device (ppn + k) ≡ files old.fd old.fd_pn =
        held (ppn + k)
        ∙ rw first (
            ap (λ j. files fd (fd_pn + j)) offset
            ∙ ap (λ x. files x (fd_pn + k)) (sym same_fd)
            ∙ ap (files old.fd) (sym same_place)) in
      subst (λ x. device x.ppn ≡ files x.fd x.fd_pn) (some-injective _ _ now) held_here

  pub entered_mapped :
      (v : ℕ) → vpn ≤ v → v < vpn + n → (e : Vme) × (entered n vpn ppn vm v ≡ some e)
  entered_mapped v low high = (placed (ppn + (v - vpn)) (vm v), entered_inside v low high)

  pub entered-IsOwning :
      (s s' : Fio)
      → s'.app_id ≡ s.app_id
      → s'.standard ≡ s.standard
      → s'.phys_base ≡ s.phys_base
      → s'.ppo_size ≡ s.ppo_size
      → s.standard ≡ true
      → s.phys_base ≤ ppn
      → table_end s.app_id ≤ ppn
      → ppn + n ≤ s.phys_base + s.ppo_size
      → ppn + n < 2 ^ 64
      → IsOwning true vm s
      → IsOwning true (entered n vpn ppn vm) s'
  entered-IsOwning s s' e0 e1 e2 e3 standard low behind high fits owning =
      entered_cases
        (λ e.
          e.present ≡ true
          → (s'.standard ≡ true)
            × (sub64 e.ppn s'.phys_base < s'.ppo_size)
            × (table_end s'.app_id ≤ e.ppn))
        (λ v e found present. rw (e0, e1, e2, e3) (owning v e found present))
        (λ v above below present. (
          e1 ∙ standard,
          omega (arith, e2, e3, above, below, low, high, fits),
          rw e0 (omega (arith, above, behind)),
        ))
