-- ===== src/Fio/Sync/Agreement.antt =====
-- What `msync` of sw/daemon/aos_fio.hpp saves does not depend on the pages of the TLB's table.
use amorphos_fsrf.Common.{
  ℕ, zero, suc, ◌+◌, ◌-◌, ◌≤◌, ◌≡◌, refl, ◌∙◌, ap, Bool-cases, inl, inr, true, ◌&&◌, Option, none,
  some, arith, leb, ltb, ◌==◌, fun_ext,
}
use amorphos_fsrf.Host.Memory.{Outset, Page}
use amorphos_fsrf.Fio.{Vme}
use amorphos_fsrf.Fio.Sync.{Io}
use amorphos_fsrf.Fio.Sync.Reference.{Files, put_page, save_page, saved, io_done, queue_done}
use amorphos_fsrf.Fio.Sync.Writing.{IsQueued}

-- The dirty pages lie from `low` on.
abbrev pub IsDirtyAbove : ℕ → (ℕ → Option Vme) → Type 0
IsDirtyAbove low vm =
    (v : ℕ) (e : Vme) → vm v ≡ some e → (e.present && e.writable) ≡ true → low ≤ e.ppn

module _ (low : ℕ) (d d' : ℕ → Page) (agree : (p : ℕ) → low ≤ p → d p ≡ d' p) where
  save_page_agree :
      (o : Option Vme) (files : Files)
      → ((e : Vme) → o ≡ some e → (e.present && e.writable) ≡ true → low ≤ e.ppn)
      → save_page o d files ≡ save_page o d' files
  unfolding save_page
  save_page_agree none files above = refl
  save_page_agree (some e) files above = elim (Bool-cases (e.present && e.writable)) [
    | inl dirty ↦ rw dirty (ap (put_page files e.fd e.fd_pn) (agree e.ppn (above e refl dirty)))
    | inr clean ↦ rw clean refl
  ]

  pub saved_agree :
      (vm : ℕ → Option Vme) (n vpn : ℕ) (files : Files)
      → IsDirtyAbove low vm
      → saved vm n vpn d files ≡ saved vm n vpn d' files
  unfolding saved
  saved_agree vm zero vpn files above = refl
  saved_agree vm (suc n) vpn files above =
      saved_agree vm n (vpn + 1) (save_page (vm vpn) d files) above
      ∙ ap (saved vm n (vpn + 1) d') (save_page_agree (vm vpn) files (above vpn))

  pub queue_done_agree :
      (before : Outset) (q : Option Io) (files : Files)
      → IsQueued before low q
      → queue_done q d files ≡ queue_done q d' files
  unfolding queue_done io_done
  queue_done_agree before none files ranges = refl
  queue_done_agree before (some io) files (one, most, reach, place, inside, above) = fun_ext λ f.
      fun_ext λ p. elim (Bool-cases (f == io.fd)) [
        | inr other ↦ rw other refl
        | inl same ↦ elim (Bool-cases (leb io.po p && ltb p (io.po + io.np))) [
          | inr outside ↦ rw (same, outside) refl
          | inl within ↦ rw (same, within) (agree (io.ppn + (p - io.po)) (omega (arith, above)))
        ]
      ]
