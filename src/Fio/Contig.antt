-- ===== src/Fio/Contig.antt =====
-- `get_virt_contig` of sw/daemon/aos_fio.hpp: the pages around a request that lie in one run of one
-- file.
pub mod Run
use amorphos_fsrf.Common.{
  ℕ, zero, suc, ◌+◌, ◌-◌, Bool, true, false, ◌||◌, not, Option, none, some, sub64, differs, ◌==◌,
  if◌then◌else◌,
}
use amorphos_fsrf.Fio.{Fio, Vme, Cmd, ok, entry_or_zero, update, vm_touch, pure, ◌>>=◌}

pub record Range : Type 0 where
  pub whole : Bool
  pub base_vpn : ℕ
  pub bound_vpn : ℕ

-- Whether the page is not of the run of `entry`: it has no entry, another file, data on the device
-- already, other rights, or `apart` is not its distance from `entry` in the file.
abbrev pub unlike : Vme → Option Vme → ℕ → (Vme → ℕ) → Bool
unlike entry none apart distance = true
unlike entry (some e) apart distance =
    not (e.fd == entry.fd)
    || e.present
    || differs e.writable entry.writable
    || not (distance e == apart)

abbrev pub stops_below : (ℕ → Option Vme) → Vme → ℕ → ℕ → Bool
stops_below vm entry req_vpn vpn =
    unlike entry (vm vpn) (sub64 req_vpn vpn) (λ e. sub64 entry.fd_pn e.fd_pn)

abbrev pub stops_above : (ℕ → Option Vme) → Vme → ℕ → ℕ → Bool
stops_above vm entry req_vpn vpn =
    unlike entry (vm vpn) (sub64 vpn req_vpn) (λ e. sub64 e.fd_pn entry.fd_pn)

-- The loop downwards over the `n` pages from `base_vpn` on; it is at the page `base_vpn + n - 1`.
-- The result is whether it reached the end, and the new base.
unfoldable pub down : ℕ → (ℕ → Option Vme) → Vme → ℕ → ℕ → Bool × ℕ
down zero vm entry req_vpn base_vpn = (true, base_vpn)
down (suc n) vm entry req_vpn base_vpn =
    let later = down n vm entry req_vpn base_vpn in
    if stops_below vm entry req_vpn (base_vpn + n) then (false, base_vpn + n + 1) else later

-- The loop upwards over `n` pages from `vpn` on.
unfoldable pub up : ℕ → (ℕ → Option Vme) → Vme → ℕ → ℕ → Bool × ℕ
up zero vm entry req_vpn vpn = (true, vpn)
up (suc n) vm entry req_vpn vpn =
    let later = up n vm entry req_vpn (vpn + 1) in
    if stops_above vm entry req_vpn vpn then (false, vpn) else later

-- The bounds after the two loops, from how these end; a loop that meets no other page leaves its
-- bound.
abbrev pub after_loops : ℕ → Bool × ℕ → Bool × ℕ → Range
after_loops bound_vpn below above = record {
  whole = if below.0 then above.0 else false;
  base_vpn = below.1;
  bound_vpn = if above.0 then bound_vpn else above.1;
}

unfoldable pub contig : (ℕ → Option Vme) → Vme → ℕ → ℕ → ℕ → Range
unfolding down up
contig vm entry base_vpn req_vpn bound_vpn =
    after_loops bound_vpn (down (req_vpn - base_vpn) vm entry req_vpn base_vpn)
      (up (bound_vpn - (req_vpn + 1)) vm entry req_vpn (req_vpn + 1))

unfoldable pub get_virt_contig : ℕ → ℕ → ℕ → Cmd Range
unfolding contig
get_virt_contig base_vpn req_vpn bound_vpn = do
  entry ← vm_touch req_vpn
  λ s. ok (contig s.vm_maps entry base_vpn req_vpn bound_vpn) s
