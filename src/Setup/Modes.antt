-- ===== src/Setup/Modes.antt =====
-- The modes that the host applications ask for (sw/app/utils.hpp), at the daemon
-- (sw/daemon/aos_fio.hpp).
use mathlib.Core.Option.{some-injective, none-ne-some}
use native.Mathlib.Nat.{pow-le-pow_right}
use mathlib.Core.Path.{subst}
use amorphos_fsrf.Common.{
  ℕ, ◌^◌, ◌≤◌, ◌<◌, ◌≡◌, ◌≢◌, ◌⊎◌, refl, Bool, true, false, none, some, List, arith, if◌then◌else◌,
  ◌<<<◌,
}
use amorphos_fsrf.Fio.{Fio, aborted}
use amorphos_fsrf.Fio.Control.{set_mode}
use amorphos_fsrf.Fio.Control.Modes.{HasOneMode, KeepsMode, set_mode-KeepsMode}
use amorphos_fsrf.Setup.{Settings, is_accepted, settings_of, parse_std_args}

-- What the assertions leave.
abbrev Limits : Settings → Type 0
Limits st = ((st.fio_mode ≤ 2) ⊎ (st.fio_mode ≡ 4)) × (st.log_prefetch_size ≤ 9)

accepted-Limits : (st : Settings) → is_accepted st ≡ true → Limits st
accepted-Limits st h = ground arith

checked-Limits :
    (x y : Settings) (b : Bool)
    → is_accepted x ≡ b
    → (if b then some x else none) ≡ some y
    → Limits y
checked-Limits x y true h e = subst Limits (some-injective x y e) (accepted-Limits x h)
checked-Limits x y false h e = absurd (none-ne-some y e)

-- A power of two up to the ninth.
power_le : (k : ℕ) → k ≤ 9 → 2 ^ k ≤ 512
power_le k h = pow-le-pow_right {n = 2} (omega arith) h

prefetch_le : (k : ℕ) → k ≤ 9 → 1 <<< k ≤ 512
prefetch_le k h = omega (arith, power_le k h)

aborts :
    (mode data_ : ℕ) (s : Fio)
    → HasOneMode s
    → set_mode mode data_ s ≡ aborted
    → (mode ≡ 3) × (512 < data_)
aborts mode data_ s h e = subst (KeepsMode mode data_) e (set_mode-KeepsMode mode data_ s h)

-- Settings that the applications accept never fail an assertion of the daemon where one of its four
-- modes is set: neither the mode nor the prefetch size that a client sets does.
pub parse_std_args-not_aborted :
    (args : List ℕ) (st : Settings) (s : Fio)
    → parse_std_args args ≡ some st
    → HasOneMode s
    → (set_mode st.fio_mode st.coyote_config s ≢ aborted)
      × (set_mode 3 (1 <<< st.log_prefetch_size) s ≢ aborted)
unfolding parse_std_args
parse_std_args-not_aborted args st s e h =
    let l = checked-Limits (settings_of args) st (is_accepted (settings_of args)) refl e in
    (
      λ a. let m = aborts st.fio_mode st.coyote_config s h a in ground arith,
      λ a.
          let m = aborts 3 (1 <<< st.log_prefetch_size) s h a in
          omega (arith, m.1, prefetch_le st.log_prefetch_size l.1),
    )
