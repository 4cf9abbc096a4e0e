-- ===== src/Setup.antt =====
-- The settings that the host applications share (sw/app/utils.hpp): their arguments, and the calls
-- that put each application's daemon side into its mode.
pub mod Modes
pub mod Polling
pub mod Finishing
pub mod Settled
use amorphos_fsrf.Common.{
  ℕ, zero, suc, ◌+◌, Bool, ◌&&◌, ◌||◌, Option, none, some, List, [], ◌∷◌, ◌==◌, leb, nonzero,
  if◌then◌else◌, ◌<<<◌,
}
use amorphos_fsrf.Client.{Client, new_client, set_slot_id, set_app_id, Call, aos_set_mode}

pub record Settings : Type 0 where
  pub num_apps : ℕ
  pub populate : Bool
  pub fio_mode : ℕ
  pub coyote_config : ℕ
  pub log_prefetch_size : ℕ

-- The next argument, as `atol` reads it, or its default; and the arguments behind it.
abbrev pub next_arg : ℕ → List ℕ → ℕ × List ℕ
next_arg default_val [] = (default_val, [])
next_arg default_val (x ∷ xs) = (x, xs)

abbrev pub settings_of : List ℕ → Settings
settings_of args =
    let (num_apps, args1) = next_arg 1 args in
    let (populate, args2) = next_arg 0 args1 in
    let (fio_mode, args3) = next_arg 0 args2 in
    let (coyote_config, args4) = next_arg 0 args3 in
    let (log_prefetch_size, args5) = next_arg 9 args4 in
    record {
      num_apps = num_apps;
      populate = nonzero populate;
      fio_mode = fio_mode;
      coyote_config = coyote_config;
      log_prefetch_size = log_prefetch_size;
    }

-- The four assertions on the settings.
abbrev pub is_accepted : Settings → Bool
is_accepted s =
    leb 1 s.num_apps
    && leb s.num_apps 4
    && (leb s.fio_mode 2 || s.fio_mode == 4)
    && leb s.coyote_config 2
    && leb s.log_prefetch_size 9

-- The arguments from `argi` on; `none` where an assertion fails.
unfoldable pub parse_std_args : List ℕ → Option Settings
parse_std_args args = if is_accepted (settings_of args) then some (settings_of args) else none

-- The client of an application, before it connects, and its two calls.
unfoldable pub setup_client : Settings → ℕ → Client × List Call
setup_client s app = (
  set_app_id app (set_slot_id 0 new_client),
  aos_set_mode s.fio_mode s.coyote_config ∷ aos_set_mode 3 (1 <<< s.log_prefetch_size) ∷ [],
)

-- The loop over the applications, from `app` on.
unfoldable pub setup_from : ℕ → ℕ → Settings → List (Client × List Call)
unfolding setup_client
setup_from zero app s = []
setup_from (suc n) app s = setup_client s app ∷ setup_from n (app + 1) s

unfoldable pub setup_aos_client : Settings → List (Client × List Call)
unfolding setup_from
setup_aos_client s = setup_from s.num_apps 0 s
