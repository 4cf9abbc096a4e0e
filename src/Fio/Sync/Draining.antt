-- ===== src/Fio/Sync/Draining.antt =====
-- The loop of `msync` of sw/daemon/aos_fio.hpp, and the transfer that is queued when it ends.
use mathlib.Core.Path.{subst}
use amorphos_fsrf.Common.{
  ℕ, zero, suc, ◌+◌, ◌^◌, ◌≤◌, ◌<◌, ◌≡◌, refl, ◌∙◌, ap, Bool, Bool-cases, inl, inr, ne→==, ◌&&◌,
  Option, none, some, arith, if◌then◌else◌,
}
use amorphos_fsrf.Host.{Trace}
use amorphos_fsrf.Host.Memory.{Outset, Page, Memory, replay}
use amorphos_fsrf.Fio.{Fio, Vme, Run, ok, Cmd, and_then, pure}
use amorphos_fsrf.Fio.Ready.{IsReady, with_trace}
use amorphos_fsrf.Fio.Saves.{device_to_file-Moved}
use amorphos_fsrf.Fio.Sync.{Io, Pass, sync_page, sync_from, flush}
use amorphos_fsrf.Fio.Sync.Reference.{
  Files, saved, is_dirty, dirty_pages, sync_code, queue_done, DeviceToFile-io_done,
}
use amorphos_fsrf.Fio.Sync.Agreement.{IsDirtyAbove, saved_agree, queue_done_agree}
use amorphos_fsrf.Fio.Sync.Writing.{pending, IsQueued, still-IsReady}
use amorphos_fsrf.Fio.Sync.Clearing.{
  wipe_page, wipe_from, table_low, wipe_page_above, clear_page, free_page, clear_from, free_from,
  after, IsOwned,
}
use amorphos_fsrf.Fio.Sync.Rounds.{above_table, Round, some-Round, none-Round}

-- Every entry names a device page that a command can reach, and a page that its file has.
abbrev pub IsReachable : Outset → (ℕ → Option Vme) → Type 0
IsReachable before vm =
    (v : ℕ) (e : Vme)
    → vm v ≡ some e
    → (e.ppn < 2 ^ 24) × (e.fd_pn < 2 ^ 52) × (e.fd_pn < before.pages e.fd)

-- What an invalidation asks for: the standard mode, and the device page of each present page among
-- the application's own, behind its table.
abbrev pub IsOwning : Bool → (ℕ → Option Vme) → Fio → Type 0
IsOwning invalidate vm s = (v : ℕ) (e : Vme) → vm v ≡ some e → IsOwned invalidate e s

-- The run returns `rc`, with `total` more pages moved, the files changed by `effect` and the device by
-- `wipe`; the entries are then `vm` and the virtual pages of the device pages `ppo`; the state is
-- ready again, and otherwise as before.
pub record Saved (before : Outset) (s : Fio) (total rc : ℕ) (effect : (ℕ → Page) → Files → Files)
    (wipe : (ℕ → Page) → ℕ → Page) (vm : ℕ → Option Vme) (ppo : ℕ → ℕ) (r : Run ℕ) : Type 0 where
  pub trace : Trace
  pub returns : r ≡ ok rc (after s trace (s.pages_xfered + total) vm ppo)
  pub device :
      (m : Memory) → (replay before trace m).device ≡ wipe (replay before s.world.trace m).device
  pub files :
      (m : Memory)
      → (replay before trace m).file
        ≡ effect (replay before s.world.trace m).device (replay before s.world.trace m).file
  pub ready : IsReady before (after s trace (s.pages_xfered + total) vm ppo)

-- The rest of `msync`: `n` pages from `vpn` on, and the transfer that is then still queued.
unfoldable pub drain : Bool → ℕ → ℕ → Pass → Cmd ℕ
drain invalidate n vpn p s =
    and_then (sync_from n vpn invalidate p s)
      (λ p'. λ s'. and_then (flush p'.queued s') (λ _. pure p'.rc))

abbrev pub Drained : Outset → Bool → (ℕ → Option Vme) → ℕ → ℕ → Pass → Fio → Run ℕ → Type 0
Drained before invalidate old n vpn p s =
    Saved before s (pending p.queued + dirty_pages old n vpn) (sync_code old n vpn p.rc)
      (λ device files. saved old n vpn device (queue_done p.queued device files))
      (wipe_from invalidate s.app_id old n vpn) (clear_from invalidate old n vpn s.vm_maps)
      (free_from invalidate s.phys_base old n vpn s.ppo_to_vpn)

-- The loop's round, and the rest of the loop.
drain_step :
    (invalidate : Bool) (n vpn : ℕ) (p p' : Pass) (s s' : Fio)
    → sync_page invalidate vpn p s ≡ ok p' s'
    → drain invalidate (suc n) vpn p s ≡ drain invalidate n (vpn + 1) p' s'
unfolding drain sync_from
drain_step invalidate n vpn p p' s s' e = rw e refl

module _ (before : Outset) (invalidate : Bool) (old : ℕ → Option Vme) where
  -- The queued transfer is made.
  flush-Drained :
      (vpn : ℕ) (p : Pass) (s : Fio)
      → IsReady before s
      → IsQueued before (table_low invalidate s.app_id) p.queued
      → s.pages_xfered + pending p.queued < 2 ^ 64
      → Drained before invalidate old 0 vpn p s (drain invalidate 0 vpn p s)
  unfolding drain sync_from flush saved dirty_pages sync_code queue_done clear_from free_from
      wipe_from
  flush-Drained vpn p s h ranges fits = flushed p.queued ranges fits
    where
      flushed :
          (q : Option Io)
          → IsQueued before (table_low invalidate s.app_id) q
          → s.pages_xfered + pending q < 2 ^ 64
          → Drained before invalidate old 0 vpn
              (record p { queued = q })
              s
              (drain invalidate 0 vpn (record p { queued = q }) s)
      flushed none ranges fits =
          let same : s.pages_xfered ≡ s.pages_xfered + 0 = omega arith in
          record {
            trace = s.world.trace;
            returns = ap (λ x. ok p.rc (with_trace s s.world.trace x)) same;
            device = λ m. refl;
            files = λ m. refl;
            ready = still-IsReady before s h;
          }
      flushed (some io) (one, most, room, place, inside, above) fits =
          let r =
            device_to_file-Moved before io.ppn io.np io.fd io.po s h one most place room fits
              inside in
          let same : io.np ≡ io.np + 0 = omega arith in
          record {
            trace = r.trace;
            returns =
                ap (λ run. and_then run (λ _. pure p.rc)) r.returns
                ∙ ap (λ x. ok p.rc (with_trace s r.trace (s.pages_xfered + x))) same;
            device = λ m. (r.memory m).0;
            files = λ m.
                DeviceToFile-io_done io (replay before s.world.trace m) (replay before r.trace m)
                  (r.memory m);
            ready = rw (← same) r.ready;
          }

  -- A round, and what is left after it.
  Round-Drained :
      (n vpn : ℕ) (p : Pass) (s : Fio) (r : Round before invalidate (old vpn) vpn p s)
      → IsDirtyAbove (table_low invalidate s.app_id) old
      → IsQueued before (table_low invalidate s.app_id) p.queued
      → Drained before invalidate old n
          (vpn + 1)
          (record p { rc = elim (old vpn) [ none ↦ 1 | some e ↦ p.rc ]; queued = r.queued })
          (after s r.trace
            (s.pages_xfered + r.moved)
            (clear_page invalidate vpn (old vpn) s.vm_maps)
            (free_page invalidate s.phys_base (old vpn) s.ppo_to_vpn))
          (drain invalidate n
            (vpn + 1)
            (record p { rc = elim (old vpn) [ none ↦ 1 | some e ↦ p.rc ]; queued = r.queued })
            (after s r.trace
              (s.pages_xfered + r.moved)
              (clear_page invalidate vpn (old vpn) s.vm_maps)
              (free_page invalidate s.phys_base (old vpn) s.ppo_to_vpn)))
      → Drained before invalidate old (suc n) vpn p s (drain invalidate (suc n) vpn p s)
  unfolding saved dirty_pages sync_code clear_from free_from wipe_from
  Round-Drained n vpn p s r dirty ranges d =
      let count : s.pages_xfered + r.moved + (pending r.queued + dirty_pages old n (vpn + 1))
          ≡ s.pages_xfered
            + (pending p.queued
                + ((if is_dirty (old vpn) then 1 else 0) + dirty_pages old n (vpn + 1))) =
        omega (arith, r.count) in
      let low = table_low invalidate s.app_id in
      let wiped : Memory → ℕ → Page =
        λ m. wipe_page invalidate s.app_id vpn (old vpn) (replay before s.world.trace m).device in
      let same : (m : Memory) (p : ℕ)
          → low ≤ p
          → wiped m p ≡ (replay before s.world.trace m).device p =
        λ m.
          wipe_page_above invalidate s.app_id vpn (old vpn)
            (replay before s.world.trace m).device in
      record {
        trace = d.trace;
        returns =
            drain_step invalidate n vpn p _ s _ r.returns
            ∙ d.returns
            ∙ ap
                (λ x. ok (sync_code old (suc n) vpn p.rc) (
                  after s d.trace x (clear_from invalidate old (suc n) vpn s.vm_maps)
                    (free_from invalidate s.phys_base old (suc n) vpn s.ppo_to_vpn)))
                count;
        device = λ m. d.device m ∙ ap (wipe_from invalidate s.app_id old n (vpn + 1)) (r.device m);
        files = λ m.
            d.files m
            ∙ ap
                (λ device.
                  saved old n (vpn + 1) device
                    (queue_done r.queued device (replay before r.trace m).file))
                (r.device m)
            ∙ ap (saved old n (vpn + 1) (wiped m)) (r.files m)
            ∙ ap (saved old (suc n) vpn (wiped m)) (
                queue_done_agree low (wiped m) (replay before s.world.trace m).device (same m)
                  before p.queued (replay before s.world.trace m).file ranges)
            ∙ saved_agree low (wiped m) (replay before s.world.trace m).device (same m) old (suc n)
                vpn
                (queue_done p.queued (replay before s.world.trace m).device
                  (replay before s.world.trace m).file)
                dirty;
        ready =
            subst
              (λ x. IsReady before (
                after s d.trace x (clear_from invalidate old (suc n) vpn s.vm_maps)
                  (free_from invalidate s.phys_base old (suc n) vpn s.ppo_to_vpn)))
              count d.ready;
      }

  -- The pages from `vpn` on have their old entries.
  abbrev IsOld : ℕ → Fio → Type 0
  IsOld vpn s = (v : ℕ) → vpn ≤ v → s.vm_maps v ≡ old v

  clear_page_beyond :
      (vpn : ℕ) (o : Option Vme) (vm : ℕ → Option Vme) (v : ℕ)
      → vpn + 1 ≤ v
      → clear_page invalidate vpn o vm v ≡ vm v
  unfolding clear_page
  clear_page_beyond vpn none vm v beyond = refl
  clear_page_beyond vpn (some e) vm v beyond = elim (Bool-cases (invalidate && e.present)) [
    | inl clears ↦ rw clears (rw (ne→== vpn v (λ q. omega (arith, q, beyond))) refl)
    | inr keeps ↦ rw keeps refl
  ]

  start-Round :
      (vpn : ℕ) (o : Option Vme) (p : Pass) (s : Fio)
      → IsReady before s
      → IsQueued before (table_low invalidate s.app_id) p.queued
      → s.vm_maps vpn ≡ o
      → ((e : Vme)
          → o ≡ some e
          → IsOwned invalidate e s
            × (e.ppn < 2 ^ 24)
            × (e.fd_pn < 2 ^ 52)
            × (e.fd_pn < before.pages e.fd))
      → s.pages_xfered + pending p.queued < 2 ^ 64
      → Round before invalidate o vpn p s
  start-Round vpn none p s h ranges found good fits =
      none-Round before invalidate vpn p s h ranges found
  start-Round vpn (some e) p s h ranges found good fits =
      let g = good e refl in
      some-Round before invalidate vpn p s h e ranges found g.0 g.1 g.2 g.3 fits

  -- From every state that still has the old entries.
  pub drain-Drained :
      (n vpn : ℕ) (p : Pass) (s : Fio)
      → IsReady before s
      → IsOld vpn s
      → IsReachable before old
      → IsOwning invalidate old s
      → IsQueued before (table_low invalidate s.app_id) p.queued
      → s.pages_xfered + (pending p.queued + n) < 2 ^ 64
      → Drained before invalidate old n vpn p s (drain invalidate n vpn p s)
  drain-Drained zero vpn p s h same reach owned ranges fits =
      flush-Drained vpn p s h ranges (omega (arith, fits))
  drain-Drained (suc n) vpn p s h same reach owned ranges fits =
      let r =
        start-Round vpn (old vpn) p s h ranges (same vpn (omega arith))
          (λ e found. (
            owned vpn e found,
            (reach vpn e found).0,
            (reach vpn e found).1,
            (reach vpn e found).2,
          ))
          (omega (arith, fits)) in
      let one : (if is_dirty (old vpn) then 1 else 0) ≤ 1 = ground arith in
      Round-Drained n vpn p s r
        (λ v e found dirty. above_table invalidate e s (owned v e found) dirty) ranges
        (drain-Drained n (vpn + 1) _ _ r.ready
          (λ v beyond.
            clear_page_beyond vpn (old vpn) s.vm_maps v beyond ∙ same v (omega (arith, beyond)))
          reach owned r.ranges (omega (arith, fits, r.count, one)))
