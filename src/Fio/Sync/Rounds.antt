-- ===== src/Fio/Sync/Rounds.antt =====
-- A round of `msync` of sw/daemon/aos_fio.hpp: the page leaves the TLB, is queued, and is cleared.
use amorphos_fsrf.Common.{
  ◌≤◌, ℕ, ◌+◌, ◌^◌, ◌<◌, ◌≡◌, refl, ◌∙◌, ap, Bool, Bool-cases, inl, inr, true, false, ◌&&◌, Option,
  none, some, arith, ◌∷◌, if◌then◌else◌,
}
use amorphos_fsrf.Host.{Trace, mem_bar, poked}
use amorphos_fsrf.Host.Memory.{Outset, Memory, replay, apply, commanded, outstanding}
use amorphos_fsrf.Fio.{Fio, Vme, ok, pure}
use amorphos_fsrf.Fio.Ready.{IsReady, with_trace}
use amorphos_fsrf.Fio.Sync.{Io, Pass, drop_tlb, drop_entry, sync_entry, sync_page}
use amorphos_fsrf.Fio.Sync.Address.{tlb_addr_place, tlb_place}
use amorphos_fsrf.Fio.Sync.Reference.{save_page, is_dirty, queue_done}
use amorphos_fsrf.Fio.Sync.Writing.{
  pending, IsQueued, write_dirty, write_dirty-Written, still-IsReady,
}
use amorphos_fsrf.Fio.Sync.Clearing.{
  wipe_page, table_low, clear_page, free_page, after, IsOwned, if_true, if_false, and_then_ok,
  drop_tlb_outcome, drop_entry_outcome,
}

-- The page leaves the TLB: the word of its entry is cleared, with one write.
record Dropped (before : Outset) (invalidate : Bool) (e : Vme) (vpn huge : ℕ) (s : Fio)
    : Type 0 where
  trace : Trace
  returns :
      (if invalidate && e.present then drop_tlb vpn huge else pure huge) s
      ≡ ok huge (with_trace s trace s.pages_xfered)
  memory :
      (m : Memory)
      → replay before trace m ≡ record (replay before s.world.trace m) {
        device = wipe_page invalidate s.app_id vpn (some e) (replay before s.world.trace m).device;
      }
  ready : IsReady before (with_trace s trace s.pages_xfered)

module _ (before : Outset) (s : Fio) (h : IsReady before s) where
  drop_tlb-Dropped :
      (invalidate : Bool) (e : Vme) (vpn huge : ℕ)
      → (invalidate && e.present) ≡ true
      → s.standard ≡ true
      → Dropped before invalidate e vpn huge s
  unfolding replay apply commanded outstanding wipe_page
  drop_tlb-Dropped invalidate e vpn huge clears standard =
      let slot = tlb_addr_place s.app_id vpn h.app in
      let place = tlb_place s.app_id vpn in
      record {
        trace = poked mem_bar place 0 ∷ s.world.trace;
        returns =
            ap (λ f. f s) (if_true (invalidate && e.present) (drop_tlb vpn huge) (pure huge) clears)
            ∙ drop_tlb_outcome vpn huge place s standard slot.0 slot.1;
        memory = λ m. rw clears refl;
        ready = record {
          healthy = h.healthy;
          patient = h.patient;
          app = h.app;
          buf = h.buf;
          channel = h.channel;
          settled = h.settled;
          idle = h.idle;
        };
      }

  kept-Dropped :
      (invalidate : Bool) (e : Vme) (vpn huge : ℕ)
      → (invalidate && e.present) ≡ false
      → Dropped before invalidate e vpn huge s
  unfolding wipe_page
  kept-Dropped invalidate e vpn huge keeps = record {
    trace = s.world.trace;
    returns =
        ap (λ f. f s) (if_false (invalidate && e.present) (drop_tlb vpn huge) (pure huge) keeps);
    memory = λ m. rw keeps refl;
    ready = h;
  }

  maybe-Dropped :
      (invalidate : Bool) (e : Vme) (vpn huge : ℕ)
      → IsOwned invalidate e s
      → Dropped before invalidate e vpn huge s
  maybe-Dropped invalidate e vpn huge owned = elim (Bool-cases (invalidate && e.present)) [
    | inl clears ↦ drop_tlb-Dropped invalidate e vpn huge clears (owned clears).0
    | inr keeps ↦ kept-Dropped invalidate e vpn huge keeps
  ]

-- A round with an entry for the page, or none: what `Written` says, and the page is cleared.
pub record Round (before : Outset) (invalidate : Bool) (o : Option Vme) (vpn : ℕ) (p : Pass)
    (s : Fio) : Type 0 where
  pub trace : Trace
  pub moved : ℕ
  pub queued : Option Io
  pub returns :
      sync_page invalidate vpn p s
      ≡ ok
          (record p { rc = elim o [ none ↦ 1 | some e ↦ p.rc ]; queued = queued })
          (after s trace
            (s.pages_xfered + moved)
            (clear_page invalidate vpn o s.vm_maps)
            (free_page invalidate s.phys_base o s.ppo_to_vpn))
  pub count : moved + pending queued ≡ pending p.queued + (if is_dirty o then 1 else 0)
  pub ranges : IsQueued before (table_low invalidate s.app_id) queued
  pub device :
      (m : Memory)
      → (replay before trace m).device
        ≡ wipe_page invalidate s.app_id vpn o (replay before s.world.trace m).device
  pub files :
      (m : Memory)
      → queue_done queued
          (wipe_page invalidate s.app_id vpn o (replay before s.world.trace m).device)
          (replay before trace m).file
        ≡ save_page o (wipe_page invalidate s.app_id vpn o (replay before s.world.trace m).device) (
            queue_done p.queued
              (wipe_page invalidate s.app_id vpn o (replay before s.world.trace m).device)
              (replay before s.world.trace m).file)
  pub ready : IsReady before (
      after s trace
        (s.pages_xfered + moved)
        (clear_page invalidate vpn o s.vm_maps)
        (free_page invalidate s.phys_base o s.ppo_to_vpn))

sync_entry_outcome :
    (invalidate : Bool) (vpn : ℕ) (e : Vme) (p : Pass) (queued : Option Io) (s s1 s2 s3 : Fio)
    → (if invalidate && e.present then drop_tlb vpn p.current_huge else pure p.current_huge) s
      ≡ ok p.current_huge s1
    → write_dirty e p.queued s1 ≡ ok queued s2
    → (if invalidate && e.present then drop_entry vpn e else pure tt) s2 ≡ ok tt s3
    → sync_entry invalidate vpn e p s ≡ ok (record p { queued = queued }) s3
unfolding sync_entry
sync_entry_outcome invalidate vpn e p queued s s1 s2 s3 dropped wrote cleared =
    and_then_ok _ p.current_huge s1 _ dropped
    ∙ and_then_ok _ queued s2 _ wrote
    ∙ and_then_ok _ tt s3 _ cleared

pub above_table :
    (invalidate : Bool) (e : Vme) (s : Fio)
    → IsOwned invalidate e s
    → (e.present && e.writable) ≡ true
    → table_low invalidate s.app_id ≤ e.ppn
above_table false e s owned dirty = omega arith
above_table true e s owned dirty = (owned (ground (arith, dirty))).2

module _ (before : Outset) (invalidate : Bool) (vpn : ℕ) (p : Pass) (s : Fio)
    (h : IsReady before s) where
  pub none-Round :
      IsQueued before (table_low invalidate s.app_id) p.queued
      → s.vm_maps vpn ≡ none
      → Round before invalidate none vpn p s
  unfolding sync_page clear_page free_page wipe_page is_dirty save_page
  none-Round ranges missing =
      let same : s.pages_xfered ≡ s.pages_xfered + 0 = omega arith in
      record {
        trace = s.world.trace;
        moved = 0;
        queued = p.queued;
        returns =
            rw (missing, sync_page)
              (ap (λ x. ok (record p { rc = 1 }) (with_trace s s.world.trace x)) same);
        count = omega arith;
        ranges = ranges;
        device = λ m. refl;
        files = λ m. refl;
        ready = still-IsReady before s h;
      }

  pub some-Round :
      (e : Vme)
      → IsQueued before (table_low invalidate s.app_id) p.queued
      → s.vm_maps vpn ≡ some e
      → IsOwned invalidate e s
      → e.ppn < 2 ^ 24
      → e.fd_pn < 2 ^ 52
      → e.fd_pn < before.pages e.fd
      → s.pages_xfered + pending p.queued < 2 ^ 64
      → Round before invalidate (some e) vpn p s
  unfolding sync_page
  some-Round e ranges found owned room place held fits =
      let d = maybe-Dropped before s h invalidate e vpn p.current_huge owned in
      let s1 : Fio = with_trace s d.trace s.pages_xfered in
      let w =
        write_dirty-Written before (table_low invalidate s.app_id) e s1 d.ready p.queued ranges room
          place held (above_table invalidate e s owned) fits in
      let s2 : Fio = with_trace s w.trace (s.pages_xfered + w.moved) in
      record {
        trace = w.trace;
        moved = w.moved;
        queued = w.queued;
        returns =
            rw (found, sync_page)
              (sync_entry_outcome invalidate vpn e p w.queued s s1 s2 _ d.returns w.returns
                (drop_entry_outcome invalidate vpn e s2 owned));
        count = w.count;
        ranges = w.ranges;
        device = λ m. w.device m ∙ ap (λ n. n.device) (d.memory m);
        files = λ m. rw (d.memory m) at (w.files m);
        ready = record {
          healthy = w.ready.healthy;
          patient = w.ready.patient;
          app = w.ready.app;
          buf = w.ready.buf;
          channel = w.ready.channel;
          settled = w.ready.settled;
          idle = w.ready.idle;
        };
      }
