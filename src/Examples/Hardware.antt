-- ===== src/Examples/Hardware.antt =====
-- Registers and translation entries at concrete states (sw/daemon/aos_fpga.hpp and `CyTLB` of
-- sw/daemon/aos_fio.hpp).
use amorphos_fsrf.Common.{ℕ, ◌%◌, ◌≡◌, refl, true, false, arith}
use amorphos_fsrf.Host.{World}
use amorphos_fsrf.Fpga.Address.{bar_addr_injective}
use amorphos_fsrf.Tlb.{Tlb, small, large, idx, store, add, remove, init, sets}
use amorphos_fsrf.Tlb.Lookup.{IsSound, Held}
use amorphos_fsrf.Tlb.Add.{add-IsSound, add-Held}
use amorphos_fsrf.Tlb.Remove.{remove-not_Held}
use amorphos_fsrf.Tlb.Mirror.{Mirrors, Added, add-Mirrors, remove-Mirrors}
use amorphos_fsrf.Tlb.Init.{init-Mirrors}
use amorphos_fsrf.Examples.{new_world, free_tlb}
use mathlib.Core.Bool.{false≢true}

free_tlb-IsSound : IsSound free_tlb.vpns_ free_tlb.valids_
free_tlb-IsSound = record {
  placed = λ huge i j p q v. absurd (false≢true v);
  unique = λ huge i j k p q r v. absurd (false≢true v);
}

-- The mirror and the world once page 5 was added.
abbrev one_tlb : Tlb
one_tlb = (add small 5 9 (free_tlb, new_world)).0

abbrev one_world : World
one_world = (add small 5 9 (free_tlb, new_world)).1

-- The mirror and the world of a new TLB.
abbrev new_tlb : Tlb
new_tlb = (init (free_tlb, new_world)).0

abbrev ready_world : World
ready_world = (init (free_tlb, new_world)).1

init-Mirrors_example : Mirrors new_tlb ready_world.trace × IsSound new_tlb.vpns_ new_tlb.valids_
init-Mirrors_example = init-Mirrors (free_tlb, new_world) (omega arith)

add-Mirrors_example :
    Mirrors
      (add large 3 11 (new_tlb, ready_world)).0
      (add large 3 11 (new_tlb, ready_world)).1.trace
    × Added new_tlb ready_world large 3 11
        (add large 3 11 (new_tlb, ready_world)).0
        (add large 3 11 (new_tlb, ready_world)).1
add-Mirrors_example =
    add-Mirrors new_tlb ready_world large 3 11 (omega arith) (omega arith)
      (init-Mirrors (free_tlb, new_world) (omega arith)).0

remove-Mirrors_example :
    Mirrors
      (remove large 3 (new_tlb, ready_world)).0
      (remove large 3 (new_tlb, ready_world)).1.trace
remove-Mirrors_example =
    remove-Mirrors new_tlb ready_world large 3 (init-Mirrors (free_tlb, new_world) (omega arith)).0

add-IsSound_example : IsSound one_tlb.vpns_ one_tlb.valids_
add-IsSound_example = add-IsSound free_tlb new_world small 5 9 free_tlb-IsSound

add-Held_example : Held one_tlb.vpns_ one_tlb.valids_ small 5
add-Held_example = add-Held free_tlb new_world small 5 9

one_tlb-IsSound : IsSound one_tlb.vpns_ one_tlb.valids_
one_tlb-IsSound = add-IsSound free_tlb new_world small 5 9 free_tlb-IsSound

remove-not_Held_example :
    ¬ Held
      (remove small 5 (one_tlb, one_world)).0.vpns_
      (remove small 5 (one_tlb, one_world)).0.valids_
      small
      5
remove-not_Held_example = remove-not_Held one_tlb one_world small 5 one_tlb-IsSound

-- Page 5 in the first way of its set.
abbrev placed_tlb : Tlb
placed_tlb = record free_tlb {
  vpns_ = store (λ huge k. 0) small (idx small 5 0) 5;
  valids_ = store (λ huge k. false) small (idx small 5 0) true;
}

placed_tlb-Held : Held placed_tlb.vpns_ placed_tlb.valids_ small 5
unfolding idx
placed_tlb-Held = (0, omega arith, refl, refl)

placed_tlb_free : placed_tlb.valids_ small (idx small (1029 % sets small) 1) ≡ false
unfolding idx
placed_tlb_free = refl

bar_addr_injective_example : ◌≡◌ {A = ℕ} 4 4 × ◌≡◌ {A = ℕ} 24 24
bar_addr_injective_example =
    bar_addr_injective 4 4 24 24 (omega arith) (omega arith) (omega arith) (omega arith) refl refl
      refl
