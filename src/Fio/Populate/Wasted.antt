-- ===== src/Fio/Populate/Wasted.antt =====
-- The device pages that `populate_aligned` passes over (sw/daemon/aos_fio.hpp).
use amorphos_fsrf.Common.{ℕ, ◌+◌, ◌%◌, ◌≤◌, ◌≡◌, arith}
use amorphos_fsrf.Fio.Populate.{wasted_pages}

-- Passing over the pages brings the next device page to the place in its huge page that the virtual
-- page has in its own, and it is the least number of pages that does.
pub wasted_pages_least :
    (vpn phys_next : ℕ)
    → ((phys_next + wasted_pages (vpn % 512) (phys_next % 512)) % 512 ≡ vpn % 512)
      × ((n : ℕ)
          → (phys_next + n) % 512 ≡ vpn % 512
          → wasted_pages (vpn % 512) (phys_next % 512) ≤ n)
unfolding wasted_pages
wasted_pages_least vpn phys_next = (ground arith, λ n h. ground arith)
