-- ===== src/Triangles/Reference.antt =====
-- Triangles counted pair by pair, with no wide words.
use amorphos_fsrf.Common.{
  ℕ, zero, suc, ◌+◌, ◌-◌, ◌*◌, ◌/◌, Bool, false, ◌||◌, u64_max, ltb, ◌==◌, to_num, if◌then◌else◌,
}
use amorphos_fsrf.PageRank.{Array}

-- Whether one of `n` pairs from pair `p` on begins with `node`.
unfoldable pub linked : Array → ℕ → ℕ → ℕ → Bool
linked mem node p zero = false
linked mem node p (suc n) = (mem (2 * p) == node) || linked mem node (suc p) n

-- Of `n` neighbours from pair `p` on, those not before `start` that are linked to `node`.
unfoldable pub corners : Array → Array → ℕ → ℕ → ℕ → ℕ → ℕ
corners mem2 mem3 node start p zero = 0
corners mem2 mem3 node start p (suc n) =
    (if ltb (mem2 (2 * p)) start
      then 0
      else to_num (linked mem3 node (mem2 (2 * p) / 2) (mem2 (2 * p + 1) / 2 - mem2 (2 * p) / 2)))
    + corners mem2 mem3 node start (suc p) n

-- The triangles of `n` pairs from pair `p` on, `node` being where the current vertex begins.
unfoldable pub triangles : Array → Array → Array → ℕ → ℕ → ℕ → ℕ
triangles mem1 mem2 mem3 node p zero = 0
triangles mem1 mem2 mem3 node p (suc n) =
    let start = mem1 (2 * p) in
    if start == u64_max
    then triangles mem1 mem2 mem3 (2 * p + 2) (suc p) n
    else (if ltb start node
        then 0
        else corners mem2 mem3 node start (start / 2) (mem1 (2 * p + 1) / 2 - start / 2))
      + triangles mem1 mem2 mem3 node (suc p) n
