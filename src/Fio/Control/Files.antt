-- ===== src/Fio/Control/Files.antt =====
-- The descriptors and the fault thread: `file_open`, `file_close`, `start` and `stop` of
-- sw/daemon/aos_fio.hpp.
use mathlib.Core.Bool.{true≢false}
use amorphos_fsrf.Common.{
  ◌||◌, ℕ, ◌≡◌, ◌≢◌, refl, ◌∙◌, sym, ap, ◌⊎◌, inl, inr, true, false, not, none, some, List, [], ◌∷◌,
  ◌==◌, Bool-cases, minus_one, ==_iff, ==_refl, ne→==,
}
use amorphos_fsrf.Host.{log, file_opened}
use amorphos_fsrf.Fio.{
  and_then, Fio, Run, ok, exited, aborted, undefined, thrown, running, fd_find, fd_erase, fd_insert,
}
use amorphos_fsrf.Fio.Control.{start, stop, is_empty, file_open, file_close, read_count, insert_fd}

-- The run returns, and then the result and the state satisfy `P`.
abbrev pub Returns : {A : Type 0} → (A → Fio → Type 0) → Run A → Type 0
Returns P (ok a s) = P a s
Returns P _ = ⊥

-- The fault thread exists exactly while there is an open file.
abbrev pub IsThreaded : Fio → Type 0
IsThreaded s = s.joinable ≡ not (is_empty s.fd_map)

-- What the daemon's `open` gave for a path.
abbrev pub true_fd : List ℕ → Fio → ℕ
true_fd path s = s.world.os.open_path s.world.trace path

differs_from : (i k j : ℕ) → (i == j) ≡ true → k ≢ j → (i == k) ≡ false
differs_from i k j e h = ne→== i k (λ q. h (sym q ∙ (==_iff i j).0 e))

fd_find-erase : (k j : ℕ) (m : List (ℕ × ℕ)) → k ≢ j → fd_find k (fd_erase j m) ≡ fd_find k m
fd_find-erase k j [] h = refl
fd_find-erase k j ((i, v) ∷ m) h = elim (Bool-cases (i == j)) [
  | inl e ↦ rw (e, differs_from i k j e h) (fd_find-erase k j m h)
  | inr e ↦ rw (e, fd_find-erase k j m h) refl
]

fd_find-erase_same : (k : ℕ) (m : List (ℕ × ℕ)) → fd_find k (fd_erase k m) ≡ none
fd_find-erase_same k [] = refl
fd_find-erase_same k ((i, v) ∷ m) = elim (Bool-cases (i == k)) [
  | inl e ↦ rw e (fd_find-erase_same k m)
  | inr e ↦ rw e (rw e (fd_find-erase_same k m))
]

fd_find-insert : (k v : ℕ) (m : List (ℕ × ℕ)) → fd_find k (fd_insert k v m) ≡ some v
fd_find-insert k v m = rw (==_refl k) refl

fd_find-insert_other :
    (k j v : ℕ) (m : List (ℕ × ℕ)) → k ≢ j → fd_find k (fd_insert j v m) ≡ fd_find k m
fd_find-insert_other k j v m h = rw (ne→== j k (λ q. h (sym q)), fd_find-erase k j m h) refl

-- What `start` leaves.
abbrev IsStarted : Fio → Unit {0} → Fio → Type 0
IsStarted s _ s' = (s'.joinable ≡ true) × (s'.fd_map ≡ s.fd_map) × (s'.next_fd ≡ 3)

start-IsStarted :
    (s : Fio) → s.standard ≡ false → s.joinable ≡ false → Returns (IsStarted s) (start s)
unfolding start read_count
start-IsStarted s h j = elim (Bool-cases (s.coyote || s.aos_seg)) [
  | inl e ↦ rw (h, e, j) (refl, refl, refl)
  | inr e ↦ rw (h, e, j) (refl, refl, refl)
]

is_empty-[] : (m : List (ℕ × ℕ)) → is_empty m ≡ true → m ≡ []
is_empty-[] [] h = refl
is_empty-[] (x ∷ m) h = absurd (true≢false (sym h))

-- The result of `file_open` for a path that could be opened.
abbrev pub IsOpened : Fio → ℕ → ℕ → Fio → Type 0
IsOpened s opened fd s' =
    (fd_find fd s'.fd_map ≡ some opened)
    × ((k : ℕ) → k ≢ fd → fd_find k s'.fd_map ≡ fd_find k s.fd_map)

insert_fd-IsOpened :
    (fd : ℕ) (s s' : Fio) → s'.fd_map ≡ s.fd_map → Returns (IsOpened s fd) (insert_fd fd s')
insert_fd-IsOpened fd s s' e = (
  fd_find-insert s'.next_fd fd s'.fd_map,
  λ k n. fd_find-insert_other k s'.next_fd fd s'.fd_map n ∙ ap (fd_find k) e,
)

-- The descriptor is added once the fault thread runs.
insert_started :
    (path : List ℕ) (s opened : Fio) (r : Run (Unit {0}))
    → true_fd path s ≢ minus_one
    → opened.fd_map ≡ s.fd_map
    → Returns (IsStarted opened) r
    → Returns
        (λ fd s'.
          IsThreaded s'
          × (((true_fd path s ≡ minus_one) × (fd ≡ minus_one) × (s'.fd_map ≡ s.fd_map))
              ⊎ ((true_fd path s ≢ minus_one) × IsOpened s (true_fd path s) fd s')))
        (and_then r (λ _. insert_fd (true_fd path s)))
insert_started path s opened (ok _ s') good e h =
    (h.0, inr (good, insert_fd-IsOpened (true_fd path s) s s' (h.1 ∙ e)))
insert_started path s opened exited good e h = elim h [ ]
insert_started path s opened aborted good e h = elim h [ ]
insert_started path s opened undefined good e h = elim h [ ]
insert_started path s opened thrown good e h = elim h [ ]
insert_started path s opened running good e h = elim h [ ]

-- Outside the mode that keeps the TLB in the device memory, opening a file returns, and the fault
-- thread exists just when a file is open if it was so before. Where the system's open fails, and only
-- there, the result is -1 and no descriptor changes; else the descriptor returned leads to the file opened, and each other one
-- where it led before.
pub file_open_lookup :
    (path : List ℕ) (s : Fio)
    → IsThreaded s
    → s.standard ≡ false
    → Returns
        (λ fd s'.
          IsThreaded s'
          × (((true_fd path s ≡ minus_one) × (fd ≡ minus_one) × (s'.fd_map ≡ s.fd_map))
              ⊎ ((true_fd path s ≢ minus_one) × IsOpened s (true_fd path s) fd s')))
        (file_open path s)
unfolding file_open
file_open_lookup path s t h = elim (Bool-cases (true_fd path s == minus_one)) [
  | inl e ↦ rw e (t, inl ((==_iff (true_fd path s) minus_one).0 e, refl, refl))
  | inr e ↦ elim (Bool-cases (is_empty s.fd_map)) [
    | inl f ↦
        rw (e, f)
          (insert_started path s opened (start opened) (is_good e) refl
            (start-IsStarted opened h (t ∙ ap not f)))
    | inr f ↦
        rw (e, f) (t ∙ ap not f, inr (is_good e, insert_fd-IsOpened (true_fd path s) s opened refl))
  ]
]
  where
    opened : Fio
    opened = record s { world = log (file_opened path) s.world }

    is_good : (true_fd path s == minus_one) ≡ false → true_fd path s ≢ minus_one
    is_good e q = true≢false (sym ((==_iff (true_fd path s) minus_one).1 q) ∙ e)

-- Closing returns exactly where a file is open: then the fault thread exists afterwards just when
-- a file is still open, the descriptor leads nowhere and the others where they led. Where no file
-- is open, closing any descriptor, which can only be a bad one, joins a thread that does not exist
-- and throws.
pub file_close_outcome :
    (fd : ℕ) (s : Fio)
    → IsThreaded s
    → ((is_empty s.fd_map ≡ false)
        × Returns
            (λ rc s'.
              IsThreaded s'
              × (fd_find fd s'.fd_map ≡ none)
              × ((k : ℕ) → k ≢ fd → fd_find k s'.fd_map ≡ fd_find k s.fd_map))
            (file_close fd s))
      ⊎ ((is_empty s.fd_map ≡ true) × (file_close fd s ≡ thrown))
unfolding file_close stop
file_close_outcome fd s t = elim (Bool-cases (is_empty s.fd_map)) [
  | inl f ↦ inr (f, rw (is_empty-[] s.fd_map f, t ∙ ap not f) refl)
  | inr f ↦ inl (
    f,
    elim (Bool-cases (is_empty (fd_erase fd s.fd_map))) [
      | inl g ↦ rw (g, t ∙ ap not f) (sym (ap not g), gone, others)
      | inr g ↦ rw g (t ∙ ap not f ∙ sym (ap not g), gone, others)
    ],
  )
]
  where
    gone : fd_find fd (fd_erase fd s.fd_map) ≡ none
    gone = fd_find-erase_same fd s.fd_map

    others : (k : ℕ) → k ≢ fd → fd_find k (fd_erase fd s.fd_map) ≡ fd_find k s.fd_map
    others k n = fd_find-erase k fd s.fd_map n
