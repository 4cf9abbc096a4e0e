-- ===== src/Common/Lists.antt =====
-- Lists measured and indexed by native numbers, under the library's names.
use Prim.Native.Nat.{ℕ, zero, suc, ◌+◌, ◌<◌}
use mathlib.Core.Path.{◌≡◌, refl}
use mathlib.Core.List.{List, [], ◌∷◌, ◌++◌}
use mathlib.Core.Option.{Option, none, some}
use native.Mathlib.Omega.{arith}

pub suc_plus : (n i : ℕ) → suc n + i ≡ suc (n + i)
suc_plus n i = omega arith

pub plus_suc : (n i : ℕ) → n + suc i ≡ suc n + i
plus_suc n i = omega arith

module _ {ℓ} {A : Type ℓ} where
  abbrev pub length : List A → ℕ
  length [] = 0
  length (x ∷ xs) = suc (length xs)

  abbrev pub get_elem? : List A → ℕ → Option A
  get_elem? [] i = none
  get_elem? (x ∷ xs) zero = some x
  get_elem? (x ∷ xs) (suc i) = get_elem? xs i

  abbrev pub get_or : List A → ℕ → A → A
  get_or [] i d = d
  get_or (x ∷ xs) zero d = x
  get_or (x ∷ xs) (suc i) d = get_or xs i d

  abbrev pub drop : ℕ → List A → List A
  drop zero xs = xs
  drop (suc n) [] = []
  drop (suc n) (x ∷ xs) = drop n xs

  -- What the rest of a list from `n` on says of item `n` and of the rest after it.
  pub drop_item :
      (n : ℕ) (xs rest : List A) (x d : A)
      → drop n xs ≡ x ∷ rest
      → (get_or xs n d ≡ x) × (drop (suc n) xs ≡ rest)
  drop_item zero [] rest x d e = ground arith
  drop_item zero (y ∷ xs) rest x d e = ground arith
  drop_item (suc n) [] rest x d e = ground arith
  drop_item (suc n) (y ∷ xs) rest x d e = drop_item n xs rest x d e

  pub get_or-drop : (n i : ℕ) (xs : List A) (d : A) → get_or (drop n xs) i d ≡ get_or xs (n + i) d
  get_or-drop zero i xs d = ground arith
  get_or-drop (suc n) i [] d = refl
  get_or-drop (suc n) i (x ∷ xs) d = ground (arith, get_or-drop n i xs d, suc_plus n i)

  pub get_or-append_left :
      (xs ys : List A) (i : ℕ) (d : A) → i < length xs → get_or (xs ++ ys) i d ≡ get_or xs i d
  get_or-append_left [] ys i d h = absurd (omega arith)
  get_or-append_left (x ∷ xs) ys zero d h = refl
  get_or-append_left (x ∷ xs) ys (suc i) d h = get_or-append_left xs ys i d (omega arith)

  pub get_or-append_right :
      (xs ys : List A) (i : ℕ) (d : A) → get_or (xs ++ ys) (length xs + i) d ≡ get_or ys i d
  get_or-append_right [] ys i d = ground arith
  get_or-append_right (x ∷ xs) ys i d =
      ground (arith, suc_plus (length xs) i, get_or-append_right xs ys i d)

  pub length-append : (xs ys : List A) → length (xs ++ ys) ≡ length xs + length ys
  length-append [] ys = omega arith
  length-append (x ∷ xs) ys = omega (arith, length-append xs ys)

-- A predicate that holds of every item.
abbrev pub All {ℓ κ} : {A : Type ℓ} → (A → Type κ) → List A → Type κ
All P [] = Unit
All P (x ∷ xs) = P x × All P xs

pub All-append {ℓ κ} :
    {A : Type ℓ} (P : A → Type κ) (xs ys : List A) → All P xs → All P ys → All P (xs ++ ys)
All-append P [] ys hx hy = hy
All-append P (x ∷ xs) ys hx hy = (hx.0, All-append P xs ys hx.1 hy)

-- An item found within the bounds satisfies the predicate; so does the default past them.
pub All-get_or {ℓ κ} :
    {A : Type ℓ} (P : A → Type κ) (xs : List A) (i : ℕ) (d : A) → All P xs → P d → P (get_or xs i d)
All-get_or P [] i d h hd = hd
All-get_or P (x ∷ xs) zero d h hd = h.0
All-get_or P (x ∷ xs) (suc i) d h hd = All-get_or P xs i d h.1 hd
