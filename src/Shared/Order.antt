-- ===== src/Shared/Order.antt =====
-- Go's order of strings (`strings.Compare`, `<` on strings), `slices.Sort`, `slices.SortFunc` by a
-- string key and `slices.Compact`.
pub mod Sorted
use power_manage.Shared.Tests.{ltb, leb, ◌==◌, if◌then◌else◌, Bool-cases}
use power_manage.Shared.Lists.{All, any, length}
use power_manage.Shared.Bytes.{Bytes, bytes_eq, bytes_eq_iff, bytes_eq_refl}
use Prim.Native.Nat.{ℕ, zero, suc, ◌+◌, ◌<◌, ◌≤◌}
use mathlib.Core.Path.{◌≡◌, refl, sym}
use mathlib.Core.Logic.{◌⊎◌, inl, inr}
use mathlib.Core.Bool.{Bool, true, false, ◌&&◌, ◌||◌, not}
use mathlib.Core.List.{List, [], ◌∷◌, ◌++◌}
use native.Mathlib.Omega.{arith}

-- Byte-wise lexicographic order.
unfoldable pub lt_bytes : Bytes → Bytes → Bool
lt_bytes [] [] = false
lt_bytes [] (y ∷ ys) = true
lt_bytes (x ∷ xs) [] = false
lt_bytes (x ∷ xs) (y ∷ ys) = if x == y then lt_bytes xs ys else ltb x y

pub lt_bytes_irrefl : (xs : Bytes) → lt_bytes xs xs ≡ false
unfolding lt_bytes
lt_bytes_irrefl [] = refl
lt_bytes_irrefl (x ∷ xs) = ground (arith, lt_bytes_irrefl xs)

pub lt_bytes_trans :
    (xs ys zs : Bytes) → lt_bytes xs ys ≡ true → lt_bytes ys zs ≡ true → lt_bytes xs zs ≡ true
unfolding lt_bytes
lt_bytes_trans [] [] zs h k = cc
lt_bytes_trans [] (y ∷ ys) [] h k = cc
lt_bytes_trans [] (y ∷ ys) (z ∷ zs) h k = refl
lt_bytes_trans (x ∷ xs) [] zs h k = cc
lt_bytes_trans (x ∷ xs) (y ∷ ys) [] h k = cc
lt_bytes_trans (x ∷ xs) (y ∷ ys) (z ∷ zs) h k = ground (arith, lt_bytes_trans xs ys zs)

-- Two different strings are ordered one way or the other.
pub lt_bytes_total :
    (xs ys : Bytes) → lt_bytes xs ys ≡ false → bytes_eq xs ys ≡ false → lt_bytes ys xs ≡ true
unfolding lt_bytes bytes_eq
lt_bytes_total [] [] h k = cc
lt_bytes_total [] (y ∷ ys) h k = cc
lt_bytes_total (x ∷ xs) [] h k = refl
lt_bytes_total (x ∷ xs) (y ∷ ys) h k = ground (arith, lt_bytes_total xs ys)

pub lt_bytes_asymm : (xs ys : Bytes) → lt_bytes xs ys ≡ true → lt_bytes ys xs ≡ false
lt_bytes_asymm xs ys h = elim (Bool-cases (lt_bytes ys xs)) [
  | inl k ↦ cc (lt_bytes_trans xs ys xs h k, lt_bytes_irrefl xs)
  | inr k ↦ k
]

-- Sorting by a string key: insertion sort, which is stable.
module _ {ℓ} {A : Type ℓ} (key : A → Bytes) where
  unfoldable pub insert_by : A → List A → List A
  insert_by a [] = a ∷ []
  insert_by a (b ∷ bs) = if lt_bytes (key b) (key a) then b ∷ insert_by a bs else a ∷ b ∷ bs

  unfoldable pub sort_by : List A → List A
  unfolding insert_by
  sort_by [] = []
  sort_by (a ∷ as') = insert_by a (sort_by as')

  -- Sorting permutes: a test holds somewhere, or everywhere, after it as before.
  any-insert_by :
      (p : A → Bool) (a : A) (as' : List A) → any p (insert_by a as') ≡ (p a || any p as')
  unfolding insert_by
  any-insert_by p a [] = refl
  any-insert_by p a (b ∷ bs) = ground (arith, any-insert_by p a bs)

  pub any-sort_by : (p : A → Bool) (as' : List A) → any p (sort_by as') ≡ any p as'
  unfolding sort_by
  any-sort_by p [] = refl
  any-sort_by p (a ∷ as') = ground (arith, any-insert_by p a (sort_by as'), any-sort_by p as')

module _ {ℓ κ} {A : Type ℓ} (key : A → Bytes) (P : A → Type κ) where
  All-insert_by : (a : A) (as' : List A) → P a → All P as' → All P (insert_by key a as')
  unfolding insert_by
  All-insert_by a [] h k = (h, tt)
  All-insert_by a (b ∷ bs) h k = elim (Bool-cases (lt_bytes (key b) (key a))) [
    | inl e ↦ rw e (k.0, All-insert_by a bs h k.1)
    | inr e ↦ rw e (h, k)
  ]

  pub All-sort_by : (as' : List A) → All P as' → All P (sort_by key as')
  unfolding sort_by
  All-sort_by [] h = tt
  All-sort_by (a ∷ as') h = All-insert_by a (sort_by key as') h.0 (All-sort_by as' h.1)

abbrev pub self : Bytes → Bytes
self s = s

unfoldable pub sort : List Bytes → List Bytes
sort xs = sort_by self xs

-- `slices.Compact`: of neighbours that are equal the first stays.
unfoldable pub compact : List Bytes → List Bytes
compact [] = []
compact (x ∷ []) = x ∷ []
compact (x ∷ y ∷ ys) = let rest = compact (y ∷ ys) in if bytes_eq x y then rest else x ∷ rest
