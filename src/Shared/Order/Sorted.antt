-- ===== src/Shared/Order/Sorted.antt =====
-- Sorting sorts, and compacting a sorted list leaves it strictly ascending with the same entries.
use power_manage.Shared.Tests.{Bool-cases}
use power_manage.Shared.Lists.{All, any, length}
use Prim.Native.Nat.{suc, ◌<◌}
use power_manage.Shared.Bytes.{Bytes, bytes_eq, bytes_eq→eq, bytes_eq_refl}
use power_manage.Shared.Order.{
  lt_bytes, lt_bytes_total, lt_bytes_asymm, insert_by, sort_by, sort, compact, self, All-sort_by,
  any-sort_by,
}
use mathlib.Core.Path.{◌≡◌, refl}
use mathlib.Core.Logic.{inl, inr}
use mathlib.Core.Bool.{Bool, true, false}
use mathlib.Core.List.{List, [], ◌∷◌}
use native.Mathlib.Omega.{arith}

-- The next entry, if there is one, is not below `x`; or is above it.
abbrev NotBelow : Bytes → List Bytes → Type 0
NotBelow x [] = Unit
NotBelow x (y ∷ ys) = lt_bytes y x ≡ false

abbrev pub Above : Bytes → List Bytes → Type 0
Above x [] = Unit
Above x (y ∷ ys) = lt_bytes x y ≡ true

abbrev pub IsSorted : List Bytes → Type 0
IsSorted [] = Unit
IsSorted (x ∷ xs) = NotBelow x xs × IsSorted xs

abbrev pub IsAscending : List Bytes → Type 0
IsAscending [] = Unit
IsAscending (x ∷ xs) = Above x xs × IsAscending xs

NotBelow-insert :
    (b a : Bytes) (bs : List Bytes)
    → lt_bytes b a ≡ true
    → NotBelow b bs
    → NotBelow b (insert_by self a bs)
unfolding insert_by
NotBelow-insert b a [] h k = lt_bytes_asymm b a h
NotBelow-insert b a (c ∷ cs) h k = ground (arith, lt_bytes_asymm b a h)

insert-IsSorted : (a : Bytes) (bs : List Bytes) → IsSorted bs → IsSorted (insert_by self a bs)
unfolding insert_by
insert-IsSorted a [] h = (tt, tt)
insert-IsSorted a (b ∷ bs) h = elim (Bool-cases (lt_bytes b a)) [
  | inl e ↦ rw e (NotBelow-insert b a bs e h.0, insert-IsSorted a bs h.1)
  | inr e ↦ rw e (e, h)
]

pub sort-IsSorted : (xs : List Bytes) → IsSorted (sort xs)
unfolding sort sort_by
sort-IsSorted [] = tt
sort-IsSorted (x ∷ xs) = insert-IsSorted x (sort_by self xs) (sort-IsSorted xs)

pub any-sort : (p : Bytes → Bool) (xs : List Bytes) → any p (sort xs) ≡ any p xs
unfolding sort
any-sort p xs = any-sort_by self p xs

pub All-sort : (P : Bytes → Type 0) (xs : List Bytes) → All P xs → All P (sort xs)
unfolding sort
All-sort P xs h = All-sort_by self P xs h

compact_head :
    (x : Bytes) (xs : List Bytes)
    → IsSorted (x ∷ xs)
    → (zs : List Bytes) × (compact (x ∷ xs) ≡ x ∷ zs) × IsAscending (x ∷ zs)
unfolding compact
compact_head x [] h = ([], refl, (tt, tt))
compact_head x (y ∷ ys) h =
    let (zs, e, a) = compact_head y ys h.1 in
    elim (Bool-cases (bytes_eq x y)) [
      | inl same ↦
          (zs, ground (arith, e, bytes_eq→eq x y same), ground (arith, a, bytes_eq→eq x y same))
      | inr differ ↦ (
        y ∷ zs,
        ground (arith, e),
        (lt_bytes_total y x h.0 (ground (arith, bytes_eq→eq y x, bytes_eq_refl x)), a),
      )
    ]

pub compact-IsAscending : (xs : List Bytes) → IsSorted xs → IsAscending (compact xs)
unfolding compact
compact-IsAscending [] h = tt
compact-IsAscending (x ∷ xs) h = let (zs, e, a) = compact_head x xs h in rw e a

pub any-compact : (p : Bytes → Bool) (xs : List Bytes) → any p (compact xs) ≡ any p xs
unfolding compact
any-compact p [] = refl
any-compact p (x ∷ []) = refl
any-compact p (x ∷ y ∷ ys) = ground (arith, any-compact p (y ∷ ys), bytes_eq→eq x y)

pub All-compact : (P : Bytes → Type 0) (xs : List Bytes) → All P xs → All P (compact xs)
unfolding compact
All-compact P [] h = tt
All-compact P (x ∷ []) h = h
All-compact P (x ∷ y ∷ ys) h = elim (Bool-cases (bytes_eq x y)) [
  | inl e ↦ rw e (All-compact P (y ∷ ys) h.1)
  | inr e ↦ rw e (h.0, All-compact P (y ∷ ys) h.1)
]

length-insert_by : (a : Bytes) (bs : List Bytes) → length (insert_by self a bs) ≡ suc (length bs)
unfolding insert_by
length-insert_by a [] = refl
length-insert_by a (b ∷ bs) = ground (arith, length-insert_by a bs)

pub length-sort : (xs : List Bytes) → length (sort xs) ≡ length xs
unfolding sort sort_by
length-sort [] = refl
length-sort (x ∷ xs) = ground (arith, length-insert_by x (sort_by self xs), length-sort xs)

pub length-compact_pos : (xs : List Bytes) → 0 < length xs → 0 < length (compact xs)
unfolding compact
length-compact_pos [] h = h
length-compact_pos (x ∷ []) h = h
length-compact_pos (x ∷ y ∷ ys) h = ground (arith, length-compact_pos (y ∷ ys))
