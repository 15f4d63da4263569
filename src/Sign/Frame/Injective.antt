-- ===== src/Sign/Frame/Injective.antt =====
-- The framing determines its fields, their number and their order.
use power_manage.Shared.{
  ℕ, zero, suc, ◌/◌, ◌%◌, ◌^◌, ◌≤◌, ◌<◌, ◌≡◌, refl, ap, List, [], ◌∷◌, ◌++◌, arith, length, All,
  length-append, append_inj,
}
use mathlib.Core.List.{append_assoc}
use native.Mathlib.Nat.{pow-suc, div-lt_iff_lt-mul}
use power_manage.Shared.Int.{ℤ, pos_part, neg_part}
use power_manage.Shared.Bytes.{Bytes}
use power_manage.Sign.Frame.{Timestamp, big_endian, uint64_bytes, to_unsigned, ts_bytes, lp, lp_all}

pub length-big_endian : (k n : ℕ) → length (big_endian k n) ≡ k
unfolding big_endian
length-big_endian zero n = refl
length-big_endian (suc k) n =
    omega
      (arith, length-append (big_endian k (n / 256)) (n % 256 ∷ []), length-big_endian k (n / 256))

div-lt-pow : (k n : ℕ) → n < 256 ^ suc k → n / 256 < 256 ^ k
div-lt-pow k n h = (div-lt_iff_lt-mul {x = n} {y = 256 ^ k} (omega arith)).1 (rw pow-suc at h)

big_endian_inj : (k m n : ℕ) → m < 256 ^ k → n < 256 ^ k → big_endian k m ≡ big_endian k n → m ≡ n
unfolding big_endian
big_endian_inj zero m n h i e = omega arith
big_endian_inj (suc k) m n h i e =
    let same =
      append_inj (big_endian k (m / 256)) (big_endian k (n / 256))
        (omega (arith, length-big_endian k (m / 256), length-big_endian k (n / 256))) e in
    let high = big_endian_inj k (m / 256) (n / 256) (div-lt-pow k m h) (div-lt-pow k n i) same.0 in
    let low : m % 256 ≡ n % 256 = cc (same.1) in omega arith

-- A field that fits the length prefix: every Go byte slice does.
abbrev pub Fits : Bytes → Type 0
Fits x = length x < 2 ^ 64

lp_inj : (x y : Bytes) {u v : Bytes} → Fits x → Fits y → lp x ++ u ≡ lp y ++ v → (x ≡ y) × (u ≡ v)
unfolding lp uint64_bytes
lp_inj x y {u = u} {v = v} h i e =
    let same =
      append_inj (big_endian 8 (length x)) (big_endian 8 (length y))
        (omega (arith, length-big_endian 8 (length x), length-big_endian 8 (length y)))
        (cc (
          e,
          append_assoc (big_endian 8 (length x)) x u,
          append_assoc (big_endian 8 (length y)) y v,
        )) in
    append_inj x y (big_endian_inj 8 (length x) (length y) h i same.0) same.1

lp_all_size : (x : Bytes) (xs : List Bytes) → 8 ≤ length (lp x ++ lp_all xs)
unfolding lp uint64_bytes
lp_all_size x xs = omega (
  arith,
  length-append (big_endian 8 (length x) ++ x) (lp_all xs),
  length-append (big_endian 8 (length x)) x,
  length-big_endian 8 (length x),
)

pub lp_all_inj : (xs ys : List Bytes) → All Fits xs → All Fits ys → lp_all xs ≡ lp_all ys → xs ≡ ys
unfolding lp_all
lp_all_inj [] [] h i e = refl
lp_all_inj [] (y ∷ ys) h i e = absurd (omega (arith, ap length e, lp_all_size y ys))
lp_all_inj (x ∷ xs) [] h i e = absurd (omega (arith, ap length e, lp_all_size x xs))
lp_all_inj (x ∷ xs) (y ∷ ys) h i e =
    let same = lp_inj x y h.0 i.0 e in cc (same.0, lp_all_inj xs ys h.1 i.1 same.1)

to_unsigned-lt_64 : (a : ℤ) → to_unsigned 64 a < 256 ^ 8
unfolding to_unsigned
to_unsigned-lt_64 a = ground arith

to_unsigned-lt_32 : (a : ℤ) → to_unsigned 32 a < 256 ^ 4
unfolding to_unsigned
to_unsigned-lt_32 a = ground arith

to_unsigned_inj_64 :
    (a b : ℤ)
    → pos_part a < 2 ^ 63
    → neg_part a ≤ 2 ^ 63
    → pos_part b < 2 ^ 63
    → neg_part b ≤ 2 ^ 63
    → to_unsigned 64 a ≡ to_unsigned 64 b
    → a ≡ b
unfolding to_unsigned
to_unsigned_inj_64 a b h i j k e = ground arith

to_unsigned_inj_32 :
    (a b : ℤ)
    → pos_part a < 2 ^ 31
    → neg_part a ≤ 2 ^ 31
    → pos_part b < 2 ^ 31
    → neg_part b ≤ 2 ^ 31
    → to_unsigned 32 a ≡ to_unsigned 32 b
    → a ≡ b
unfolding to_unsigned
to_unsigned_inj_32 a b h i j k e = ground arith

-- The ranges of the two fields of a protobuf timestamp.
pub record InRange (t : Timestamp) : Type 0 where
  pub seconds_high : pos_part t.seconds < 2 ^ 63
  pub seconds_low : neg_part t.seconds ≤ 2 ^ 63
  pub nanos_high : pos_part t.nanos < 2 ^ 31
  pub nanos_low : neg_part t.nanos ≤ 2 ^ 31

pub ts_bytes_inj : (s t : Timestamp) → InRange s → InRange t → ts_bytes s ≡ ts_bytes t → s ≡ t
unfolding ts_bytes
ts_bytes_inj s t h i e =
    let same =
      append_inj (big_endian 8 (to_unsigned 64 s.seconds)) (big_endian 8 (to_unsigned 64 t.seconds))
        (omega (
          arith,
          length-big_endian 8 (to_unsigned 64 s.seconds),
          length-big_endian 8 (to_unsigned 64 t.seconds),
        ))
        e in
    let seconds =
      big_endian_inj 8 (to_unsigned 64 s.seconds) (to_unsigned 64 t.seconds)
        (to_unsigned-lt_64 s.seconds) (to_unsigned-lt_64 t.seconds) same.0 in
    let nanos =
      big_endian_inj 4 (to_unsigned 32 s.nanos) (to_unsigned 32 t.nanos) (to_unsigned-lt_32 s.nanos)
        (to_unsigned-lt_32 t.nanos) same.1 in
    ground (
      arith,
      to_unsigned_inj_64 s.seconds t.seconds h.seconds_high h.seconds_low i.seconds_high
          i.seconds_low seconds,
      to_unsigned_inj_32 s.nanos t.nanos h.nanos_high h.nanos_low i.nanos_high i.nanos_low nanos,
    )

pub uint64_bytes-Fits : (n : ℕ) → Fits (uint64_bytes n)
unfolding uint64_bytes
uint64_bytes-Fits n = omega (arith, length-big_endian 8 n)

pub uint64_bytes_inj : (m n : ℕ) → m < 2 ^ 64 → n < 2 ^ 64 → uint64_bytes m ≡ uint64_bytes n → m ≡ n
unfolding uint64_bytes
uint64_bytes_inj m n h i e = big_endian_inj 8 m n h i e

pub ts_bytes-Fits : (t : Timestamp) → Fits (ts_bytes t)
unfolding ts_bytes
ts_bytes-Fits t = omega (
  arith,
  length-append (big_endian 8 (to_unsigned 64 t.seconds)) (big_endian 4 (to_unsigned 32 t.nanos)),
  length-big_endian 8 (to_unsigned 64 t.seconds),
  length-big_endian 4 (to_unsigned 32 t.nanos),
)

-- Framings that are equal begin with the same field, whatever follows.
pub lp_all_head :
    (x y : Bytes) (xs ys : List Bytes) → Fits x → Fits y → lp_all (x ∷ xs) ≡ lp_all (y ∷ ys) → x ≡ y
unfolding lp_all
lp_all_head x y xs ys h i e = (lp_inj x y h i e).0
