-- ===== src/Ulid/Encode.antt =====
-- The ULIDs that control makes (server/internal/pki/registration_tokens.go `encodeULID`): 16 bytes in 26
-- symbols of five bits.
use power_manage.Shared.{
  ℕ, zero, suc, ◌+◌, ◌-◌, ◌*◌, ◌/◌, ◌%◌, ◌^◌, ◌<◌, ◌≤◌, ◌≡◌, refl, ap, Bool, true, ◌&&◌, [], ◌∷◌,
  ◌++◌, ltb, leb, ◌==◌, if◌then◌else◌, length, all, arith, Bool-cases, inl, inr, length-append,
}
use power_manage.Shared.Bytes.{Bytes}
use power_manage.Ulid.{crockford_base32, canonical_symbol, is_canonical_ulid}

-- `ulidAlphabet[i]`.
unfoldable pub symbol_at : Bytes → ℕ → ℕ
symbol_at [] i = 0
symbol_at (c ∷ cs) zero = c
symbol_at (c ∷ cs) (suc i) = symbol_at cs i

pub record Drained : Type 0 where
  pub symbols : Bytes
  pub buffer : ℕ
  pub bits : ℕ

-- The inner loop, `for bits >= 5`; each round takes five bits, so `bits` rounds are enough.
unfoldable pub drain : ℕ → ℕ → ℕ → Drained
unfolding symbol_at
drain zero buffer bits = record { symbols = []; buffer = buffer; bits = bits }
drain (suc fuel) buffer bits =
    let left = bits - 5 in
    let rest = drain fuel (if left == 0 then 0 else buffer % 2 ^ left) left in
    if ltb bits 5 then record { symbols = []; buffer = buffer; bits = bits } else record rest {
      symbols = symbol_at crockford_base32 (buffer / 2 ^ left % 32) ∷ rest.symbols;
    }

-- The outer loop, over the bytes that are left; `buffer` is a `uint32`.
unfoldable pub encode_from : Bytes → ℕ → ℕ → Bytes
encode_from [] buffer bits = []
encode_from (value ∷ values) buffer bits =
    let drained = drain (bits + 8) ((buffer * 2 ^ 8 + value) % 2 ^ 32) (bits + 8) in
    drained.symbols ++ encode_from values drained.buffer drained.bits

-- A ULID is 128 bits in a field of 130, which starts with two zeros.
unfoldable pub encode_ulid : Bytes → Bytes
encode_ulid raw = encode_from raw 0 2

alphabet_canonical : (i : ℕ) → i < 32 → canonical_symbol (symbol_at crockford_base32 i) ≡ true
unfolding canonical_symbol symbol_at
alphabet_canonical i h = ground arith

drain-canonical :
    (fuel buffer bits : ℕ) → all canonical_symbol (drain fuel buffer bits).symbols ≡ true
unfolding drain
drain-canonical zero buffer bits = refl
drain-canonical (suc fuel) buffer bits = elim (Bool-cases (ltb bits 5)) [
  | inl b ↦ ground (arith, b)
  | inr b ↦
      let left = bits - 5 in
      let head = alphabet_canonical (buffer / 2 ^ left % 32) (omega arith) in
      let rest = drain-canonical fuel (if left == 0 then 0 else buffer % 2 ^ left) left in
      ground (arith, b, head, rest)
]

-- The number of symbols, and the bits that stay.
drain-counts :
    (fuel buffer bits : ℕ)
    → bits ≤ fuel
    → (length (drain fuel buffer bits).symbols ≡ bits / 5)
      × ((drain fuel buffer bits).bits ≡ bits % 5)
unfolding drain
drain-counts zero buffer bits h = (omega (arith, h), omega (arith, h))
drain-counts (suc fuel) buffer bits h = elim (Bool-cases (ltb bits 5)) [
  | inl b ↦ ground (arith, b)
  | inr b ↦
      let left = bits - 5 in
      let (n, m) =
        drain-counts fuel (if left == 0 then 0 else buffer % 2 ^ left) left
          (ground (arith, b, h)) in
      ground (arith, b, n, m)
]

all-append :
    (p : ℕ → Bool) (xs ys : Bytes) → all p xs ≡ true → all p ys ≡ true → all p (xs ++ ys) ≡ true
all-append p [] ys h k = k
all-append p (x ∷ xs) ys h k = ground (arith, h, all-append p xs ys)

encode_from-canonical :
    (raw : Bytes) (buffer bits : ℕ) → all canonical_symbol (encode_from raw buffer bits) ≡ true
unfolding encode_from
encode_from-canonical [] buffer bits = refl
encode_from-canonical (value ∷ values) buffer bits =
    let d = drain (bits + 8) ((buffer * 2 ^ 8 + value) % 2 ^ 32) (bits + 8) in
    all-append canonical_symbol d.symbols (encode_from values d.buffer d.bits)
      (drain-canonical (bits + 8) ((buffer * 2 ^ 8 + value) % 2 ^ 32) (bits + 8))
      (encode_from-canonical values d.buffer d.bits)

length-encode_from :
    (raw : Bytes) (buffer bits : ℕ)
    → bits < 5
    → length (encode_from raw buffer bits) ≡ (8 * length raw + bits) / 5
unfolding encode_from
length-encode_from [] buffer bits h = omega (arith, h)
length-encode_from (value ∷ values) buffer bits h =
    let next_buffer = (buffer * 2 ^ 8 + value) % 2 ^ 32 in
    let d = drain (bits + 8) next_buffer (bits + 8) in
    let (n, m) = drain-counts (bits + 8) next_buffer (bits + 8) (omega arith) in
    let rest = length-encode_from values d.buffer d.bits (omega (arith, m)) in
    omega (arith, length-append d.symbols (encode_from values d.buffer d.bits), n, m, rest)

drain-head :
    (fuel buffer bits : ℕ)
    → 0 < fuel
    → 5 ≤ bits
    → (rest : Bytes) × ((drain fuel buffer bits).symbols
        ≡ symbol_at crockford_base32 (buffer / 2 ^ (bits - 5) % 32) ∷ rest)
unfolding drain
drain-head zero buffer bits f h = absurd (omega (arith, f))
drain-head (suc fuel) buffer bits f h =
    let left = bits - 5 in
    let rest = drain fuel (if left == 0 then 0 else buffer % 2 ^ left) left in
    (rest.symbols, ground (arith, h))

-- The first symbol is that of the three highest bits.
encode_ulid_head :
    (value : ℕ) (values : Bytes)
    → value < 256
    → (i : ℕ) × (rest : Bytes) × (i < 8)
      × (encode_ulid (value ∷ values) ≡ symbol_at crockford_base32 i ∷ rest)
unfolding encode_ulid encode_from
encode_ulid_head value values h =
    let buffer = (0 * 2 ^ 8 + value) % 2 ^ 32 in
    let d = drain (2 + 8) buffer (2 + 8) in
    let (rest, head) = drain-head (2 + 8) buffer (2 + 8) (omega arith) (omega arith) in
    (
      buffer / 2 ^ (2 + 8 - 5) % 32,
      rest ++ encode_from values d.buffer d.bits,
      omega (arith, h),
      ap (λ s. s ++ encode_from values d.buffer d.bits) head,
    )

symbol_low :
    (i : ℕ)
    → i < 8
    → (leb b'0' (symbol_at crockford_base32 i) && leb (symbol_at crockford_base32 i) b'7') ≡ true
unfolding symbol_at
symbol_low i h = ground arith

ulid_valid :
    (value : ℕ) (values : Bytes) → all canonical_symbol (encode_ulid (value ∷ values)) ≡ true
unfolding encode_ulid
ulid_valid value values = encode_from-canonical (value ∷ values) 0 2

ulid_length :
    (value : ℕ) (values : Bytes) → length values ≡ 15 → length (encode_ulid (value ∷ values)) ≡ 26
unfolding encode_ulid
ulid_length value values n = omega (arith, length-encode_from (value ∷ values) 0 2 (omega arith), n)

-- The encoding of 16 bytes is a canonical ULID.
pub encode_ulid-is_canonical_ulid :
    (value : ℕ) (values : Bytes)
    → value < 256
    → length values ≡ 15
    → is_canonical_ulid (encode_ulid (value ∷ values)) ≡ true
unfolding is_canonical_ulid
encode_ulid-is_canonical_ulid value values h n =
    let (i, rest, lt, e) = encode_ulid_head value values h in
    let valid = ulid_valid value values in
    let size = ulid_length value values n in
    let low = symbol_low i lt in rw e (ground (arith, e, valid, size, low))
