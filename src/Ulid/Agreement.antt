-- ===== src/Ulid/Agreement.antt =====
-- The lower-case tolerant grammar followed by upper-casing gives exactly the canonical grammar.
use mathlib.Core.Path.{◌≡◌, refl}
use power_manage.Shared.{
  ℕ, zero, suc, ◌<◌, ◌↔◌, Bool, true, ◌&&◌, [], ◌∷◌, ok, arith, length, all, if◌then◌else◌, ◌==◌,
  ap, ltb,
}
use power_manage.Shared.Bytes.{Bytes}
use power_manage.Ulid.{
  upper_byte, to_upper, path_symbol, ulid_path_id, canonical_symbol, is_canonical_ulid, has_byte,
  crockford_base32,
}

all_below : ℕ → (ℕ → Bool) → Bool
all_below zero p = true
all_below (suc n) p = p n && all_below n p

all_below_lem : (n : ℕ) (p : ℕ → Bool) (x : ℕ) → all_below n p ≡ true → x < n → p x ≡ true
unfolding all_below
all_below_lem zero p x h lt = absurd (omega arith)
all_below_lem (suc n) p x h lt = ground (arith, all_below_lem n p x)

-- What the two symbol tests say of each other at one byte.
abbrev symbols_agree : ℕ → Bool
symbols_agree c =
    (if canonical_symbol c then path_symbol c && upper_byte c == c else true)
    && (if path_symbol c then canonical_symbol (upper_byte c) else true)

agree_table : all_below 128 symbols_agree ≡ true
unfolding all_below path_symbol canonical_symbol
agree_table = refl

canonical_symbol-lt : (c : ℕ) → canonical_symbol c ≡ true → c < 128
unfolding canonical_symbol
canonical_symbol-lt c h = ground arith

path_symbol-canonical_symbol :
    (c : ℕ) → canonical_symbol c ≡ true → (path_symbol c ≡ true) × (upper_byte c ≡ c)
path_symbol-canonical_symbol c h =
    ground (arith, canonical_symbol-lt c h, all_below_lem 128 symbols_agree c agree_table)

path_symbol-lt : (c : ℕ) → path_symbol c ≡ true → c < 128
unfolding path_symbol
path_symbol-lt c h = ground arith

canonical_symbol-upper_byte :
    (c : ℕ) → path_symbol c ≡ true → canonical_symbol (upper_byte c) ≡ true
canonical_symbol-upper_byte c h =
    ground (arith, path_symbol-lt c h, all_below_lem 128 symbols_agree c agree_table)

upper_byte_idem : (c : ℕ) → upper_byte (upper_byte c) ≡ upper_byte c
unfolding upper_byte
upper_byte_idem c = ground arith

path_symbol_upper : (c : ℕ) → path_symbol (upper_byte c) ≡ path_symbol c
unfolding path_symbol
path_symbol_upper c = ap (has_byte crockford_base32) (upper_byte_idem c)

path_symbol-upper_byte : (c : ℕ) → canonical_symbol (upper_byte c) ≡ true → path_symbol c ≡ true
path_symbol-upper_byte c h =
    ground (arith, path_symbol_upper c, path_symbol-canonical_symbol (upper_byte c) h)

length-to_upper : (s : Bytes) → length (to_upper s) ≡ length s
length-to_upper [] = refl
length-to_upper (c ∷ s) = ap suc (length-to_upper s)

all-canonical : (s : Bytes) → all path_symbol s ≡ true → all canonical_symbol (to_upper s) ≡ true
all-canonical [] h = refl
all-canonical (c ∷ s) h = ground (arith, canonical_symbol-upper_byte c, all-canonical s)

all-path :
    (s : Bytes) → all canonical_symbol s ≡ true → (all path_symbol s ≡ true) × (to_upper s ≡ s)
all-path [] h = (refl, refl)
all-path (c ∷ s) h = ground (arith, path_symbol-canonical_symbol c, all-path s)

first_byte_fixed :
    (c : ℕ)
    → b'0' < suc c
    → c < suc b'7'
    → (upper_byte c ≡ c) × (path_symbol c ≡ true) × (canonical_symbol c ≡ true)
unfolding canonical_symbol
first_byte_fixed c h k = ground (arith, path_symbol-canonical_symbol c)

canonical-all : (s : Bytes) → all canonical_symbol (to_upper s) ≡ true → all path_symbol s ≡ true
canonical-all [] h = refl
canonical-all (c ∷ s) h = ground (arith, path_symbol-upper_byte c, canonical-all s)

-- A byte whose upper case is a digit is that digit.
upper_byte-digit : (c : ℕ) → upper_byte c < suc b'7' → upper_byte c ≡ c
unfolding upper_byte
upper_byte-digit c h = ground arith

pub is_canonical_ulid-ulid_path_id :
    (id : Bytes)
    → ((ulid_path_id id ≡ ok tt) ↔ (is_canonical_ulid (to_upper id) ≡ true))
      × ((is_canonical_ulid id ≡ true) ↔ ((ulid_path_id id ≡ ok tt) × (to_upper id ≡ id)))
unfolding ulid_path_id is_canonical_ulid
is_canonical_ulid-ulid_path_id [] = (((λ h. cc), (λ h. cc)), ((λ h. cc), (λ h. cc (h.0))))
is_canonical_ulid-ulid_path_id (c ∷ cs) = (
  (
    ground (arith, length-to_upper cs, first_byte_fixed c, all-canonical cs),
    ground (arith, length-to_upper cs, upper_byte-digit c, first_byte_fixed c, canonical-all cs),
  ),
  (
    ground (arith, length-to_upper cs, first_byte_fixed c, all-path cs),
    ground (arith, length-to_upper cs, first_byte_fixed c, all-canonical cs, all-path cs),
  ),
)

abbrev is_ascii : ℕ → Bool
is_ascii c = ltb c 128

-- For an ASCII ID: the path grammar accepts it exactly when it is canonical once upper-cased; and it is
-- canonical exactly when the path grammar accepts it and upper-casing leaves it as it is.
pub path_grammar :
    (id : Bytes)
    → all is_ascii id ≡ true
    → ((ulid_path_id id ≡ ok tt) ↔ (is_canonical_ulid (to_upper id) ≡ true))
      × ((is_canonical_ulid id ≡ true) ↔ ((ulid_path_id id ≡ ok tt) × (to_upper id ≡ id)))
path_grammar id ascii = is_canonical_ulid-ulid_path_id id
