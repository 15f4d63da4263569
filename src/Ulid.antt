-- ===== src/Ulid.antt =====
-- The two ULID grammars of the repository: sdk/validate/names.go `ULIDPathID`, which accepts either
-- case, and contract/identity/identity.go `IsCanonicalULID`, which accepts upper case only.
pub mod Agreement
pub mod Encode
use power_manage.Shared.{
  ℕ, ◌-◌, ◌%◌, Bool, true, false, ◌&&◌, ◌||◌, not, List, [], ◌∷◌, map, Result, ok, err, ◌>>=◌, ◌>>◌,
  reject_if, ltb, leb, ◌==◌, if◌then◌else◌, length, all, any, String,
}
use power_manage.Shared.Bytes.{Bytes, codes}

pub data UlidError : Type 0 where
  wrong_length bad_symbol overflows : UlidError

-- ULID alphabet: decimal digits and A to Z without I, L, O and U.
abbrev pub crockford_base32 : Bytes
crockford_base32 = codes "0123456789ABCDEFGHJKMNPQRSTVWXYZ"

abbrev pub ulid_len : ℕ
ulid_len = 26

-- `strings.IndexByte(s, c) >= 0`.
unfoldable pub has_byte : Bytes → ℕ → Bool
has_byte s c = any (λ b. b == c) s

-- The upper case of an ASCII letter; other bytes stay.
unfoldable pub upper_byte : ℕ → ℕ
upper_byte c = if leb b'a' c && leb c b'z' then c - 32 else c

-- `strings.ToUpper` on ASCII text (outside of it Go maps more letters). Its callers apply it to text that
-- `ULIDPathID` accepted, which is ASCII.
abbrev pub to_upper : Bytes → Bytes
to_upper = map upper_byte

unfoldable pub path_symbol : ℕ → Bool
unfolding has_byte upper_byte
path_symbol c = has_byte crockford_base32 (upper_byte c)

first_in_range : Bytes → Bool
first_in_range [] = false
first_in_range (c ∷ _) = leb b'0' c && leb c b'7'

unfoldable pub ulid_path_id : Bytes → Result UlidError (Unit {0})
unfolding path_symbol first_in_range
ulid_path_id id = do
  reject_if (not (length id == ulid_len)) wrong_length
  reject_if (not (all path_symbol id)) bad_symbol
  reject_if (not (first_in_range id)) overflows
  ok tt

unfoldable pub canonical_symbol : ℕ → Bool
canonical_symbol c =
    leb b'0' c && leb c b'9'
    || leb b'A' c
      && leb c b'Z'
      && not (c == b'I')
      && not (c == b'L')
      && not (c == b'O')
      && not (c == b'U')

unfoldable pub is_canonical_ulid : Bytes → Bool
unfolding canonical_symbol
is_canonical_ulid [] = false
is_canonical_ulid (c ∷ cs) =
    if not (length (c ∷ cs) == 26) || ltb c b'0' || ltb b'7' c
    then false
    else all canonical_symbol cs
