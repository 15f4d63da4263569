-- ===== src/Registration.antt =====
-- Registration tokens (server/internal/store/registration_tokens.go): the payloads, the validation and
-- the events. `net.ParseIP` is a parameter.
pub mod Tables
pub mod Project
pub mod Lookups
pub mod Effect
pub mod Life
pub mod Local
pub mod Counted
pub mod Invariant
pub mod Metadata
pub mod Steps
pub mod Service
mod Examples
pub mod Claims
pub mod Loop
pub mod Consume
pub mod Progress
pub mod Mint
pub mod Fresh
pub mod Minted
pub mod Refused
pub mod Granted
use power_manage.Shared.{
  ℕ, zero, suc, ◌+◌, Bool, true, false, ◌&&◌, ◌||◌, not, List, [], ◌∷◌, map, Result, ok, err, ◌>>=◌,
  ◌>>◌, reject_if, ltb, leb, ◌==◌, if◌then◌else◌, length, all, any,
}
use power_manage.Shared.Int.{ℤ, pos, negsuc, ltb_ℤ}
use power_manage.Shared.Instant.{marshals}
use power_manage.Shared.Bytes.{Bytes, bytes_eq, codes}
use power_manage.Shared.Utf8.{valid_utf8}
use power_manage.Authz.Catalog.{split}
use power_manage.Ulid.{ulid_path_id, to_upper}
use power_manage.EventStore.{Event}

abbrev pub registration_token_stream_type : Bytes
registration_token_stream_type = codes "registration-token"

abbrev max_registration_token_owner_bytes : ℕ
max_registration_token_owner_bytes = 256

abbrev max_gateway_dns_names : ℕ
max_gateway_dns_names = 16

abbrev max_dns_name_bytes : ℕ
max_dns_name_bytes = 253

-- A string in the source: the two constants, and any other text.
pub data RegistrationTokenPurpose : Type 0 where
  agent gateway : RegistrationTokenPurpose
  other_purpose : Bytes → RegistrationTokenPurpose

abbrev pub purpose_eq : RegistrationTokenPurpose → RegistrationTokenPurpose → Bool
purpose_eq agent agent = true
purpose_eq gateway gateway = true
purpose_eq (other_purpose a) (other_purpose b) = bytes_eq a b
purpose_eq _ _ = false

-- The payloads. `max_uses` is an `int32`, which the validation refuses below 1.
pub record TokenMintedPayload : Type 0 where
  pub token_hash : Bytes
  pub max_uses : ℕ
  pub expires_at : ℤ
  pub owner : Bytes

pub record GatewayTokenMintedPayload : Type 0 where
  pub token_hash : Bytes
  pub max_uses : ℕ
  pub expires_at : ℤ
  pub owner : Bytes
  pub dns_names : List Bytes

pub record TokenUpdatedPayload : Type 0 where
  pub max_uses : ℕ
  pub expires_at : ℤ
  pub owner : Bytes
  pub disabled : Bool

pub data RegistrationPayload : Type 0 where
  token_minted : TokenMintedPayload → RegistrationPayload
  gateway_token_minted : GatewayTokenMintedPayload → RegistrationPayload
  token_consumed token_disabled token_deleted : RegistrationPayload
  token_updated : TokenUpdatedPayload → RegistrationPayload

pub data RegistrationError : Type 0 where
  invalid_token_id invalid_max_uses zero_expiry invalid_owner owner_too_long : RegistrationError
  agent_with_dns_names wrong_dns_name_count invalid_purpose : RegistrationError
  invalid_dns_name duplicate_dns_name encode_failed : RegistrationError
  token_exists no_prior_mint invalid_hash token_missing uses_above_max : RegistrationError
  invalid_for_state constraint_violated wrong_row_count : RegistrationError
  mismatched_id invalid_version invalid_use_count token_not_found invalid_list_limit :
      RegistrationError

unfoldable pub canonical_registration_token_id : Bytes → Result RegistrationError Bytes
canonical_registration_token_id id = elim (ulid_path_id id) [
  | ok _ ↦ ok (to_upper id)
  | err _ ↦ err invalid_token_id
]

unfoldable pub validate_registration_token_owner : Bytes → Result RegistrationError (Unit {0})
validate_registration_token_owner owner = do
  reject_if (not (valid_utf8 owner) || any (λ c. c == 0) owner) invalid_owner
  reject_if (ltb max_registration_token_owner_bytes (length owner)) owner_too_long

abbrev is_zero_time : ℤ → Bool
is_zero_time t = not (ltb_ℤ t (pos 0)) && not (ltb_ℤ (pos 0) t)

unfoldable pub validate_registration_token_metadata :
    ℕ → ℤ → Bytes → Result RegistrationError (Unit {0})
validate_registration_token_metadata max_uses expires_at owner = do
  reject_if (max_uses == 0) invalid_max_uses
  reject_if (is_zero_time expires_at) zero_expiry
  validate_registration_token_owner owner

-- `strings.TrimSuffix(name, ".")`.
unfoldable pub trim_dot : Bytes → Bytes
trim_dot [] = []
trim_dot (c ∷ []) = if c == b'.' then [] else c ∷ []
trim_dot (c ∷ d ∷ cs) = c ∷ trim_dot (d ∷ cs)

abbrev label_byte : ℕ → Bool
label_byte c =
    leb b'a' c && leb c b'z' || leb b'A' c && leb c b'Z' || leb b'0' c && leb c b'9' || c == b'-'

ends_with : ℕ → Bytes → Bool
ends_with c [] = false
ends_with c (x ∷ []) = x == c
ends_with c (x ∷ y ∷ ys) = ends_with c (y ∷ ys)

abbrev starts_with : ℕ → Bytes → Bool
starts_with c [] = false
starts_with c (x ∷ xs) = x == c

unfoldable pub valid_label : Bytes → Bool
unfolding ends_with
valid_label label =
    not
      (length label == 0 || ltb 63 (length label) || starts_with b'-' label || ends_with b'-' label)
    && all label_byte label

-- The lower case of an ASCII letter, as `strings.ToLower` has it on a valid name.
abbrev lower_byte : ℕ → ℕ
lower_byte c = if leb b'A' c && leb c b'Z' then c + 32 else c

unfoldable pub dns_key : Bytes → Bytes
dns_key name = map lower_byte (trim_dot name)

abbrev pub event_of : Bytes → RegistrationPayload → Event RegistrationPayload
event_of id payload = record {
  stream_type = registration_token_stream_type;
  stream_id = id;
  payload = payload;
}

abbrev encodable : ℤ → Result RegistrationError (Unit {0})
encodable t = reject_if (not (marshals t)) encode_failed

module _ (is_ip : Bytes → Bool) where
  unfoldable pub valid_gateway_dns_name : Bytes → Bool
  valid_gateway_dns_name name =
      if length name == 0 || ltb max_dns_name_bytes (length name) || is_ip name
      then false
      else not (length (trim_dot name) == 0) && all valid_label (split b'.' (trim_dot name))

  -- The loop over the names, with the keys seen so far.
  unfoldable pub check_dns_names : List Bytes → List Bytes → Result RegistrationError (Unit {0})
  check_dns_names seen [] = ok tt
  check_dns_names seen (name ∷ names) = do
    reject_if (not (valid_gateway_dns_name name)) invalid_dns_name
    reject_if (any (bytes_eq (dns_key name)) seen) duplicate_dns_name
    check_dns_names (dns_key name ∷ seen) names

  unfoldable pub validate_registration_token_purpose :
      RegistrationTokenPurpose → List Bytes → Result RegistrationError (List Bytes)
  validate_registration_token_purpose agent names = do
    reject_if (not (length names == 0)) agent_with_dns_names
    ok []
  validate_registration_token_purpose gateway names = do
    reject_if (length names == 0 || ltb max_gateway_dns_names (length names)) wrong_dns_name_count
    check_dns_names [] names
    ok names
  validate_registration_token_purpose (other_purpose _) names = err invalid_purpose

  unfoldable pub gateway_registration_token_minted_event :
      Bytes
      → Bytes
      → ℕ
      → ℤ
      → Bytes
      → List Bytes
      → Result RegistrationError (Event RegistrationPayload)
  gateway_registration_token_minted_event token_id hash max_uses expires_at owner dns_names = do
    id ← canonical_registration_token_id token_id
    validate_registration_token_metadata max_uses expires_at owner
    names ← validate_registration_token_purpose gateway dns_names
    encodable expires_at
    ok (
        event_of id (
          gateway_token_minted (record {
            token_hash = hash;
            max_uses = max_uses;
            expires_at = expires_at;
            owner = owner;
            dns_names = names;
          })))

unfoldable pub registration_token_minted_event :
    Bytes → Bytes → ℕ → ℤ → Bytes → Result RegistrationError (Event RegistrationPayload)
registration_token_minted_event token_id hash max_uses expires_at owner = do
  id ← canonical_registration_token_id token_id
  validate_registration_token_metadata max_uses expires_at owner
  encodable expires_at
  ok (
      event_of id (
        token_minted (record {
          token_hash = hash;
          max_uses = max_uses;
          expires_at = expires_at;
          owner = owner;
        })))

unfoldable pub registration_token_consumed_event :
    Bytes → Result RegistrationError (Event RegistrationPayload)
registration_token_consumed_event token_id = do
  id ← canonical_registration_token_id token_id
  ok (event_of id token_consumed)

unfoldable pub registration_token_disabled_event :
    Bytes → Result RegistrationError (Event RegistrationPayload)
registration_token_disabled_event token_id = do
  id ← canonical_registration_token_id token_id
  ok (event_of id token_disabled)

unfoldable pub registration_token_updated_event :
    Bytes → ℕ → ℤ → Bytes → Bool → Result RegistrationError (Event RegistrationPayload)
registration_token_updated_event token_id max_uses expires_at owner disabled = do
  id ← canonical_registration_token_id token_id
  validate_registration_token_metadata max_uses expires_at owner
  encodable expires_at
  ok (
      event_of id (
        token_updated (record {
          max_uses = max_uses;
          expires_at = expires_at;
          owner = owner;
          disabled = disabled;
        })))

unfoldable pub registration_token_deleted_event :
    Bytes → Result RegistrationError (Event RegistrationPayload)
registration_token_deleted_event token_id = do
  id ← canonical_registration_token_id token_id
  ok (event_of id token_deleted)
