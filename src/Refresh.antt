-- ===== src/Refresh.antt =====
-- Refresh-token families (server/internal/store/refresh_families.go): the events, the two tables with
-- their constraints (server/internal/store/migrations/014_refresh_families.sql), the statements of
-- server/internal/store/generated/refresh_families.sql.go and the projectors.
pub mod Tables
pub mod Project
pub mod Lookups
pub mod Statements
pub mod Consistent
pub mod Rotation
pub mod Starting
pub mod Invariant
pub mod Revoked
mod Examples
use power_manage.Shared.{
  ℕ, zero, suc, ◌+◌, ◌-◌, ◌*◌, Bool, true, false, ◌&&◌, ◌||◌, not, List, [], ◌∷◌, map, Option, none,
  some, Result, ok, err, ◌>>=◌, ◌>>◌, reject_if, require, ltb, leb, ◌==◌, if◌then◌else◌, length,
  any,
}
use power_manage.Shared.Int.{ℤ, pos, negsuc, ltb_ℤ}
use power_manage.Shared.Bytes.{Bytes, bytes_eq}
use power_manage.Shared.Instant.{unix_epoch_seconds, year_10000}
use power_manage.Shared.Utf8.{valid_utf8}
use power_manage.Ulid.{ulid_path_id, is_canonical_ulid, to_upper}

abbrev max_refresh_subject_bytes : ℕ
max_refresh_subject_bytes = 1024

abbrev pub sha256_size : ℕ
sha256_size = 32

-- The three payloads, as the strict JSON decoder returns them.
pub record RefreshFamilyStartedPayload : Type 0 where
  pub subject : Bytes
  pub token_hash : Bytes
  pub expires_at : ℤ

pub record RefreshTokenRotatedPayload : Type 0 where
  pub previous_token_hash : Bytes
  pub next_token_hash : Bytes
  pub expires_at : ℤ

pub record RefreshFamilyRevokedPayload : Type 0 where
  pub replayed_token_hash : Bytes

pub data RefreshPayload : Type 0 where
  family_started : RefreshFamilyStartedPayload → RefreshPayload
  token_rotated : RefreshTokenRotatedPayload → RefreshPayload
  family_revoked : RefreshFamilyRevokedPayload → RefreshPayload

-- An event of the stream `family_id`, before and after the store gives it a version.
pub record RefreshEvent : Type 0 where
  pub family_id : Bytes
  pub payload : RefreshPayload

pub record PersistedEvent : Type 0 where
  pub stream_id : Bytes
  pub stream_version : ℕ
  pub created_at : ℤ
  pub payload : RefreshPayload

pub data RefreshError : Type 0 where
  invalid_family_id invalid_subject invalid_expiry encode_failed identical_hashes : RefreshError
  wrong_start_version no_prior_start invalid_hash inconsistent_version : RefreshError
  family_is_revoked not_the_active_token token_not_in_family token_of_another_family : RefreshError
  token_not_superseded constraint_violated wrong_row_count : RefreshError

-- The first instant that has `Unix() > 0`.
abbrev first_valid_instant : ℤ
first_valid_instant = pos ((unix_epoch_seconds + 1) * 1000000000)

unfoldable pub canonical_refresh_family_id : Bytes → Result RefreshError Bytes
canonical_refresh_family_id id = elim (ulid_path_id id) [
  | ok _ ↦ ok (to_upper id)
  | err _ ↦ err invalid_family_id
]

unfoldable pub validate_refresh_subject : Bytes → Result RefreshError (Unit {0})
validate_refresh_subject s =
    reject_if
      (length s == 0
        || ltb max_refresh_subject_bytes (length s)
        || not (valid_utf8 s)
        || any (λ c. c == 0) s)
      invalid_subject

unfoldable pub validate_refresh_expiry : ℤ → Result RefreshError (Unit {0})
validate_refresh_expiry t = reject_if (ltb_ℤ t first_valid_instant) invalid_expiry

abbrev event_of : Bytes → RefreshPayload → RefreshEvent
event_of id payload = record { family_id = id; payload = payload }

-- `json.Marshal` of a time.
abbrev encodable : ℤ → Result RefreshError (Unit {0})
encodable t = reject_if (not (ltb_ℤ t year_10000)) encode_failed

unfoldable pub refresh_family_started_event :
    Bytes → Bytes → Bytes → ℤ → Result RefreshError RefreshEvent
refresh_family_started_event family_id subject token_hash expires_at = do
  id ← canonical_refresh_family_id family_id
  validate_refresh_subject subject
  validate_refresh_expiry expires_at
  encodable expires_at
  ok (
      event_of id (
        family_started
          (record { subject = subject; token_hash = token_hash; expires_at = expires_at })))

unfoldable pub refresh_token_rotated_event :
    Bytes → Bytes → Bytes → ℤ → Result RefreshError RefreshEvent
refresh_token_rotated_event family_id previous next expires_at = do
  id ← canonical_refresh_family_id family_id
  reject_if (bytes_eq previous next) identical_hashes
  validate_refresh_expiry expires_at
  encodable expires_at
  ok (
      event_of id (
        token_rotated (record {
          previous_token_hash = previous;
          next_token_hash = next;
          expires_at = expires_at;
        })))

unfoldable pub refresh_family_revoked_event : Bytes → Bytes → Result RefreshError RefreshEvent
refresh_family_revoked_event family_id replayed = do
  id ← canonical_refresh_family_id family_id
  ok (event_of id (family_revoked (record { replayed_token_hash = replayed })))
