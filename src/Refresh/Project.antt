-- ===== src/Refresh/Project.antt =====
-- The projectors of refresh families (server/internal/store/refresh_families.go) and the rebuild of
-- the tables from the events.
use power_manage.Shared.{
  ◌-◌, Bool, false, ◌||◌, not, List, [], ◌∷◌, Result, ok, ◌>>=◌, ◌>>◌, reject_if, require, leb,
  ◌==◌, length,
}
use power_manage.Shared.Int.{ℤ}
use power_manage.Shared.Bytes.{Bytes, bytes_eq}
use power_manage.Refresh.{
  RefreshError, PersistedEvent, RefreshFamilyStartedPayload, RefreshTokenRotatedPayload,
  RefreshFamilyRevokedPayload, family_started, token_rotated, family_revoked,
  validate_refresh_subject, validate_refresh_expiry, wrong_start_version, invalid_hash,
  no_prior_start, identical_hashes, inconsistent_version, family_is_revoked, not_the_active_token,
  token_not_in_family, token_of_another_family, token_not_superseded, sha256_size,
}
use power_manage.Refresh.Tables.{
  RefreshTables, RefreshFamily, RefreshToken, get_refresh_family, get_refresh_family_token,
  insert_refresh_family, insert_refresh_token, project_refresh_family_rotation,
  project_refresh_token_superseded, project_revocation_row,
}

abbrev is_hash : Bytes → Bool
is_hash h = length h == sha256_size

-- The arguments of `InsertRefreshFamily` and of `InsertRefreshToken`.
abbrev pub started_family : PersistedEvent → RefreshFamilyStartedPayload → RefreshFamily
started_family event payload = record {
  family_id = event.stream_id;
  subject = payload.subject;
  projection_version = event.stream_version;
  active_token_hash = payload.token_hash;
  revoked = false;
  updated_at = event.created_at;
}

abbrev pub live_token : PersistedEvent → Bytes → ℤ → RefreshToken
live_token event hash expires_at = record {
  token_hash = hash;
  family_id = event.stream_id;
  expires_at = expires_at;
  superseded = false;
}

unfoldable pub project_refresh_family_start :
    RefreshTables → PersistedEvent → RefreshFamilyStartedPayload → Result RefreshError RefreshTables
project_refresh_family_start db event payload = do
  reject_if (not (event.stream_version == 1)) wrong_start_version
  validate_refresh_subject payload.subject
  reject_if (not (is_hash payload.token_hash)) invalid_hash
  validate_refresh_expiry payload.expires_at
  with_family ← insert_refresh_family db (started_family event payload)
  insert_refresh_token with_family (live_token event payload.token_hash payload.expires_at)

unfoldable pub project_refresh_token_rotation :
    RefreshTables → PersistedEvent → RefreshTokenRotatedPayload → Result RefreshError RefreshTables
project_refresh_token_rotation db event payload = do
  reject_if (leb event.stream_version 1) no_prior_start
  reject_if (not (is_hash payload.previous_token_hash) || not (is_hash payload.next_token_hash))
      invalid_hash
  reject_if (bytes_eq payload.previous_token_hash payload.next_token_hash) identical_hashes
  validate_refresh_expiry payload.expires_at
  family ← require (get_refresh_family db.families event.stream_id) no_prior_start
  reject_if (not (family.projection_version == event.stream_version - 1)) inconsistent_version
  reject_if family.revoked family_is_revoked
  reject_if (not (bytes_eq family.active_token_hash payload.previous_token_hash))
      not_the_active_token
  rotated ← project_refresh_family_rotation db event payload
  superseded ← project_refresh_token_superseded rotated event.stream_id payload.previous_token_hash
  insert_refresh_token superseded (live_token event payload.next_token_hash payload.expires_at)

unfoldable pub project_refresh_family_revocation :
    RefreshTables → PersistedEvent → RefreshFamilyRevokedPayload → Result RefreshError RefreshTables
project_refresh_family_revocation db event payload = do
  reject_if (leb event.stream_version 1) no_prior_start
  reject_if (not (is_hash payload.replayed_token_hash)) invalid_hash
  family ← require (get_refresh_family db.families event.stream_id) no_prior_start
  reject_if (not (family.projection_version == event.stream_version - 1)) inconsistent_version
  reject_if family.revoked family_is_revoked
  replayed ← require (get_refresh_family_token db payload.replayed_token_hash) token_not_in_family
  reject_if (not (bytes_eq (replayed.0).family_id event.stream_id)) token_of_another_family
  reject_if (not (replayed.0).superseded) token_not_superseded
  project_revocation_row db event

-- The projector that `refreshFamilyEventDefinitions` names for the event's type.
unfoldable pub project_event : RefreshTables → PersistedEvent → Result RefreshError RefreshTables
project_event db event = elim event.payload [
  | family_started p ↦ project_refresh_family_start db event p
  | token_rotated p ↦ project_refresh_token_rotation db event p
  | family_revoked p ↦ project_refresh_family_revocation db event p
]

-- `resetRefreshFamilies`: the tokens go with their families (ON DELETE CASCADE).
unfoldable pub reset_refresh_families : RefreshTables → RefreshTables
reset_refresh_families db = record { families = []; tokens = [] }

-- Events one after the other, from given tables.
unfoldable pub project_all : RefreshTables → List PersistedEvent → Result RefreshError RefreshTables
project_all db [] = ok db
project_all db (e ∷ es) = do next ← project_event db e; project_all next es
