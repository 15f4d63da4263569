-- ===== src/Refresh/Examples.antt =====
-- Runs of the refresh-family projectors on a family that rotates once and is then replayed.
use power_manage.Shared.{ℕ, zero, suc, ◌*◌, ◌≡◌, ◌≢◌, refl, Bool, true, false, [], ◌∷◌, some, ok}
use power_manage.Shared.Int.{ℤ, pos}
use power_manage.Shared.Bytes.{Bytes, codes, bytes_eq}
use power_manage.Shared.Utf8.{valid_utf8}
use power_manage.Ulid.{is_canonical_ulid}
use power_manage.Refresh.{
  PersistedEvent, RefreshFamilyRevokedPayload, RefreshPayload, family_started, token_rotated,
  family_revoked, validate_refresh_subject, validate_refresh_expiry,
}
use power_manage.Refresh.Tables.{
  RefreshTables, RefreshFamily, RefreshToken, get_refresh_family, get_refresh_token,
  get_refresh_family_token, insert_refresh_family, insert_refresh_token, valid_family_row,
  update_where, count_where, project_refresh_family_rotation, project_refresh_token_superseded,
  project_revocation_row,
}
use power_manage.Refresh.Project.{
  project_event, project_all, project_refresh_family_start, project_refresh_token_rotation,
  project_refresh_family_revocation, reset_refresh_families,
}
use power_manage.Refresh.Consistent.{IsConsistent}
use power_manage.Refresh.Invariant.{project_event-IsConsistent, rebuild-IsConsistent}
use power_manage.Refresh.Revoked.{revoked_is_final, revocation-Replayed}

abbrev family : Bytes
family = codes "01K0QJ3E5E8R4M0D8EV3Y4N6J7"

abbrev repeated : ℕ → ℕ → Bytes
repeated zero b = []
repeated (suc n) b = b ∷ repeated n b

abbrev hash_of : ℕ → Bytes
hash_of b = repeated 32 b

-- January 2030.
abbrev later : ℤ
later = pos (64000000000 * 1000000000)

abbrev event : ℕ → RefreshPayload → PersistedEvent
event version payload = record {
  stream_id = family;
  stream_version = version;
  created_at = pos 1;
  payload = payload;
}

abbrev start : PersistedEvent
start = event 1 (
    family_started (record { subject = codes "alice"; token_hash = hash_of 1; expires_at = later }))

abbrev rotate : PersistedEvent
rotate = event 2 (
    token_rotated
      (record { previous_token_hash = hash_of 1; next_token_hash = hash_of 2; expires_at = later }))

abbrev replayed : RefreshFamilyRevokedPayload
replayed = record { replayed_token_hash = hash_of 1 }

abbrev revoke : PersistedEvent
revoke = event 3 (family_revoked replayed)

abbrev empty : RefreshTables
empty = record { families = []; tokens = [] }

abbrev family_row : ℕ → ℕ → Bool → RefreshFamily
family_row version active revoked = record {
  family_id = family;
  subject = codes "alice";
  projection_version = version;
  active_token_hash = hash_of active;
  revoked = revoked;
  updated_at = pos 1;
}

abbrev token_row : ℕ → Bool → RefreshToken
token_row hash superseded = record {
  token_hash = hash_of hash;
  family_id = family;
  expires_at = later;
  superseded = superseded;
}

abbrev rotated : RefreshTables
rotated = record {
  families = family_row 2 2 false ∷ [];
  tokens = token_row 2 false ∷ token_row 1 true ∷ [];
}

abbrev revoked : RefreshTables
revoked = record rotated { families = family_row 3 2 true ∷ [] }

start_and_rotate : project_all (reset_refresh_families empty) (start ∷ rotate ∷ []) ≡ ok rotated
unfolding project_all project_event project_refresh_family_start validate_refresh_subject valid_utf8
    validate_refresh_expiry insert_refresh_family get_refresh_family reset_refresh_families
    valid_family_row is_canonical_ulid insert_refresh_token get_refresh_token bytes_eq
    project_refresh_token_rotation project_refresh_family_rotation count_where
    project_refresh_token_superseded update_where
start_and_rotate = refl

revoke-rotated : project_refresh_family_revocation rotated revoke replayed ≡ ok revoked
unfolding project_refresh_family_revocation get_refresh_family bytes_eq get_refresh_family_token
    get_refresh_token project_revocation_row valid_family_row is_canonical_ulid count_where
    update_where
revoke-rotated = refl

rebuild-IsConsistent_example : IsConsistent rotated
rebuild-IsConsistent_example =
    rebuild-IsConsistent empty rotated (start ∷ rotate ∷ []) start_and_rotate

revoke_event : project_event rotated revoke ≡ ok revoked
unfolding project_event
revoke_event = revoke-rotated

project_event-IsConsistent_example : IsConsistent revoked
project_event-IsConsistent_example =
    project_event-IsConsistent rotated revoked revoke
      (rebuild-IsConsistent empty rotated (start ∷ rotate ∷ []) start_and_rotate) revoke_event

revocation-Replayed_example :
    (t : RefreshToken) × (f : RefreshFamily) × (f' : RefreshFamily) × (get_refresh_family_token
        rotated
        (hash_of 1)
      ≡ some (t, f))
    × (t.superseded ≡ true)
    × (t.family_id ≡ family)
    × (f.revoked ≡ false)
    × (get_refresh_family_token revoked (hash_of 1) ≡ some (t, f'))
    × (f'.revoked ≡ true)
    × (f'.active_token_hash ≡ f.active_token_hash)
revocation-Replayed_example = revocation-Replayed rotated revoked revoke replayed revoke-rotated

found_revoked : get_refresh_family revoked.families family ≡ some (family_row 3 2 true)
unfolding get_refresh_family bytes_eq
found_revoked = refl

-- Another family starts after the revocation.
abbrev other_family : Bytes
other_family = codes "01K0QJ3E5E8R4M0D8EV3Y4N6J8"

abbrev other_start : PersistedEvent
other_start = record {
  stream_id = other_family;
  stream_version = 1;
  created_at = pos 1;
  payload =
      family_started (record { subject = codes "bob"; token_hash = hash_of 3; expires_at = later });
}

abbrev both : RefreshTables
both = record {
  families =
      record {
        family_id = other_family;
        subject = codes "bob";
        projection_version = 1;
        active_token_hash = hash_of 3;
        revoked = false;
        updated_at = pos 1;
      }
      ∷ family_row 3 2 true
      ∷ [];
  tokens =
      record {
        token_hash = hash_of 3;
        family_id = other_family;
        expires_at = later;
        superseded = false;
      }
      ∷ token_row 2 false
      ∷ token_row 1 true
      ∷ [];
}

starts_other : project_event revoked other_start ≡ ok both
unfolding project_event project_refresh_family_start validate_refresh_subject valid_utf8
    validate_refresh_expiry insert_refresh_family get_refresh_family valid_family_row
    is_canonical_ulid insert_refresh_token get_refresh_token bytes_eq
starts_other = refl

revoked_is_final_example :
    (other_family ≢ family) × (get_refresh_family both.families family ≡ some (family_row 3 2 true))
revoked_is_final_example =
    revoked_is_final revoked both other_start family (family_row 3 2 true) found_revoked refl
      starts_other
