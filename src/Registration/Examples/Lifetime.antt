-- ===== src/Registration/Examples/Lifetime.antt =====
-- Runs of the projectors and of appends on the life of a token
-- (server/internal/store/registration_tokens.go).
use power_manage.Shared.{◌<◌, ◌≡◌, refl, inl, inr, true, false, [], ◌∷◌, some, ok, arith}
use power_manage.Shared.Int.{pos}
use power_manage.Shared.Bytes.{Bytes, codes, bytes_eq, trim_space}
use power_manage.Shared.Utf8.{valid_utf8}
use power_manage.Ulid.{ulid_path_id, is_canonical_ulid}
use power_manage.EventStore.{
  stored_id, Event, append_event_with_version, append_pinned, append_prepared, prepare_event,
  current_stream_version, version_taken, persisted,
}
use power_manage.EventStore.Versions.{here, next}
use power_manage.EventStore.Commits.{append_event_with_version-Step}
use power_manage.Registration.{
  RegistrationPayload, token_consumed, token_deleted, token_updated, event_of,
  validate_registration_token_metadata, validate_registration_token_owner,
  validate_registration_token_purpose,
}
use power_manage.Registration.Tables.{
  TokenRow, get_registration_token, remove_row, update_token, project_token_consume,
  project_token_disable, replace_token_metadata, delete_token_projection, upsert_registration_token,
  hash_taken,
}
use power_manage.Registration.Project.{
  validate_projection_result, project_token_mint, project_token_event, project_token_consumed,
  project_token_disabled, project_token_updated, project_token_deleted,
}
use power_manage.Registration.Life.{Life, project_token_event-Life}
use power_manage.Registration.Counted.{IsWellFormed, IsCurrent}
use power_manage.Registration.Invariant.{TokenStore, Reach-rows}
use power_manage.Registration.Steps.{StaysDead, dead_for_ever}
use power_manage.Registration.Examples.{
  is_ip, token, the_target, mint_raw, row, minted, use_event, off_event, used, off, turns_off,
  Reach-minted, Reach-used,
}

Reach-rows_example :
    IsWellFormed is_ip token (row 2 1 false (pos 2))
    × IsCurrent is_ip used.log token (row 2 1 false (pos 2))
unfolding get_registration_token bytes_eq
Reach-rows_example = Reach-rows is_ip used token (row 2 1 false (pos 2)) Reach-used refl

-- An update that would enable the token again.
abbrev enable_event : Event RegistrationPayload
enable_event = event_of token (
    token_updated
      (record { max_uses = 1; expires_at = pos 100; owner = codes "alice"; disabled = false }))

abbrev still_off : TokenStore
still_off = record {
  log = persisted enable_event 3 (pos 3) ∷ off.log;
  tables = row 3 0 true (pos 3) ∷ [];
}

updates : append_event_with_version the_target off enable_event 2 (pos 3) ≡ ok still_off
unfolding append_event_with_version append_pinned append_prepared prepare_event stored_id trim_space
    bytes_eq ulid_path_id current_stream_version version_taken project_token_event
    project_token_mint project_token_consumed project_token_disabled project_token_consume
    project_token_disable upsert_registration_token get_registration_token is_canonical_ulid
    hash_taken remove_row update_token validate_projection_result
    validate_registration_token_metadata validate_registration_token_owner
    validate_registration_token_purpose valid_utf8 project_token_updated replace_token_metadata
updates = refl

abbrev delete_event : Event RegistrationPayload
delete_event = event_of token token_deleted

abbrev gone : TokenStore
gone = record { log = persisted delete_event 2 (pos 2) ∷ minted.log; tables = [] }

deletes : append_event_with_version the_target minted delete_event 1 (pos 2) ≡ ok gone
unfolding append_event_with_version append_pinned append_prepared prepare_event stored_id trim_space
    bytes_eq ulid_path_id current_stream_version version_taken project_token_event
    project_token_deleted delete_token_projection get_registration_token is_canonical_ulid
    remove_row
deletes = refl

-- An event of another stream after the deletion.
abbrev other_token : Bytes
other_token = codes "01K0QJ3E5E8R4M0D8EV3Y4N6J9"

abbrev other_mint : Event RegistrationPayload
other_mint = record mint_raw { stream_id = other_token }

abbrev moved_on : TokenStore
moved_on = record {
  log = persisted other_mint 1 (pos 3) ∷ gone.log;
  tables = record (row 1 0 false (pos 3)) { token_id = other_token } ∷ [];
}

mints_other : append_event_with_version the_target gone other_mint 0 (pos 3) ≡ ok moved_on
unfolding append_event_with_version append_pinned append_prepared prepare_event stored_id trim_space
    bytes_eq ulid_path_id current_stream_version version_taken project_token_event
    project_token_mint upsert_registration_token get_registration_token is_canonical_ulid hash_taken
    remove_row validate_projection_result validate_registration_token_metadata
    validate_registration_token_owner validate_registration_token_purpose valid_utf8
mints_other = refl

dead_for_ever_example :
    StaysDead is_ip
      (get_registration_token off.tables token)
      (get_registration_token still_off.tables token)
    × StaysDead is_ip
        (get_registration_token gone.tables token)
        (get_registration_token moved_on.tables token)
unfolding current_stream_version bytes_eq get_registration_token
dead_for_ever_example = (
  dead_for_ever is_ip off still_off token
      (next Reach-minted
        (append_event_with_version-Step the_target minted off_event 1 (pos 2) turns_off))
      (omega arith) (inr (row 2 0 true (pos 2), refl, refl))
      (next here (append_event_with_version-Step the_target off enable_event 2 (pos 3) updates)),
  dead_for_ever is_ip gone moved_on token
      (next Reach-minted
        (append_event_with_version-Step the_target minted delete_event 1 (pos 2) deletes))
      (omega arith) (inl refl)
      (next here (append_event_with_version-Step the_target gone other_mint 0 (pos 3) mints_other)),
)

older :
    (r : TokenRow) → get_registration_token minted.tables token ≡ some r → r.projection_version < 2
unfolding get_registration_token bytes_eq
older r h = let e : some (row 1 0 false (pos 1)) ≡ some r = h in ground (arith, e)

projects_use :
    project_token_event is_ip minted.tables (persisted use_event 2 (pos 2)) ≡ ok used.tables
unfolding append_event_with_version append_pinned append_prepared prepare_event stored_id trim_space
    bytes_eq ulid_path_id current_stream_version version_taken project_token_event
    project_token_mint project_token_consumed project_token_disabled project_token_consume
    project_token_disable upsert_registration_token get_registration_token is_canonical_ulid
    hash_taken remove_row update_token validate_projection_result
    validate_registration_token_metadata validate_registration_token_owner
    validate_registration_token_purpose valid_utf8
projects_use = refl

project_token_event-Life_example :
    Life is_ip token_consumed
      (persisted use_event 2 (pos 2))
      (get_registration_token minted.tables token)
      (get_registration_token used.tables token)
    × (get_registration_token used.tables other_token
        ≡ get_registration_token minted.tables other_token)
unfolding bytes_eq
project_token_event-Life_example =
    project_token_event-Life is_ip minted.tables used.tables (persisted use_event 2 (pos 2))
      other_token older refl projects_use
