-- ===== src/Registration/Examples/Log.antt =====
-- The event store (server/internal/store/store.go) at concrete inputs: its target is the table of
-- registration tokens.
use power_manage.Shared.{ℕ, zero, suc, ◌≡◌, true, List, refl, ◌&&◌, [], ◌∷◌, ok, err, arith, leb}
use power_manage.Shared.Int.{pos}
use power_manage.Shared.Bytes.{Bytes, codes, bytes_eq, trim_space}
use power_manage.Shared.Utf8.{valid_utf8}
use power_manage.Ulid.{ulid_path_id, is_canonical_ulid}
use power_manage.EventStore.{
  AppendRound, stored_id, version_conflict, append_event_with_version, append_pinned,
  append_prepared, prepare_event, prepare_batch, append_events_with_version, current_stream_version,
  version_taken, replay,
}
use power_manage.EventStore.Versions.{here, append_pinned_once}
use power_manage.EventStore.Replay.{replay-Reach, version_taken-Reach}
use power_manage.EventStore.Batches.{
  append_one_by_one, append_events_with_version-append_one_by_one,
}
use power_manage.Registration.Tables.{TokenRow}
use power_manage.EventStore.Replay.{empty_store}
use power_manage.Registration.{
  RegistrationPayload, registration_token_stream_type, validate_registration_token_metadata,
  validate_registration_token_owner, validate_registration_token_purpose,
}
use power_manage.Registration.Tables.{
  get_registration_token, remove_row, update_token, project_token_consume, project_token_disable,
  upsert_registration_token, hash_taken,
}
use power_manage.Registration.Project.{
  validate_projection_result, project_token_mint, project_token_event, project_token_consumed,
  project_token_disabled,
}
use power_manage.Ulid.{is_canonical_ulid}
use power_manage.Registration.Tables.{registration_token}
use power_manage.Registration.Metadata.{
  registration_token_metadata_by_id, without_hashes,
  registration_token_metadata_by_id-registration_token,
}
use power_manage.Registration.Examples.{
  is_ip, token, the_target, minted, use_event, off_event, used, Reach-used,
}

replay-Reach_example : replay the_target [] used.log ≡ ok used.tables
replay-Reach_example = replay-Reach the_target [] used Reach-used

version_taken-Reach_example :
    version_taken used.log registration_token_stream_type token 2
    ≡ (leb 1 2 && leb 2 (current_stream_version used.log registration_token_stream_type token))
version_taken-Reach_example =
    version_taken-Reach the_target [] used registration_token_stream_type token 2 Reach-used

pins : append_pinned the_target minted use_event 1 (pos 2) ≡ ok used
unfolding append_event_with_version append_pinned append_prepared prepare_event stored_id trim_space
    bytes_eq ulid_path_id current_stream_version version_taken project_token_event
    project_token_mint project_token_consumed project_token_disabled project_token_consume
    project_token_disable upsert_registration_token get_registration_token is_canonical_ulid
    hash_taken remove_row update_token validate_projection_result
    validate_registration_token_metadata validate_registration_token_owner
    validate_registration_token_purpose valid_utf8
pins = refl

append_pinned_once_example :
    append_pinned the_target used off_event 1 (pos 3) ≡ err version_conflict
append_pinned_once_example =
    append_pinned_once the_target minted used used use_event off_event 1 (pos 2) (pos 3) pins here
      refl refl

ready : prepare_event the_target use_event ≡ ok use_event
unfolding append_event_with_version append_pinned append_prepared prepare_event stored_id trim_space
    bytes_eq ulid_path_id current_stream_version version_taken project_token_event
    project_token_mint project_token_consumed project_token_disabled project_token_consume
    project_token_disable upsert_registration_token get_registration_token is_canonical_ulid
    hash_taken remove_row update_token validate_projection_result
    validate_registration_token_metadata validate_registration_token_owner
    validate_registration_token_purpose valid_utf8
ready = refl

-- The first pass reads the version before another use is stored; the second one is not disturbed.
abbrev passes : ℕ → AppendRound RegistrationPayload (List TokenRow)
passes zero = record {
  seen = empty_store [];
  current = minted;
  committed_at = pos 2;
  waited = true;
}
passes (suc n) = record { seen = minted; current = minted; committed_at = pos 2; waited = true }

rest_ready : prepare_batch the_target use_event (off_event ∷ []) ≡ ok (off_event ∷ [])
unfolding append_event_with_version append_pinned append_prepared prepare_event stored_id trim_space
    bytes_eq ulid_path_id current_stream_version version_taken project_token_event
    project_token_mint project_token_consumed project_token_disabled project_token_consume
    project_token_disable upsert_registration_token get_registration_token is_canonical_ulid
    hash_taken remove_row update_token validate_projection_result
    validate_registration_token_metadata validate_registration_token_owner
    validate_registration_token_purpose valid_utf8 prepare_batch
rest_ready = refl

append_events_with_version-append_one_by_one_example :
    append_events_with_version the_target minted (use_event ∷ off_event ∷ []) 1 (pos 2)
    ≡ append_one_by_one the_target minted (use_event ∷ off_event ∷ []) 1 (pos 2)
append_events_with_version-append_one_by_one_example =
    append_events_with_version-append_one_by_one the_target minted use_event use_event
      (off_event ∷ []) (off_event ∷ []) 1 (pos 2) (omega arith) ready rest_ready

-- The ID that is asked for may be in lower case.
abbrev asked : Bytes
asked = codes "01k0qj3e5e8r4m0d8ev3y4n6j7"

registration_token_metadata_by_id-registration_token_example :
    registration_token_metadata_by_id is_ip used.tables asked
    ≡ without_hashes is_ip (registration_token is_ip used.tables asked)
registration_token_metadata_by_id-registration_token_example =
    registration_token_metadata_by_id-registration_token is_ip used asked Reach-used
