-- ===== src/Registration/Project.antt =====
-- The projectors of registration tokens (server/internal/store/registration_tokens.go) and their
-- rebuild target.
use power_manage.Shared.{
  ℕ, ◌-◌, Bool, false, not, List, [], Result, ok, err, ◌>>=◌, ◌>>◌, reject_if, require, ltb, leb,
  ◌==◌, if◌then◌else◌, length,
}
use power_manage.Shared.Int.{ℤ}
use power_manage.Shared.Bytes.{Bytes}
use power_manage.EventStore.{Persisted, Target}
use power_manage.Registration.{
  RegistrationTokenPurpose, agent, gateway, RegistrationPayload, TokenMintedPayload,
  GatewayTokenMintedPayload, TokenUpdatedPayload, token_minted, gateway_token_minted,
  token_consumed, token_disabled, token_deleted, token_updated, RegistrationError, token_exists,
  no_prior_mint, invalid_hash, token_missing, uses_above_max, invalid_for_state, wrong_row_count,
  validate_registration_token_metadata, validate_registration_token_purpose,
  registration_token_stream_type,
}
use power_manage.Registration.Tables.{
  TokenRow, get_registration_token, project_token_consume, project_token_disable,
  replace_token_metadata, delete_token_projection, upsert_registration_token,
}

abbrev pub TokenEvent : Type 0
TokenEvent = Persisted RegistrationPayload

-- `validateRegistrationTokenProjectionResult`, of the rows that a statement left and its row count.
unfoldable pub validate_projection_result :
    List TokenRow × ℕ → TokenEvent → Result RegistrationError (List TokenRow)
validate_projection_result after event =
    if after.1 == 1
    then ok (after.0)
    else (if not (after.1 == 0) then err wrong_row_count else (do
      row ← require (get_registration_token (after.0) event.stream_id) token_missing
      reject_if (not (leb event.stream_version row.projection_version)) invalid_for_state
      ok (after.0)))

-- What the two mint payloads have in common.
pub record Minted : Type 0 where
  pub token_hash : Bytes
  pub purpose : RegistrationTokenPurpose
  pub dns_names : List Bytes
  pub max_uses : ℕ
  pub expires_at : ℤ
  pub owner : Bytes

abbrev pub agent_mint : TokenMintedPayload → Minted
agent_mint p = record {
  token_hash = p.token_hash;
  purpose = agent;
  dns_names = [];
  max_uses = p.max_uses;
  expires_at = p.expires_at;
  owner = p.owner;
}

abbrev pub gateway_mint : GatewayTokenMintedPayload → Minted
gateway_mint p = record {
  token_hash = p.token_hash;
  purpose = gateway;
  dns_names = p.dns_names;
  max_uses = p.max_uses;
  expires_at = p.expires_at;
  owner = p.owner;
}

-- The row that a mint inserts. Its columns keep the payload's values: `expires_at` a time of whole
-- microseconds, as `timestamptz` has them, and `max_uses` an `int32`, the type of the payload's field.
abbrev pub minted_row : TokenEvent → Minted → List Bytes → TokenRow
minted_row event minted names = record {
  token_id = event.stream_id;
  projection_version = event.stream_version;
  token_hash = minted.token_hash;
  purpose = minted.purpose;
  dns_names = names;
  max_uses = minted.max_uses;
  uses = 0;
  expires_at = minted.expires_at;
  owner = minted.owner;
  disabled = false;
  updated_at = event.created_at;
}

unfoldable pub project_token_consumed :
    List TokenRow → TokenEvent → Result RegistrationError (List TokenRow)
project_token_consumed rows event = do
  reject_if (leb event.stream_version 1) no_prior_mint
  validate_projection_result
      (project_token_consume rows event.stream_id event.stream_version event.created_at) event

unfoldable pub project_token_disabled :
    List TokenRow → TokenEvent → Result RegistrationError (List TokenRow)
project_token_disabled rows event = do
  reject_if (leb event.stream_version 1) no_prior_mint
  validate_projection_result
      (project_token_disable rows event.stream_id event.stream_version event.created_at) event

unfoldable pub project_token_updated :
    List TokenRow → TokenEvent → TokenUpdatedPayload → Result RegistrationError (List TokenRow)
project_token_updated rows event payload = do
  reject_if (leb event.stream_version 1) no_prior_mint
  validate_registration_token_metadata payload.max_uses payload.expires_at payload.owner
  current ← require (get_registration_token rows event.stream_id) token_missing
  reject_if (ltb payload.max_uses current.uses) uses_above_max
  validate_projection_result
      (replace_token_metadata rows event.stream_id payload.max_uses payload.expires_at payload.owner
        payload.disabled (event.stream_version - 1) event.stream_version event.created_at)
      event

unfoldable pub project_token_deleted :
    List TokenRow → TokenEvent → Result RegistrationError (List TokenRow)
project_token_deleted rows event = do
  reject_if (leb event.stream_version 1) no_prior_mint
  let after = delete_token_projection rows event.stream_id (event.stream_version - 1)
  reject_if (not (after.1 == 1)) wrong_row_count
  ok (after.0)

module _ (is_ip : Bytes → Bool) where
  unfoldable pub project_token_mint :
      List TokenRow → TokenEvent → Minted → Result RegistrationError (List TokenRow)
  project_token_mint rows event minted = do
    reject_if (not (event.stream_version == 1)) token_exists
    reject_if (not (length minted.token_hash == 32)) invalid_hash
    validate_registration_token_metadata minted.max_uses minted.expires_at minted.owner
    names ← validate_registration_token_purpose is_ip minted.purpose minted.dns_names
    after ← upsert_registration_token rows (minted_row event minted names)
    validate_projection_result after event

  -- The projector that `registrationTokenEventDefinitions` names for the event's type.
  unfoldable pub project_token_event :
      List TokenRow → TokenEvent → Result RegistrationError (List TokenRow)
  project_token_event rows event = elim event.payload [
    | token_minted p ↦ project_token_mint rows event (agent_mint p)
    | gateway_token_minted p ↦ project_token_mint rows event (gateway_mint p)
    | token_consumed ↦ project_token_consumed rows event
    | token_disabled ↦ project_token_disabled rows event
    | token_deleted ↦ project_token_deleted rows event
    | token_updated p ↦ project_token_updated rows event p
  ]

  abbrev pub registration_token_target :
      Target RegistrationPayload (List TokenRow) RegistrationError
  registration_token_target = record {
    stream_type = registration_token_stream_type;
    project = project_token_event;
  }
