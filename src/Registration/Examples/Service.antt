-- ===== src/Registration/Examples/Service.antt =====
-- Runs of `Consume` and `Disable` (server/internal/pki/registration_tokens.go).
use power_manage.Shared.{ℕ, zero, suc, ◌<◌, ◌≡◌, ◌⊎◌, refl, inl, true, false, some, ok, err, arith}
use power_manage.Shared.Int.{pos}
use power_manage.Shared.Bytes.{bytes_eq, trim_space}
use power_manage.Shared.Utf8.{valid_utf8}
use power_manage.Ulid.{ulid_path_id, is_canonical_ulid, to_upper}
use power_manage.EventStore.{
  stored_id, append_event_with_version, append_pinned, append_prepared, prepare_event,
  current_stream_version, version_taken,
}
use power_manage.EventStore.Versions.{Step, Reach, here, next}
use power_manage.EventStore.Commits.{append_event_with_version-Step}
use power_manage.Registration.{
  agent, validate_registration_token_metadata, validate_registration_token_owner,
  validate_registration_token_purpose, canonical_registration_token_id,
  registration_token_consumed_event, registration_token_disabled_event,
}
use power_manage.Registration.Tables.{
  TokenRow, get_registration_token, remove_row, update_token, project_token_consume,
  project_token_disable, upsert_registration_token, hash_taken, registration_token,
  registration_token_from_row,
}
use power_manage.Registration.Project.{
  registration_token_target, validate_projection_result, project_token_mint, project_token_event,
  project_token_consumed, project_token_disabled,
}
use power_manage.Registration.Invariant.{TokenStore}
use power_manage.Registration.Steps.{version_of}
use power_manage.Registration.Service.{
  conflicted, Round, consume, parse_registration_token, split_at, RegistrationTokenGrant, cas_loop,
  consume_attempt, registration_token_state, check_token, attempt_of, rejected, retry_limit,
  wait_for_cas_retry, disable, disable_attempt, max_registration_cas_attempts,
}
use power_manage.Registration.Consume.{IsUse, IsUsable, consume-IsUse}
use power_manage.Registration.Progress.{consume-retry_limit}
use power_manage.Registration.Granted.{consume-granted}
use power_manage.Registration.Refused.{consume-rejected, disable-disabled}
use power_manage.Registration.Examples.{
  is_ip, digest, decode, token, wire, the_target, row, minted, use_event, used, off, uses,
  Reach-minted, Reach-used, round, quiet, busy, grant, parsed,
}

consumes : consume is_ip digest decode quiet wire agent ≡ ok (used, grant)
unfolding append_event_with_version append_pinned append_prepared prepare_event stored_id trim_space
    bytes_eq ulid_path_id current_stream_version version_taken project_token_event
    project_token_mint project_token_consumed project_token_disabled project_token_consume
    project_token_disable upsert_registration_token get_registration_token is_canonical_ulid
    hash_taken remove_row update_token validate_projection_result
    validate_registration_token_metadata validate_registration_token_owner
    validate_registration_token_purpose valid_utf8 consume cas_loop consume_attempt
    parse_registration_token split_at registration_token_state registration_token
    registration_token_from_row canonical_registration_token_id registration_token_consumed_event
    check_token attempt_of wait_for_cas_retry
consumes = refl

consume-IsUse_example :
    (n : ℕ) × (n < max_registration_cas_attempts)
    × IsUse is_ip digest decode parsed agent (quiet n) used grant
consume-IsUse_example =
    consume-IsUse is_ip digest decode quiet wire agent {after = used} {grant = grant}
      (λ n. Reach-minted) (λ n. here) consumes

usable : IsUsable is_ip digest decode parsed agent (quiet 0) (row 1 0 false (pos 1))
unfolding parse_registration_token split_at bytes_eq is_canonical_ulid
usable = (refl, refl, refl, refl, omega arith, refl)

in_table : get_registration_token minted.tables parsed.token_id ≡ some (row 1 0 false (pos 1))
unfolding parse_registration_token split_at bytes_eq is_canonical_ulid get_registration_token
in_table = refl

consume-granted_example :
    (after : TokenStore) × (grant : RegistrationTokenGrant) × (consume is_ip digest decode quiet
        wire agent
      ≡ ok (after, grant))
consume-granted_example =
    consume-granted is_ip digest decode quiet wire agent (row 1 0 false (pos 1)) Reach-minted refl
      (inl refl) in_table usable

-- Another use is stored first, and the next pass finds the token used up.
abbrev spent : ℕ → Round
spent zero = round minted used
spent (suc n) = round used used

not_usable :
    (r : TokenRow)
    → get_registration_token used.tables parsed.token_id ≡ some r
    → IsUsable is_ip digest decode parsed agent (spent 1) r
    → ⊥
unfolding parse_registration_token split_at bytes_eq is_canonical_ulid get_registration_token
not_usable r h (_, _, _, _, room, _) =
    let e : some (row 2 1 false (pos 2)) ≡ some r = h in ground (arith, e, room)

loses : consume_attempt is_ip digest decode parsed agent (spent 0) ≡ ok conflicted
unfolding append_event_with_version append_pinned append_prepared prepare_event stored_id trim_space
    bytes_eq ulid_path_id current_stream_version version_taken project_token_event
    project_token_mint project_token_consumed project_token_disabled project_token_consume
    project_token_disable upsert_registration_token get_registration_token is_canonical_ulid
    hash_taken remove_row update_token validate_projection_result
    validate_registration_token_metadata validate_registration_token_owner
    validate_registration_token_purpose valid_utf8 consume_attempt parse_registration_token split_at
    registration_token_state registration_token registration_token_from_row
    canonical_registration_token_id registration_token_consumed_event check_token attempt_of
loses = refl

first_lost :
    (m : ℕ)
    → m < 1
    → (consume_attempt is_ip digest decode parsed agent (spent m) ≡ ok conflicted)
      × ((spent m).live ≡ true)
      × ((spent m).waited ≡ true)
first_lost zero lt = (loses, refl, refl)
first_lost (suc m) lt = absurd (omega (arith, lt))

consume-rejected_example : consume is_ip digest decode spent wire agent ≡ err rejected
consume-rejected_example =
    consume-rejected is_ip digest decode spent wire agent 1 first_lost (omega arith) Reach-used refl
      (inl refl) not_usable

Reach-busy : Reach the_target minted used
Reach-busy = next here (append_event_with_version-Step the_target minted use_event 1 (pos 2) uses)

gives_up : consume is_ip digest decode busy wire agent ≡ err retry_limit
unfolding append_event_with_version append_pinned append_prepared prepare_event stored_id trim_space
    bytes_eq ulid_path_id current_stream_version version_taken project_token_event
    project_token_mint project_token_consumed project_token_disabled project_token_consume
    project_token_disable upsert_registration_token get_registration_token is_canonical_ulid
    hash_taken remove_row update_token validate_projection_result
    validate_registration_token_metadata validate_registration_token_owner
    validate_registration_token_purpose valid_utf8 consume cas_loop consume_attempt
    parse_registration_token split_at registration_token_state registration_token
    registration_token_from_row canonical_registration_token_id registration_token_consumed_event
    check_token attempt_of wait_for_cas_retry
gives_up = refl

consume-retry_limit_example :
    version_of minted (to_upper parsed.token_id) < version_of used (to_upper parsed.token_id)
consume-retry_limit_example =
    consume-retry_limit is_ip digest decode busy wire agent (λ n. Reach-minted) (λ n. Reach-busy)
      gives_up 7 (omega arith)

disables : disable is_ip quiet token ≡ ok off
unfolding append_event_with_version append_pinned append_prepared prepare_event stored_id trim_space
    bytes_eq ulid_path_id current_stream_version version_taken project_token_event
    project_token_mint project_token_consumed project_token_disabled project_token_consume
    project_token_disable upsert_registration_token get_registration_token is_canonical_ulid
    hash_taken remove_row update_token validate_projection_result
    validate_registration_token_metadata validate_registration_token_owner
    validate_registration_token_purpose valid_utf8 consume cas_loop consume_attempt
    parse_registration_token split_at registration_token_state registration_token
    registration_token_from_row canonical_registration_token_id registration_token_consumed_event
    check_token attempt_of wait_for_cas_retry disable disable_attempt
    registration_token_disabled_event
disables = refl

disable-disabled_example :
    (n : ℕ) × (n < max_registration_cas_attempts)
    × (r : TokenRow) × (get_registration_token off.tables (to_upper token) ≡ some r)
    × (r.disabled ≡ true)
    × ((off ≡ (quiet n).seen) ⊎ Step (registration_token_target is_ip) (quiet n).current off)
disable-disabled_example =
    disable-disabled is_ip quiet token {after = off} (λ n. Reach-minted) (λ n. here) disables
