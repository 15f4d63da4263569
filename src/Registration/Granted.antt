-- ===== src/Registration/Granted.antt =====
-- `Consume` of a usable token (server/internal/pki/registration_tokens.go) when nothing interferes.
use power_manage.Shared.{
  ℕ, ◌+◌, ◌<◌, ◌≡◌, ◌⊎◌, refl, sym, ap, ap₂, ◌∙◌, inl, inr, Bool, true, false, List, [], ◌∷◌,
  Option, some, ok, arith,
}
use power_manage.Shared.Int.{ℤ, ltb_ℤ}
use power_manage.Shared.Bytes.{Bytes, bytes_eq, bytes_eq_refl, trim_space}
use power_manage.Ulid.{to_upper, ulid_path_id, is_canonical_ulid}
use power_manage.Ulid.Agreement.{is_canonical_ulid-ulid_path_id}
use power_manage.EventStore.{
  append_event_with_version, append_pinned, prepare_event, persisted, version_taken,
}
use power_manage.EventStore.Versions.{Reach}
use power_manage.EventStore.Replay.{empty_store, version_taken-Reach, append_prepared-succeeds}
use power_manage.Registration.{
  RegistrationTokenPurpose, purpose_eq, agent, gateway, token_consumed, event_of,
  canonical_registration_token_id, registration_token_consumed_event,
  registration_token_stream_type,
}
use power_manage.Registration.Tables.{
  TokenRow, RegistrationToken, registration_token, get_registration_token, consumed_row,
  project_token_consume, update_token, put_row,
}
use power_manage.Registration.Project.{
  registration_token_target, TokenEvent, project_token_consumed, project_token_event,
  validate_projection_result,
}
use power_manage.Registration.Lookups.{not_rotation}
use power_manage.EventStore.{stored_id}
use power_manage.Registration.Counted.{target}
use power_manage.Registration.Invariant.{
  TokenStore, Reachable, registration_token_from_row-Reach, Reach-rows,
}
use power_manage.Registration.Consume.{IsUsable}
use power_manage.Registration.Service.{
  ServiceError, Round, finished, attempt_of, ParsedToken, RegistrationTokenGrant,
  registration_token_state, check_token, rejection, grant_of, consume_attempt, consume,
  parse_registration_token, cas_loop,
}

-- The projector of a use succeeds on a row that is older, enabled and below its bound.
consume-projects :
    (rows : List TokenRow) (event : TokenEvent) (row : TokenRow)
    → get_registration_token rows event.stream_id ≡ some row
    → 1 < event.stream_version
    → row.projection_version < event.stream_version
    → row.disabled ≡ false
    → row.uses < row.max_uses
    → project_token_consumed rows event
      ≡ ok (put_row rows (consumed_row row event.stream_version event.created_at))
unfolding project_token_consumed project_token_consume update_token validate_projection_result
consume-projects rows event row got v old on room = ground (arith, got, v, old, on, room)

module _ (is_ip : Bytes → Bool) where
  -- A use of a token at the version of its stream is stored.
  append-use :
      (s : TokenStore) (id : Bytes) (row : TokenRow) (now : ℤ)
      → Reachable is_ip s
      → ulid_path_id id ≡ ok tt
      → to_upper id ≡ id
      → get_registration_token s.tables id ≡ some row
      → row.disabled ≡ false
      → row.uses < row.max_uses
      → (after : TokenStore) × (append_event_with_version
            (target is_ip)
            s
            (event_of id token_consumed)
            row.projection_version
            now
          ≡ ok after)
  unfolding append_event_with_version append_pinned prepare_event stored_id project_token_event
      trim_space
  append-use s id row now r valid up got on room =
      let (_, (v, p, _)) = Reach-rows is_ip s id row r got in
      let stored = persisted (event_of id token_consumed) (row.projection_version + 1) now in
      let ready : prepare_event (target is_ip) (event_of id token_consumed)
          ≡ ok (event_of id token_consumed) =
        ground (
          arith,
          valid,
          up,
          bytes_eq_refl registration_token_stream_type,
          not_rotation registration_token_stream_type refl,
        ) in
      let free : version_taken s.log registration_token_stream_type id (row.projection_version + 1)
          ≡ false =
        ground (
          arith,
          version_taken-Reach (target is_ip) [] s registration_token_stream_type id
              (row.projection_version + 1) r,
          v,
        ) in
      let projects : project_token_event is_ip s.tables stored
          ≡ ok (put_row s.tables (consumed_row row (row.projection_version + 1) now)) =
        consume-projects s.tables stored row got (omega (arith, p)) (omega arith) on room in
      let done =
        append_prepared-succeeds (target is_ip) [] s (event_of id token_consumed)
          (row.projection_version + 1) now
          (put_row s.tables (consumed_row row (row.projection_version + 1) now)) free projects in
      let rows = put_row s.tables (consumed_row row (row.projection_version + 1) now) in
      (record { log = stored ∷ s.log; tables = rows }, ground (arith, ready, v, done))

  module _ (sha256 : Bytes → Bytes) (decode_base64 : Bytes → Option Bytes) where
    parse-is_canonical_ulid :
        (raw : Bytes)
        → (parse_registration_token is_ip sha256 decode_base64 raw).well_formed ≡ true
        → is_canonical_ulid (parse_registration_token is_ip sha256 decode_base64 raw).token_id
          ≡ true
    unfolding parse_registration_token
    parse-is_canonical_ulid raw h = ground (arith, h)

    check-passes :
        (parsed : ParsedToken) (expected : RegistrationTokenPurpose) (state : RegistrationToken)
        (round : Round) (refusal : ServiceError)
        → parsed.well_formed ≡ true
        → bytes_eq (sha256 parsed.secret) state.hash ≡ true
        → state.disabled ≡ false
        → ltb_ℤ round.checked_at state.expires_at ≡ true
        → state.uses < state.max_uses
        → purpose_eq state.purpose expected ≡ true
        → check_token is_ip sha256 decode_base64 parsed expected state true round.checked_at refusal
          ≡ ok tt
    unfolding check_token
    check-passes parsed expected state round refusal wf hash on time room purpose =
        ground (arith, wf, hash, on, time, room, purpose)

    use-granted :
        (parsed : ParsedToken) (expected : RegistrationTokenPurpose) (round : Round)
        (row : TokenRow)
        → Reachable is_ip round.seen
        → round.current ≡ round.seen
        → is_canonical_ulid parsed.token_id ≡ true
        → get_registration_token round.seen.tables parsed.token_id ≡ some row
        → IsUsable is_ip sha256 decode_base64 parsed expected round row
        → (after : TokenStore) × (grant : RegistrationTokenGrant) × (consume_attempt is_ip sha256
              decode_base64 parsed expected round
            ≡ ok (finished (after, grant)))
    unfolding consume_attempt registration_token_state registration_token
        canonical_registration_token_id registration_token_consumed_event attempt_of
    use-granted parsed expected round row r still canonical got
          (wf, hash, on, time, room, purpose) =
        let id = parsed.token_id in
        let (valid, up) = ((is_canonical_ulid-ulid_path_id id).1).0 canonical in
        let (
          state, read', hash', purpose', off, uses', max', expires', owner', names', id', version',
        ) =
          registration_token_from_row-Reach is_ip round.seen id row r got in
        let (after, stored) =
          append-use round.seen id row round.committed_at r valid up got on room in
        let found : registration_token is_ip round.seen.tables id ≡ ok state =
          ground (arith, valid, up, got, read') in
        let passed : check_token is_ip sha256 decode_base64 parsed expected state true
              round.checked_at (rejection round)
            ≡ ok tt =
          check-passes parsed expected state round (rejection round) wf
            (ap (bytes_eq (sha256 parsed.secret)) (hash' ∙ sym hash)
              ∙ bytes_eq_refl (sha256 parsed.secret))
            (off ∙ on) (ground (arith, time, expires')) (omega (arith, room, uses', max'))
            (ground (arith, purpose, purpose')) in
        let appended : append_event_with_version (target is_ip) round.current
              (event_of state.token_id token_consumed) state.projection_version round.committed_at
            ≡ ok after =
          ap
            (λ store.
              append_event_with_version (target is_ip) store
                (event_of state.token_id token_consumed) state.projection_version
                round.committed_at)
            still
          ∙ ap₂
              (λ i v.
                append_event_with_version (target is_ip) round.seen (event_of i token_consumed) v
                  round.committed_at)
              id' version'
          ∙ stored in
        (
          after,
          grant_of is_ip sha256 decode_base64 state,
          ground (arith, found, passed, id', valid, up, appended),
        )

    -- A token that is usable, asked for with the right purpose, is granted in the first pass when no
    -- other append comes between its read and its append.
    pub consume-granted :
        (rounds : ℕ → Round) (raw : Bytes) (expected : RegistrationTokenPurpose) (row : TokenRow)
        → Reach (registration_token_target is_ip) (empty_store []) (rounds 0).seen
        → (rounds 0).current ≡ (rounds 0).seen
        → (expected ≡ agent) ⊎ (expected ≡ gateway)
        → get_registration_token
            (rounds 0).seen.tables
            (parse_registration_token is_ip sha256 decode_base64 raw).token_id
          ≡ some row
        → IsUsable is_ip sha256 decode_base64
            (parse_registration_token is_ip sha256 decode_base64 raw)
            expected
            (rounds 0)
            row
        → (after : TokenStore) × (grant : RegistrationTokenGrant) × (consume is_ip sha256
              decode_base64 rounds raw expected
            ≡ ok (after, grant))
    unfolding consume cas_loop
    consume-granted rounds raw expected row r still known got usable =
        let parsed = parse_registration_token is_ip sha256 decode_base64 raw in
        let (after, grant, done) =
          use-granted parsed expected (rounds 0) row r still (parse-is_canonical_ulid raw usable.0)
            got usable in
        (
          after,
          grant,
          elim known [ inl e ↦ ground (arith, e, done) | inr e ↦ ground (arith, e, done) ],
        )
