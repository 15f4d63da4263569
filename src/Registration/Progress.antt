-- ===== src/Registration/Progress.antt =====
-- Progress of `Consume` (server/internal/pki/registration_tokens.go): a usable token is granted unless
-- other appends to its stream come in between, and the loop gives up only when they always do.
use power_manage.Shared.{
  ℕ, ◌<◌, ◌≡◌, ◌≢◌, sym, ap, ap₂, ◌∙◌, inl, inr, Bool, true, false, ◌&&◌, not, List, [], Option,
  Result, ok, err, ◌>>◌, reject_if, leb, arith, Result-cases, Bool-cases,
}
use power_manage.Shared.Int.{ℤ, ltb_ℤ}
use power_manage.Shared.Bytes.{Bytes, bytes_eq}
use power_manage.Ulid.{to_upper}
use power_manage.EventStore.{
  StoreError, version_conflict, append_event_with_version, prepare_event, current_stream_version,
}
use power_manage.EventStore.Versions.{Reach, Reach-le}
use power_manage.EventStore.Replay.{empty_store, append_event_with_version-version_conflict}
use power_manage.EventStore.Commits.{Reach-trans}
use power_manage.Registration.{
  RegistrationTokenPurpose, purpose_eq, RegistrationError, canonical_registration_token_id,
  registration_token_consumed_event, registration_token_stream_type,
}
use power_manage.Registration.Tables.{TokenRow, RegistrationToken}
use power_manage.Registration.Project.{registration_token_target}
use power_manage.Registration.Lookups.{not_rotation}
use power_manage.EventStore.Versions.{prepare_event-to_upper}
use power_manage.Registration.Counted.{target}
use power_manage.Registration.Invariant.{TokenStore, Reachable}
use power_manage.Registration.Steps.{version_of}
use power_manage.Registration.Claims.{registration_token-IsReadOf}
use power_manage.Registration.Loop.{cas_loop-retry_limit}
use power_manage.Registration.Consume.{state-found, check_token-eq-ok, consume_attempt-eq-ok}
use power_manage.Registration.Service.{
  ServiceError, retry_limit, Round, conflicted, attempt_of, ParsedToken, registration_token_state,
  check_token, rejection, granted, consume_attempt, consume, parse_registration_token,
  max_registration_cas_attempts,
}

module _ (is_ip : Bytes → Bool) (sha256 : Bytes → Bytes)
    (decode_base64 : Bytes → Option Bytes) where
  attempt_of-conflicted :
      {A : Type 0} (r : Result (StoreError RegistrationError) A)
      → attempt_of r ≡ ok conflicted
      → r ≡ err version_conflict
  unfolding attempt_of
  attempt_of-conflicted (ok x) h = absurd (ground (arith, h))
  attempt_of-conflicted (err e) h = ground (arith, h)

  attempt_of-retry_limit :
      {A : Type 0} (r : Result (StoreError RegistrationError) A) → attempt_of r ≢ err retry_limit
  unfolding attempt_of
  attempt_of-retry_limit (ok x) h = ground (arith, h)
  attempt_of-retry_limit (err e) h = ground (arith, h)

  granted-conflict :
      (state : RegistrationToken) (r : Result (StoreError RegistrationError) TokenStore)
      → granted is_ip sha256 decode_base64 state r ≡ err version_conflict
      → r ≡ err version_conflict
  granted-conflict state (ok t) h = absurd (ground (arith, h))
  granted-conflict state (err e) h = ground (arith, h)

  rejection-retry_limit : (round : Round) → rejection round ≢ retry_limit
  rejection-retry_limit round h = ground (arith, h)

  refused :
      (b : Bool) (refusal : ServiceError) {rest : Result ServiceError (Unit {0})} {e : ServiceError}
      → (rest ≡ err e → e ≡ refusal)
      → (reject_if b refusal >> rest) ≡ err e
      → e ≡ refusal
  refused true refusal go h = ground (arith, h)
  refused false refusal go h = go h

  pub check_token-err :
      (parsed : ParsedToken) (expected : RegistrationTokenPurpose) (state : RegistrationToken)
      (found : Bool) (now : ℤ) (refusal e : ServiceError)
      → check_token is_ip sha256 decode_base64 parsed expected state found now refusal ≡ err e
      → e ≡ refusal
  unfolding check_token
  check_token-err parsed expected state found now refusal e h =
      let last : (b : Bool) → reject_if b refusal ≡ err e → e ≡ refusal = λ b g.
        elim (Bool-cases b) [ inl t ↦ ground (arith, t, g) | inr f ↦ ground (arith, f, g) ] in
      refused (not (parsed.well_formed && found && bytes_eq (sha256 parsed.secret) state.hash))
        refusal
        (refused state.disabled refusal (
          refused (not (ltb_ℤ now state.expires_at)) refusal (
            refused (leb state.max_uses state.uses) refusal
              (last (not (purpose_eq state.purpose expected))))))
        h

  state-retry_limit :
      (rows : List TokenRow) (id : Bytes)
      → registration_token_state is_ip sha256 decode_base64 rows id ≢ err retry_limit
  unfolding registration_token_state
  state-retry_limit rows id h = ground (arith, h)

  -- The loop's retry limit is no error of a pass.
  consume_attempt-retry_limit :
      (parsed : ParsedToken) (expected : RegistrationTokenPurpose) (round : Round)
      → consume_attempt is_ip sha256 decode_base64 parsed expected round ≢ err retry_limit
  unfolding consume_attempt
  consume_attempt-retry_limit parsed expected round h =
      elim (Result-cases
        (registration_token_state is_ip sha256 decode_base64 round.seen.tables parsed.token_id)) [
          | inr (x, bad) ↦
              let e : x ≡ retry_limit = ground (arith, bad, h) in
              state-retry_limit round.seen.tables parsed.token_id (bad ∙ ap err e)
          | inl ((state, found), e) ↦
              elim (Result-cases (
                check_token is_ip sha256 decode_base64 parsed expected state found round.checked_at
                  (rejection round))) [
                    | inr (x, bad) ↦
                        let limit : x ≡ retry_limit = ground (arith, e, bad, h) in
                        rejection-retry_limit round (
                          sym (
                            check_token-err parsed expected state found round.checked_at
                              (rejection round) x bad)
                          ∙ limit)
                    | inl (u, passed) ↦
                        elim (Result-cases (registration_token_consumed_event state.token_id)) [
                          | inr (x, bad) ↦ ground (arith, e, passed, bad, h)
                          | inl (event, built) ↦
                              attempt_of-retry_limit
                                (granted is_ip sha256 decode_base64 state (
                                  append_event_with_version (target is_ip) round.current event
                                    state.projection_version round.committed_at))
                                (ground (arith, e, passed, built, h))
                        ]
                  ]
        ]

  consume_attempt-conflicted :
      (parsed : ParsedToken) (expected : RegistrationTokenPurpose) (round : Round)
      → Reachable is_ip round.seen
      → Reach (target is_ip) round.seen round.current
      → consume_attempt is_ip sha256 decode_base64 parsed expected round ≡ ok conflicted
      → version_of round.seen (to_upper parsed.token_id)
        < version_of round.current (to_upper parsed.token_id)
  unfolding registration_token_consumed_event canonical_registration_token_id prepare_event
  consume_attempt-conflicted parsed expected round start r h =
      let (state, found, event, e, passed, built, done) =
        consume_attempt-eq-ok is_ip sha256 decode_base64 parsed expected round h in
      let (_, there, _, _, _, _, _) =
        check_token-eq-ok is_ip sha256 decode_base64 parsed expected state found round.checked_at
          (rejection round) passed in
      let read' =
        state-found is_ip sha256 decode_base64 round.seen.tables parsed.token_id
          (e ∙ ap (λ b. ok (state, b)) there) in
      let (row, read_of, id) =
        registration_token-IsReadOf is_ip round.seen parsed.token_id start read' in
      let (got, up, hash', purpose', off, uses', max', expires', owner', names', version) =
        read_of in
      let (prepared, ready, moved) =
        append_event_with_version-version_conflict (target is_ip) [] round.current event
          state.projection_version round.committed_at (Reach-trans (target is_ip) start r)
          (granted-conflict state _ (attempt_of-conflicted _ done)) in
      let stream : event.stream_id ≡ to_upper state.token_id = ground (arith, built) in
      let type_eq : prepared.stream_type ≡ registration_token_stream_type =
        ground (arith, ready, built) in
      let raw_type : event.stream_type ≡ registration_token_stream_type = ground (arith, built) in
      let id_eq =
        prepare_event-to_upper (target is_ip) event (not_rotation event.stream_type raw_type)
          ready in
      let to_id = id_eq ∙ ap to_upper (stream ∙ up) ∙ up ∙ id in
      let grown =
        Reach-le (target is_ip) registration_token_stream_type (to_upper parsed.token_id) r in
      let version' = version ∙ ap (version_of round.seen) id in
      let now' = ap₂ (current_stream_version round.current.log) type_eq to_id in
      ground (arith, moved, grown, version', now')

  -- `Consume` reports its retry limit only when, in each of the 1024 passes, another transaction
  -- appended to the token's stream between the read and the append.
  pub consume-retry_limit :
      (rounds : ℕ → Round) (raw : Bytes) (expected : RegistrationTokenPurpose)
      → ((n : ℕ) → Reach (registration_token_target is_ip) (empty_store []) (rounds n).seen)
      → ((n : ℕ) → Reach (registration_token_target is_ip) (rounds n).seen (rounds n).current)
      → consume is_ip sha256 decode_base64 rounds raw expected ≡ err retry_limit
      → (n : ℕ) → n < max_registration_cas_attempts
      → version_of
          (rounds n).seen
          (to_upper (parse_registration_token is_ip sha256 decode_base64 raw).token_id)
        < version_of
            (rounds n).current
            (to_upper (parse_registration_token is_ip sha256 decode_base64 raw).token_id)
  unfolding consume
  consume-retry_limit rounds raw expected start r h n lt =
      let parsed = parse_registration_token is_ip sha256 decode_base64 raw in
      consume_attempt-conflicted parsed expected (rounds n) (start n) (r n) (
        cas_loop-retry_limit (consume_attempt is_ip sha256 decode_base64 parsed expected) rounds
          (λ m. consume_attempt-retry_limit parsed expected (rounds m)) 0
          max_registration_cas_attempts n (ground (arith, h)) (omega arith) (omega (arith, lt)))
