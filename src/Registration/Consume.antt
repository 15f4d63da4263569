-- ===== src/Registration/Consume.antt =====
-- The use of a registration token (server/internal/pki/registration_tokens.go `Consume`).
use power_manage.Shared.{
  ℕ, ◌+◌, ◌<◌, ◌≡◌, sym, ap, ap₂, ◌∙◌, subst, inl, inr, Bool, true, false, List, [], Option, some,
  Result, ok, err, arith, Result-cases,
}
use power_manage.Shared.Int.{ℤ, ltb_ℤ}
use power_manage.Shared.Bytes.{Bytes, bytes_eq→eq}
use power_manage.Ulid.{to_upper}
use power_manage.EventStore.{Event, StoreError, append_event_with_version}
use power_manage.EventStore.Versions.{Reach}
use power_manage.EventStore.Replay.{empty_store}
use power_manage.Registration.{
  RegistrationTokenPurpose, purpose_eq, RegistrationPayload, RegistrationError, token_consumed,
  canonical_registration_token_id, registration_token_consumed_event,
}
use power_manage.Registration.Tables.{
  TokenRow, RegistrationToken, registration_token, get_registration_token, consumed_row,
}
use power_manage.Registration.Project.{registration_token_target}
use power_manage.Registration.Effect.{Effect}
use power_manage.Registration.Lookups.{get-token_id, get-put_row}
use power_manage.Registration.Counted.{target}
use power_manage.Registration.Invariant.{TokenStore, Reachable}
use power_manage.Registration.Claims.{registration_token-IsReadOf, pinned-Effect}
use power_manage.Registration.Loop.{cas_loop-eq-ok, attempt_of-finished}
use power_manage.Registration.Service.{
  ServiceError, Round, Attempt, finished, attempt_of, ParsedToken, RegistrationTokenGrant,
  registration_token_state, check_token, rejection, grant_of, granted, consume_attempt, consume,
  parse_registration_token, max_registration_cas_attempts,
}

module _ (is_ip : Bytes → Bool) (sha256 : Bytes → Bytes)
    (decode_base64 : Bytes → Option Bytes) where
  -- A store in which a token may be used: what its row says when the use commits.
  abbrev pub IsUsable : ParsedToken → RegistrationTokenPurpose → Round → TokenRow → Type 0
  IsUsable parsed expected round row =
      (parsed.well_formed ≡ true)
      × (sha256 parsed.secret ≡ row.token_hash)
      × (row.disabled ≡ false)
      × (ltb_ℤ round.checked_at row.expires_at ≡ true)
      × (row.uses < row.max_uses)
      × (purpose_eq row.purpose expected ≡ true)

  abbrev pub IsUse :
      ParsedToken → RegistrationTokenPurpose → Round → TokenStore → RegistrationTokenGrant → Type 0
  IsUse parsed expected round after grant =
      (row used : TokenRow) × (get_registration_token round.current.tables grant.token_id
        ≡ some row)
      × IsUsable parsed expected round row
      × (get_registration_token after.tables grant.token_id ≡ some used)
      × (used.uses ≡ row.uses + 1)
      × (grant.token_id ≡ to_upper parsed.token_id)
      × (grant.owner ≡ row.owner)
      × (grant.purpose ≡ row.purpose)
      × (grant.dns_names ≡ row.dns_names)

  pub state-found :
      (rows : List TokenRow) (id : Bytes) {state : RegistrationToken}
      → registration_token_state is_ip sha256 decode_base64 rows id ≡ ok (state, true)
      → registration_token is_ip rows id ≡ ok state
  unfolding registration_token_state
  state-found rows id {state = state} h = ground (arith, h)

  pub check_token-eq-ok :
      (parsed : ParsedToken) (expected : RegistrationTokenPurpose) (state : RegistrationToken)
      (found : Bool) (now : ℤ) (refusal : ServiceError) {u : Unit {0}}
      → check_token is_ip sha256 decode_base64 parsed expected state found now refusal ≡ ok u
      → (parsed.well_formed ≡ true)
        × (found ≡ true)
        × (sha256 parsed.secret ≡ state.hash)
        × (state.disabled ≡ false)
        × (ltb_ℤ now state.expires_at ≡ true)
        × (state.uses < state.max_uses)
        × (purpose_eq state.purpose expected ≡ true)
  unfolding check_token
  check_token-eq-ok parsed expected state found now refusal h = (
    ground (arith, h),
    ground (arith, h),
    ground (arith, h, bytes_eq→eq (sha256 parsed.secret) state.hash),
    ground (arith, h),
    ground (arith, h),
    ground (arith, h),
    ground (arith, h),
  )

  granted-eq-ok :
      (state : RegistrationToken) (r : Result (StoreError RegistrationError) TokenStore)
      {after : TokenStore} {grant : RegistrationTokenGrant}
      → granted is_ip sha256 decode_base64 state r ≡ ok (after, grant)
      → (r ≡ ok after) × (grant_of is_ip sha256 decode_base64 state ≡ grant)
  granted-eq-ok state (ok t) h = (ground (arith, h), ground (arith, h))
  granted-eq-ok state (err e) h = absurd (ground (arith, h))

  -- What a pass without an error has read and checked, and its append.
  pub consume_attempt-eq-ok :
      (parsed : ParsedToken) (expected : RegistrationTokenPurpose) (round : Round)
      {outcome : Attempt (TokenStore × RegistrationTokenGrant)}
      → consume_attempt is_ip sha256 decode_base64 parsed expected round ≡ ok outcome
      → (state : RegistrationToken) × (found : Bool) × (event : Event RegistrationPayload)
        × (registration_token_state is_ip sha256 decode_base64 round.seen.tables parsed.token_id
            ≡ ok (state, found))
        × (check_token is_ip sha256 decode_base64 parsed expected state found round.checked_at
              (rejection round)
            ≡ ok tt)
        × (registration_token_consumed_event state.token_id ≡ ok event)
        × (attempt_of (
              granted is_ip sha256 decode_base64 state (
                append_event_with_version
                  (target is_ip)
                  round.current
                  event
                  state.projection_version
                  round.committed_at))
            ≡ ok outcome)
  unfolding consume_attempt
  consume_attempt-eq-ok parsed expected round {outcome = outcome} h =
      elim (Result-cases
        (registration_token_state is_ip sha256 decode_base64 round.seen.tables parsed.token_id)) [
          | inr (x, bad) ↦ absurd (ground (arith, bad, h))
          | inl ((state, found), e) ↦
              elim (Result-cases (
                check_token is_ip sha256 decode_base64 parsed expected state found round.checked_at
                  (rejection round))) [
                    | inr (x, bad) ↦ absurd (ground (arith, e, bad, h))
                    | inl (u, passed) ↦
                        elim (Result-cases (registration_token_consumed_event state.token_id)) [
                          | inr (x, bad) ↦ absurd (ground (arith, e, passed, bad, h))
                          | inl (event, built) ↦ (
                            state,
                            found,
                            event,
                            e,
                            passed,
                            built,
                            ground (arith, e, passed, built, h),
                          )
                        ]
                  ]
        ]

  consume_attempt-finished :
      (parsed : ParsedToken) (expected : RegistrationTokenPurpose) (round : Round)
      {after : TokenStore} {grant : RegistrationTokenGrant}
      → Reachable is_ip round.seen
      → Reach (target is_ip) round.seen round.current
      → consume_attempt is_ip sha256 decode_base64 parsed expected round
        ≡ ok (finished (after, grant))
      → IsUse parsed expected round after grant
  unfolding registration_token_consumed_event canonical_registration_token_id
  consume_attempt-finished parsed expected round {after = after} {grant = grant} start r h =
      let (state, found, event, e, passed, built, done) =
        consume_attempt-eq-ok parsed expected round h in
      let outcome =
        append_event_with_version (target is_ip) round.current event state.projection_version
          round.committed_at in
      let (stored, is) =
        granted-eq-ok state outcome
          (attempt_of-finished (granted is_ip sha256 decode_base64 state outcome) done) in
      let (wf, there, hash, on, time, room, purpose) =
        check_token-eq-ok parsed expected state found round.checked_at (rejection round) passed in
      let read' =
        state-found round.seen.tables parsed.token_id (e ∙ ap (λ b. ok (state, b)) there) in
      let (row, read_of, id) =
        registration_token-IsReadOf is_ip round.seen parsed.token_id start read' in
      let (got, up, hash', purpose', off, uses', max', expires', owner', names', version) =
        read_of in
      let stream : event.stream_id ≡ to_upper state.token_id = ground (arith, built) in
      let what : event.payload ≡ token_consumed = ground (arith, built) in
      let (stored_event, still, sid, sv, at, effect) =
        pinned-Effect is_ip round.seen round.current after state row event round.committed_at start
          r read_of (stream ∙ up) stored in
      let effect' =
        subst (λ p. Effect is_ip round.current.tables stored_event p after.tables) what effect in
      let (row', got', _, put) = effect' in
      let used = consumed_row row' stored_event.stream_version stored_event.created_at in
      let same : some row ≡ some row' =
        sym still ∙ sym (ap (get_registration_token round.current.tables) sid) ∙ got' in
      let row_eq : row ≡ row' = ground (arith, same) in
      let used_id : used.token_id ≡ state.token_id =
        get-token_id round.current.tables stored_event.stream_id {row = row'} got' ∙ sid in
      let after_row : get_registration_token after.tables state.token_id ≡ some used =
        ap₂ get_registration_token put (sym used_id) ∙ get-put_row round.current.tables used in
      subst (IsUse parsed expected round after) is (
        row,
        used,
        still,
        (
          wf,
          hash ∙ hash',
          sym off ∙ on,
          ground (arith, time, expires'),
          omega (arith, room, uses', max'),
          ground (arith, purpose, purpose'),
        ),
        after_row,
        omega (arith, ap (λ x. x.uses) row_eq),
        id,
        owner',
        purpose',
        names',
      )

  -- `Consume` hands out a grant only in one of at most 1024 passes. Whatever other transactions did
  -- since that pass's read, in the store that its append found, the token's row held the hash of the
  -- secret, was enabled, below its bound and of the expected purpose, and had not expired by the clock
  -- that the pass read before its checks (the append reads no clock of its own). The same transaction
  -- raised its uses by one, and the grant carries that row's owner, purpose and names.
  pub consume-IsUse :
      (rounds : ℕ → Round) (raw : Bytes) (expected : RegistrationTokenPurpose) {after : TokenStore}
      {grant : RegistrationTokenGrant}
      → ((n : ℕ) → Reach (registration_token_target is_ip) (empty_store []) (rounds n).seen)
      → ((n : ℕ) → Reach (registration_token_target is_ip) (rounds n).seen (rounds n).current)
      → consume is_ip sha256 decode_base64 rounds raw expected ≡ ok (after, grant)
      → (n : ℕ) × (n < max_registration_cas_attempts)
        × IsUse
            (parse_registration_token is_ip sha256 decode_base64 raw)
            expected
            (rounds n)
            after
            grant
  unfolding consume
  consume-IsUse rounds raw expected {after = after} {grant = grant} start r h =
      let parsed = parse_registration_token is_ip sha256 decode_base64 raw in
      let (n, lt, done) =
        cas_loop-eq-ok (consume_attempt is_ip sha256 decode_base64 parsed expected) rounds 0
          max_registration_cas_attempts {a = (after, grant)} (ground (arith, h)) in
      (n, lt, consume_attempt-finished parsed expected (rounds n) (start n) (r n) done)
