-- ===== src/Registration/Refused.antt =====
-- The refusals of `Consume` and the end of `Disable` (server/internal/pki/registration_tokens.go).
use power_manage.Shared.{
  ℕ, ◌+◌, ◌<◌, ◌≡◌, ◌⊎◌, refl, sym, ap, ap₂, ◌∙◌, subst, inl, inr, Bool, true, false, List, [],
  Option, some, ok, err, arith, Result-cases, Option-cases, Bool-cases,
}
use power_manage.Shared.Int.{ℤ}
use power_manage.Shared.Bytes.{Bytes}
use power_manage.Ulid.{to_upper, is_canonical_ulid}
use power_manage.Ulid.Agreement.{is_canonical_ulid-ulid_path_id}
use power_manage.EventStore.Versions.{Reach, Step}
use power_manage.EventStore.Replay.{empty_store}
use power_manage.Registration.{
  RegistrationTokenPurpose, agent, gateway, token_disabled, token_not_found,
  canonical_registration_token_id, registration_token_disabled_event,
}
use power_manage.Registration.Tables.{
  TokenRow, RegistrationToken, registration_token, get_registration_token, disabled_row,
}
use power_manage.Registration.Project.{registration_token_target}
use power_manage.Registration.Effect.{Effect}
use power_manage.Registration.Lookups.{get-token_id, get-put_row}
use power_manage.Registration.Counted.{target}
use power_manage.Registration.Invariant.{TokenStore, Reachable, registration_token_from_row-Reach}
use power_manage.EventStore.Commits.{append_event_with_version-Step}
use power_manage.Registration.Claims.{registration_token-IsReadOf, pinned-Effect}
use power_manage.Registration.Loop.{cas_loop-eq-ok, cas_loop-skip, IsLost, attempt_of-finished}
use power_manage.Registration.Consume.{IsUsable, check_token-eq-ok}
use power_manage.Registration.Progress.{check_token-err}
use power_manage.Registration.Service.{
  ServiceError, rejected, Round, finished, conflicted, ParsedToken, registration_token_state,
  check_token, rejection, consume_attempt, consume, parse_registration_token,
  max_registration_cas_attempts, cas_loop, disable_attempt, disable, dummy_token,
}

module _ (is_ip : Bytes → Bool) (sha256 : Bytes → Bytes)
    (decode_base64 : Bytes → Option Bytes) where
  parsed-is_canonical_ulid :
      (raw : Bytes)
      → is_canonical_ulid (parse_registration_token is_ip sha256 decode_base64 raw).token_id ≡ true
  unfolding parse_registration_token is_canonical_ulid
  parsed-is_canonical_ulid raw = ground (arith)

  state-missing :
      (rows : List TokenRow) (id : Bytes)
      → registration_token is_ip rows id ≡ err token_not_found
      → (state : RegistrationToken) × (registration_token_state is_ip sha256 decode_base64 rows id
          ≡ ok (state, false))
  unfolding registration_token_state
  state-missing rows id h = (dummy_token is_ip sha256 decode_base64, ground (arith, h))

  not-found :
      (parsed : ParsedToken) (expected : RegistrationTokenPurpose) (state : RegistrationToken)
      (now : ℤ) (refusal : ServiceError)
      → check_token is_ip sha256 decode_base64 parsed expected state false now refusal ≡ err refusal
  unfolding check_token
  not-found parsed expected state now refusal = ground arith

  attempt-rejected :
      (parsed : ParsedToken) (expected : RegistrationTokenPurpose) (round : Round)
      → Reachable is_ip round.seen
      → is_canonical_ulid parsed.token_id ≡ true
      → ((row : TokenRow)
          → get_registration_token round.seen.tables parsed.token_id ≡ some row
          → IsUsable is_ip sha256 decode_base64 parsed expected round row
          → ⊥)
      → consume_attempt is_ip sha256 decode_base64 parsed expected round ≡ err (rejection round)
  unfolding consume_attempt registration_token_state registration_token
      canonical_registration_token_id
  attempt-rejected parsed expected round r canonical unusable =
      let id = parsed.token_id in
      let (valid, up) = ((is_canonical_ulid-ulid_path_id id).1).0 canonical in
      elim (Option-cases (get_registration_token round.seen.tables id)) [
        | inl gone ↦
            let missing : registration_token is_ip round.seen.tables id ≡ err token_not_found =
              ground (arith, valid, up, gone) in
            let (state, e) = state-missing round.seen.tables id missing in
            ground (arith, e, not-found parsed expected state round.checked_at (rejection round))
        | inr (row, got) ↦
            let (
              state, read', hash', purpose', off, uses', max', expires', owner', names', id',
              version',
            ) =
              registration_token_from_row-Reach is_ip round.seen id row r got in
            let found : registration_token is_ip round.seen.tables id ≡ ok state =
              ground (arith, valid, up, got, read') in
            elim (Result-cases (
              check_token is_ip sha256 decode_base64 parsed expected state true round.checked_at
                (rejection round))) [
                  | inr (e, bad) ↦
                      let is =
                        check_token-err is_ip sha256 decode_base64 parsed expected state true
                          round.checked_at (rejection round) e bad in
                      ground (arith, found, bad, is)
                  | inl (u, passed) ↦
                      let (wf, _, hash, on, time, room, purpose) =
                        check_token-eq-ok is_ip sha256 decode_base64 parsed expected state true
                          round.checked_at (rejection round) passed in
                      absurd (
                        unusable row got (
                          wf,
                          hash ∙ hash',
                          sym off ∙ on,
                          ground (arith, time, expires'),
                          omega (arith, room, uses', max'),
                          ground (arith, purpose, purpose'),
                        ))
                ]
      ]

  -- Every refusal is the same error: when the passes before lost against other transactions and waited
  -- for their retries, and the token that was sent is not usable in the reachable store that the next one
  -- of the 1024 passes reads, whatever the reason, malformed, unknown, of another secret, disabled,
  -- expired, used up or of the other purpose, the answer to a request for one of the two known purposes,
  -- once the wait has passed, is `ErrInvalidRegistrationToken`.
  pub consume-rejected :
      (rounds : ℕ → Round) (raw : Bytes) (expected : RegistrationTokenPurpose) (n : ℕ)
      → ((m : ℕ)
          → m < n
          → (consume_attempt is_ip sha256 decode_base64
                (parse_registration_token is_ip sha256 decode_base64 raw)
                expected
                (rounds m)
              ≡ ok conflicted)
            × ((rounds m).live ≡ true)
            × ((rounds m).waited ≡ true))
      → n < max_registration_cas_attempts
      → Reach (registration_token_target is_ip) (empty_store []) (rounds n).seen
      → (rounds n).waited ≡ true
      → (expected ≡ agent) ⊎ (expected ≡ gateway)
      → ((row : TokenRow)
          → get_registration_token
              (rounds n).seen.tables
              (parse_registration_token is_ip sha256 decode_base64 raw).token_id
            ≡ some row
          → IsUsable is_ip sha256 decode_base64
              (parse_registration_token is_ip sha256 decode_base64 raw)
              expected
              (rounds n)
              row
          → ⊥)
      → consume is_ip sha256 decode_base64 rounds raw expected ≡ err rejected
  unfolding consume
  consume-rejected rounds raw expected n before lt r waited known unusable =
      let parsed = parse_registration_token is_ip sha256 decode_base64 raw in
      let attempt = consume_attempt is_ip sha256 decode_base64 parsed expected in
      let refused : attempt (rounds n) ≡ err rejected =
        attempt-rejected parsed expected (rounds n) r (parsed-is_canonical_ulid raw) unusable
        ∙ ground (arith, waited) in
      let zero_add : (m : ℕ) → m + 0 ≡ m = λ m. omega arith in
      let loop : cas_loop attempt rounds 0 max_registration_cas_attempts ≡ err rejected =
        cas_loop-skip attempt rounds 0 max_registration_cas_attempts n rejected
          (λ m less. subst (IsLost attempt rounds) (sym (zero_add m)) (before m less)) lt
          (ap (λ k. attempt (rounds k)) (zero_add n) ∙ refused) in
      elim known [ inl e ↦ ground (arith, e, loop) | inr e ↦ ground (arith, e, loop) ]

module _ (is_ip : Bytes → Bool) where
  disable_attempt-disabled :
      (token_id : Bytes) (round : Round) {after : TokenStore}
      → Reachable is_ip round.seen
      → Reach (target is_ip) round.seen round.current
      → disable_attempt is_ip token_id round ≡ ok (finished after)
      → (row : TokenRow) × (get_registration_token after.tables (to_upper token_id) ≡ some row)
        × (row.disabled ≡ true)
        × ((after ≡ round.seen) ⊎ Step (registration_token_target is_ip) round.current after)
  unfolding disable_attempt registration_token_disabled_event canonical_registration_token_id
  disable_attempt-disabled token_id round {after = after} start r h =
      elim (Result-cases (registration_token is_ip round.seen.tables token_id)) [
        | inr (e, bad) ↦ absurd (ground (arith, bad, h))
        | inl (state, e) ↦
            let (row, read_of, id) =
              registration_token-IsReadOf is_ip round.seen token_id start e in
            let (got, up, hash', purpose', off, uses', max', expires', owner', names', version) =
              read_of in
            elim (Bool-cases state.disabled) [
              | inl b ↦
                  let is : after ≡ round.seen = ground (arith, e, b, h) in
                  (
                    row,
                    ap₂ (λ (t : TokenStore) i. get_registration_token t.tables i) is (sym id) ∙ got,
                    sym off ∙ b,
                    inl is,
                  )
              | inr b ↦ elim (Result-cases (registration_token_disabled_event state.token_id)) [
                | inr (x, bad) ↦ absurd (ground (arith, e, b, bad, h))
                | inl (event, built) ↦
                    let stored =
                      attempt_of-finished _ {a = after} (ground (arith, e, b, built, h)) in
                    let stream : event.stream_id ≡ to_upper state.token_id =
                      ground (arith, built) in
                    let what : event.payload ≡ token_disabled = ground (arith, built) in
                    let (stored_event, still, sid, sv, at, effect) =
                      pinned-Effect is_ip round.seen round.current after state row event
                        round.committed_at start r read_of (stream ∙ up) stored in
                    let (row', got', _, put) =
                      subst (λ p. Effect is_ip round.current.tables stored_event p after.tables)
                        what effect in
                    let off_row =
                      disabled_row row' stored_event.stream_version stored_event.created_at in
                    let off_id : off_row.token_id ≡ to_upper token_id =
                      get-token_id round.current.tables stored_event.stream_id {row = row'} got'
                      ∙ sid
                      ∙ id in
                    (
                      off_row,
                      ap₂ get_registration_token put (sym off_id)
                          ∙ get-put_row round.current.tables off_row,
                      refl,
                      inr (
                          append_event_with_version-Step (target is_ip) round.current event
                            state.projection_version round.committed_at stored),
                    )
              ]
            ]
      ]

  -- When `Disable` succeeds, the token has a row in the store that it leaves, and the row is disabled.
  -- That store is the one that one of at most 1024 passes read, or it is made by one append to the store
  -- that the pass found.
  pub disable-disabled :
      (rounds : ℕ → Round) (token_id : Bytes) {after : TokenStore}
      → ((n : ℕ) → Reach (registration_token_target is_ip) (empty_store []) (rounds n).seen)
      → ((n : ℕ) → Reach (registration_token_target is_ip) (rounds n).seen (rounds n).current)
      → disable is_ip rounds token_id ≡ ok after
      → (n : ℕ) × (n < max_registration_cas_attempts)
        × (row : TokenRow) × (get_registration_token after.tables (to_upper token_id) ≡ some row)
        × (row.disabled ≡ true)
        × ((after ≡ (rounds n).seen)
            ⊎ Step (registration_token_target is_ip) (rounds n).current after)
  unfolding disable
  disable-disabled rounds token_id {after = after} start r h =
      let (n, lt, done) =
        cas_loop-eq-ok (disable_attempt is_ip token_id) rounds 0 max_registration_cas_attempts
          {a = after} h in
      let (row, got, off, from) =
        disable_attempt-disabled token_id (rounds n) (start n) (r n) done in
      (n, omega (arith, lt), row, got, off, from)
