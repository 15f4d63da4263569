-- ===== src/Registration/Service.antt =====
-- The service of registration tokens (server/internal/pki/registration_tokens.go): the wire form of a
-- token, and the two loops that append at the version they read. `sha256.Sum256`, base64 and
-- `net.ParseIP` are parameters; what other transactions do between a read and its append is in the
-- rounds that a loop is given.
use power_manage.Shared.{
  ℕ, zero, suc, ◌+◌, Bool, true, false, ◌&&◌, ◌||◌, not, List, [], ◌∷◌, Option, none, some, Result,
  ok, err, ◌>>=◌, ◌>>◌, reject_if, leb, ◌==◌, if◌then◌else◌, length,
}
use power_manage.Shared.Int.{ℤ, pos, ltb_ℤ}
use power_manage.Shared.Bytes.{Bytes, bytes_eq, codes}
use power_manage.Ulid.{is_canonical_ulid}
use power_manage.EventStore.{Event, StoreError, version_conflict, append_event_with_version}
use power_manage.Registration.{
  RegistrationTokenPurpose, agent, gateway, other_purpose, purpose_eq, RegistrationPayload,
  RegistrationError, token_not_found, registration_token_consumed_event,
  registration_token_disabled_event,
}
use power_manage.Registration.Tables.{TokenRow, RegistrationToken, registration_token}
use power_manage.Registration.Project.{registration_token_target}
use power_manage.Registration.Invariant.{TokenStore}

abbrev pub max_registration_cas_attempts : ℕ
max_registration_cas_attempts = 1024

abbrev secret_bytes : ℕ
secret_bytes = 32

abbrev wire_len : ℕ
wire_len = 26 + 1 + 43

abbrev pub dummy_registration_token_id : Bytes
dummy_registration_token_id = codes "00000000000000000000000000"

pub data ServiceError : Type 0 where
  rejected wait_failed retry_limit invalid_expected_purpose : ServiceError
  expiry_not_in_future random_failed wrong_entropy_length time_out_of_range : ServiceError
  agent_token_with_dns_names gateway_token_without_dns_names unknown_purpose : ServiceError
  read_failed event_failed : RegistrationError → ServiceError
  persist_failed : StoreError RegistrationError → ServiceError

pub record RegistrationTokenGrant : Type 0 where
  pub token_id : Bytes
  pub owner : Bytes
  pub purpose : RegistrationTokenPurpose
  pub dns_names : List Bytes

pub record ParsedToken : Type 0 where
  pub token_id : Bytes
  pub secret : Bytes
  pub well_formed : Bool

unfoldable pub split_at : ℕ → Bytes → Bytes × Bytes
split_at zero s = ([], s)
split_at (suc n) [] = ([], [])
split_at (suc n) (c ∷ cs) = let rest = split_at n cs in (c ∷ rest.0, rest.1)

abbrev pub zero_bytes : ℕ → Bytes
zero_bytes zero = []
zero_bytes (suc n) = 0 ∷ zero_bytes n

abbrev pub malformed : ParsedToken
malformed = record {
  token_id = dummy_registration_token_id;
  secret = zero_bytes secret_bytes;
  well_formed = false;
}

-- One pass of a loop: the store that it reads, the one that it appends to, the times of both, whether
-- the context lives, and whether a wait ends before it does.
pub record Round : Type 0 where
  pub seen : TokenStore
  pub current : TokenStore
  pub checked_at : ℤ
  pub committed_at : ℤ
  pub live : Bool
  pub waited : Bool

pub data Attempt (A : Type 0) : Type 0 where
  finished : A → Attempt A
  conflicted : Attempt A

abbrev pub is_version_conflict : StoreError RegistrationError → Bool
is_version_conflict version_conflict = true
is_version_conflict _ = false

-- `reject`: the one error of all refusals, after the wait.
abbrev pub rejection : Round → ServiceError
rejection round = if round.waited then rejected else wait_failed

-- `waitForCASRetry`, with the attempts that are left.
unfoldable pub wait_for_cas_retry : Round → ℕ → Result ServiceError (Unit {0})
wait_for_cas_retry round left = do
  reject_if (not round.live) wait_failed
  reject_if (left == 0) retry_limit
  reject_if (not round.waited) wait_failed

module _ {A : Type 0} where
  -- `for attempt := range r.casAttempts`.
  unfoldable pub cas_loop :
      (Round → Result ServiceError (Attempt A)) → (ℕ → Round) → ℕ → ℕ → Result ServiceError A
  cas_loop try rounds attempt zero = err retry_limit
  cas_loop try rounds attempt (suc left) =
      let again = cas_loop try rounds (suc attempt) left in
      do
        outcome ← try (rounds attempt)
        elim outcome [
          | finished a ↦ ok a
          | conflicted ↦ wait_for_cas_retry (rounds attempt) left >> again
        ]

  -- What an append means for the loop.
  unfoldable pub attempt_of :
      Result (StoreError RegistrationError) A → Result ServiceError (Attempt A)
  attempt_of (ok a) = ok (finished a)
  attempt_of (err e) = if is_version_conflict e then ok conflicted else err (persist_failed e)

  abbrev pub read : Result RegistrationError A → Result ServiceError A
  read (ok a) = ok a
  read (err e) = err (read_failed e)

  abbrev pub made : Result RegistrationError A → Result ServiceError A
  made (ok a) = ok a
  made (err e) = err (event_failed e)

module _ (is_ip : Bytes → Bool) where
  abbrev append :
      Round → Event RegistrationPayload → ℕ → Result (StoreError RegistrationError) TokenStore
  append round event version =
      append_event_with_version (registration_token_target is_ip) round.current event version
        round.committed_at

  -- One pass of `Disable`.
  unfoldable pub disable_attempt : Bytes → Round → Result ServiceError (Attempt TokenStore)
  disable_attempt token_id round = do
    state ← read (registration_token is_ip round.seen.tables token_id)
    if state.disabled
        then ok (finished round.seen)
        else (made (registration_token_disabled_event state.token_id) >>= λ event.
            attempt_of (append round event state.projection_version))

  unfoldable pub disable : (ℕ → Round) → Bytes → Result ServiceError TokenStore
  disable rounds token_id =
      cas_loop (disable_attempt token_id) rounds 0 max_registration_cas_attempts

  module _ (sha256 : Bytes → Bytes) (decode_base64 : Bytes → Option Bytes) where
    unfoldable pub parse_registration_token : Bytes → ParsedToken
    parse_registration_token raw =
        let halves = split_at 26 raw in
        if not (length raw == wire_len) then malformed else elim (halves.1) [
          | [] ↦ malformed
          | dot ∷ encoded ↦
              if not (dot == b'.') || not (is_canonical_ulid (halves.0))
              then malformed
              else elim (decode_base64 encoded) [
                | none ↦ malformed
                | some secret ↦
                    if length secret == secret_bytes
                    then record { token_id = halves.0; secret = secret; well_formed = true }
                    else malformed
              ]
        ]

    -- The zero value of the token, with the dummy hash.
    abbrev pub dummy_token : RegistrationToken
    dummy_token = record {
      token_id = [];
      hash = sha256 (codes "power-manage:registration-token:dummy:v1");
      purpose = other_purpose [];
      dns_names = [];
      max_uses = 0;
      uses = 0;
      expires_at = pos 0;
      owner = [];
      disabled = false;
      projection_version = 0;
    }

    unfoldable pub registration_token_state :
        List TokenRow → Bytes → Result ServiceError (RegistrationToken × Bool)
    registration_token_state rows token_id = elim (registration_token is_ip rows token_id) [
      | ok state ↦ ok (state, true)
      | err token_not_found ↦ ok (dummy_token, false)
      | err e ↦ err (read_failed e)
    ]

    -- The refusals of a pass of `Consume`, in their order.
    unfoldable pub check_token :
        ParsedToken
        → RegistrationTokenPurpose
        → RegistrationToken
        → Bool
        → ℤ
        → ServiceError
        → Result ServiceError (Unit {0})
    check_token parsed expected state found now refusal = do
      reject_if (not (parsed.well_formed && found && bytes_eq (sha256 parsed.secret) state.hash))
          refusal
      reject_if state.disabled refusal
      reject_if (not (ltb_ℤ now state.expires_at)) refusal
      reject_if (leb state.max_uses state.uses) refusal
      reject_if (not (purpose_eq state.purpose expected)) refusal

    abbrev pub grant_of : RegistrationToken → RegistrationTokenGrant
    grant_of state = record {
      token_id = state.token_id;
      owner = state.owner;
      purpose = state.purpose;
      dns_names = state.dns_names;
    }

    abbrev pub granted :
        {E : Type 0}
        → RegistrationToken
        → Result E TokenStore
        → Result E (TokenStore × RegistrationTokenGrant)
    granted state (ok after) = ok (after, grant_of state)
    granted state (err e) = err e

    -- One pass of `Consume`.
    unfoldable pub consume_attempt :
        ParsedToken
        → RegistrationTokenPurpose
        → Round
        → Result ServiceError (Attempt (TokenStore × RegistrationTokenGrant))
    consume_attempt parsed expected round =
        registration_token_state round.seen.tables parsed.token_id >>= λ read_state.
        check_token parsed expected (read_state.0) (read_state.1) round.checked_at (rejection round)
        >> (made (registration_token_consumed_event (read_state.0).token_id) >>= λ event.
            attempt_of
              (granted (read_state.0) (append round event (read_state.0).projection_version)))

    unfoldable pub consume :
        (ℕ → Round)
        → Bytes
        → RegistrationTokenPurpose
        → Result ServiceError (TokenStore × RegistrationTokenGrant)
    consume rounds raw expected = do
      reject_if (not (purpose_eq expected agent) && not (purpose_eq expected gateway))
          invalid_expected_purpose
      cas_loop (consume_attempt (parse_registration_token raw) expected) rounds 0
          max_registration_cas_attempts
