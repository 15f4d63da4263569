-- ===== src/Registration/Mint.antt =====
-- The minting of registration tokens (server/internal/pki/registration_tokens.go `Mint`), and that what
-- it hands out is accepted back.
use power_manage.Shared.{
  ℕ, ◌-◌, ◌*◌, ◌/◌, ◌%◌, ◌^◌, Bool, ◌||◌, not, List, ◌∷◌, ◌++◌, Option, Result, ok, err, ◌>>=◌,
  ◌>>◌, reject_if, require, ltb, ◌==◌, length,
}
use power_manage.Shared.Int.{ℤ, pos, ltb_ℤ, pos_part}
use power_manage.Shared.Instant.{unix_epoch_seconds}
use power_manage.Shared.Bytes.{Bytes}
use power_manage.Ulid.Encode.{encode_ulid}
use power_manage.EventStore.{Event, append_event_with_version}
use power_manage.Registration.{
  RegistrationTokenPurpose, agent, gateway, other_purpose, RegistrationPayload,
  registration_token_minted_event, gateway_registration_token_minted_event,
}
use power_manage.Registration.Project.{registration_token_target}
use power_manage.Registration.Invariant.{TokenStore}
use power_manage.Registration.Service.{
  ServiceError, expiry_not_in_future, random_failed, wrong_entropy_length, time_out_of_range,
  agent_token_with_dns_names, gateway_token_without_dns_names, unknown_purpose, persist_failed,
  dummy_registration_token_id, zero_bytes, split_at, made,
}

pub record RegistrationTokenOptions : Type 0 where
  pub purpose : RegistrationTokenPurpose
  pub max_uses : ℕ
  pub expires_at : ℤ
  pub owner : Bytes
  pub dns_names : List Bytes

pub record MintedRegistrationToken : Type 0 where
  pub token_id : Bytes
  pub token : Bytes

abbrev pub entropy_bytes : ℕ
entropy_bytes = 10

abbrev max_ulid_timestamp : ℕ
max_ulid_timestamp = 2 ^ 48 - 1

abbrev pub unix_epoch : ℕ
unix_epoch = unix_epoch_seconds * 1000000000

-- `newRegistrationTokenID`; `UnixMilli` of an instant before the epoch is negative.
unfoldable pub new_registration_token_id : ℤ → Bytes → Result ServiceError Bytes
new_registration_token_id now entropy =
    let ms = (pos_part now - unix_epoch) / 1000000 in
    do
      reject_if (not (length entropy == entropy_bytes)) wrong_entropy_length
      reject_if (ltb_ℤ now (pos unix_epoch) || ltb max_ulid_timestamp ms) time_out_of_range
      ok (
          encode_ulid (
            ms / 2 ^ 40 % 256
            ∷ (ms / 2 ^ 32 % 256
                ∷ ms / 2 ^ 24 % 256
                ∷ ms / 2 ^ 16 % 256
                ∷ ms / 2 ^ 8 % 256
                ∷ ms % 256
                ∷ entropy)))

module _ (is_ip : Bytes → Bool) where
  -- `registrationTokenMintedEvent`.
  unfoldable pub mint_event :
      Bytes → Bytes → RegistrationTokenOptions → Result ServiceError (Event RegistrationPayload)
  mint_event token_id hash options = elim options.purpose [
    | agent ↦
        reject_if (not (length options.dns_names == 0)) agent_token_with_dns_names
        >> made (
            registration_token_minted_event token_id hash options.max_uses options.expires_at
              options.owner)
    | gateway ↦
        reject_if (length options.dns_names == 0) gateway_token_without_dns_names
        >> made (
            gateway_registration_token_minted_event is_ip token_id hash options.max_uses
              options.expires_at options.owner options.dns_names)
    | other_purpose _ ↦ err unknown_purpose
  ]

  module _ (encode_base64 : Bytes → Bytes) where
    unfoldable pub minted_by :
        TokenStore
        → Event RegistrationPayload
        → ℤ
        → Bytes
        → Bytes
        → Result ServiceError (TokenStore × MintedRegistrationToken)
    minted_by s event committed_at token_id secret =
        elim (append_event_with_version (registration_token_target is_ip) s event 0 committed_at) [
          | err e ↦ err (persist_failed e)
          | ok after ↦ ok (
            after,
            record { token_id = token_id; token = token_id ++ (b'.' ∷ encode_base64 secret) },
          )
        ]

  module _ (sha256 encode_base64 : Bytes → Bytes) where
    -- `Mint` at the time `now`, with what the random source returned (42 bytes, or an error), over the
    -- store that its append meets.
    unfoldable pub mint :
        TokenStore
        → RegistrationTokenOptions
        → ℤ
        → ℤ
        → Option Bytes
        → Result ServiceError (TokenStore × MintedRegistrationToken)
    mint s options now committed_at random =
        reject_if (not (ltb_ℤ now options.expires_at)) expiry_not_in_future
        >> (mint_event dummy_registration_token_id (zero_bytes 32) options >>= λ _.
            require random random_failed >>= λ material.
            new_registration_token_id now ((split_at entropy_bytes material).0) >>= λ token_id.
            mint_event token_id (sha256 ((split_at entropy_bytes material).1)) options >>= λ event.
            minted_by encode_base64 s event committed_at token_id
              ((split_at entropy_bytes material).1))
