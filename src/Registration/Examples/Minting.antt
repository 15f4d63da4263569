-- ===== src/Registration/Examples/Minting.antt =====
-- A token that is minted and used, at a concrete input (server/internal/pki/registration_tokens.go).
use power_manage.Shared.{
  ℕ, ◌+◌, ◌*◌, ◌≡◌, refl, sym, ap, ◌∙◌, [], ◌∷◌, ◌++◌, some, true, Result, ok, err, arith,
  length-append,
}
use power_manage.Shared.Int.{ℤ, pos}
use power_manage.Shared.Instant.{unix_epoch_seconds}
use power_manage.Shared.Bytes.{Bytes, codes, bytes_eq, trim_space}
use power_manage.Shared.Utf8.{valid_utf8}
use power_manage.Ulid.{ulid_path_id, is_canonical_ulid}
use power_manage.Ulid.Encode.{
  encode_ulid, encode_from, drain, symbol_at, encode_ulid-is_canonical_ulid,
}
use power_manage.EventStore.{
  stored_id, append_event_with_version, append_pinned, append_prepared, prepare_event,
  current_stream_version, version_taken,
}
use power_manage.EventStore.Versions.{here}
use power_manage.EventStore.Replay.{empty_store}
use power_manage.Registration.{
  agent, validate_registration_token_metadata, validate_registration_token_owner,
  validate_registration_token_purpose, canonical_registration_token_id,
  registration_token_minted_event,
}
use power_manage.Registration.Tables.{
  get_registration_token, remove_row, upsert_registration_token, hash_taken,
}
use power_manage.Registration.Project.{
  validate_projection_result, project_token_mint, project_token_event,
}
use power_manage.Registration.Invariant.{TokenStore}
use power_manage.Registration.Service.{
  ServiceError, split_at, Round, RegistrationTokenGrant, consume, parse_registration_token,
}
use power_manage.Registration.Mint.{
  RegistrationTokenOptions, MintedRegistrationToken, mint, mint_event, minted_by,
  new_registration_token_id,
}
use power_manage.Registration.Minted.{IsBase64, split_at-append, consume-mint}
use power_manage.Registration.Examples.{is_ip, digest, decode, repeated}

encode : Bytes → Bytes
encode s = s ++ repeated 11 b'A'

encode-IsBase64 : IsBase64 encode decode
unfolding encode
encode-IsBase64 s n = (
  omega (arith, length-append s (repeated 11 b'A'), n),
  ap (λ k. some ((split_at k (s ++ repeated 11 b'A')).0)) (sym n)
      ∙ ap (λ (r : Bytes × Bytes). some r.0) (split_at-append s (repeated 11 b'A')),
)

abbrev at_noon : ℤ
at_noon = pos ((unix_epoch_seconds + 1700000000) * 1000000000)

abbrev options : RegistrationTokenOptions
options = record {
  purpose = agent;
  max_uses = 2;
  expires_at = pos ((unix_epoch_seconds + 1800000000) * 1000000000);
  owner = codes "alice";
  dns_names = [];
}

abbrev material : Bytes
material = repeated 10 7 ++ repeated 32 b'S'

abbrev outcome : Result ServiceError (TokenStore × MintedRegistrationToken)
outcome = mint is_ip digest encode (empty_store []) options at_noon at_noon (some material)

abbrev result_or : {E A : Type 0} → Result E A → A → A
result_or (ok a) b = a
result_or (err e) b = b

abbrev made_pair : TokenStore × MintedRegistrationToken
made_pair = result_or outcome (empty_store [], record { token_id = []; token = [] })

mints : outcome ≡ ok (made_pair.0, made_pair.1)
unfolding mint mint_event minted_by registration_token_minted_event canonical_registration_token_id
    new_registration_token_id encode_ulid encode_from drain symbol_at split_at
    append_event_with_version append_pinned append_prepared prepare_event stored_id trim_space
    bytes_eq ulid_path_id current_stream_version version_taken project_token_event
    project_token_mint upsert_registration_token get_registration_token is_canonical_ulid hash_taken
    remove_row validate_projection_result validate_registration_token_metadata
    validate_registration_token_owner validate_registration_token_purpose valid_utf8
mints = refl

abbrev rounds : ℕ → Round
rounds n = record {
  seen = made_pair.0;
  current = made_pair.0;
  checked_at = at_noon;
  committed_at = at_noon;
  live = true;
  waited = true;
}

consume-mint_example :
    (parse_registration_token is_ip digest decode (made_pair.1).token ≡ record {
      token_id = (made_pair.1).token_id;
      secret = (split_at 10 material).1;
      well_formed = true;
    })
    × (used : TokenStore) × (grant : RegistrationTokenGrant) × (consume is_ip digest decode rounds
          (made_pair.1).token
          agent
        ≡ ok (used, grant))
consume-mint_example =
    consume-mint is_ip digest encode decode (empty_store []) options at_noon at_noon material
      {after = made_pair.0} {m = made_pair.1} rounds encode-IsBase64 refl refl here mints here refl
      refl refl

encode_ulid-is_canonical_ulid_example : is_canonical_ulid (encode_ulid (255 ∷ repeated 15 7)) ≡ true
encode_ulid-is_canonical_ulid_example =
    encode_ulid-is_canonical_ulid 255 (repeated 15 7) (omega arith) refl
