-- ===== src/Registration/Metadata.antt =====
-- The verifier-free reads of registration tokens for management
-- (server/internal/store/registration_tokens.go).
use power_manage.Shared.{
  ℕ, zero, suc, ◌≡◌, sym, ap, ◌∙◌, inl, inr, Bool, ◌||◌, not, List, [], ◌∷◌, Result, ok, err, ◌>>=◌,
  ◌>>◌, reject_if, require, ltb, ◌==◌, arith, Option-cases, Result-cases,
}
use power_manage.Shared.Int.{ℤ}
use power_manage.Shared.Bytes.{Bytes, bytes_eq, bytes_eq_refl}
use power_manage.Shared.Order.{sort_by}
use power_manage.Ulid.{ulid_path_id, to_upper}
use power_manage.Ulid.Agreement.{is_canonical_ulid-ulid_path_id}
use power_manage.EventStore.Versions.{Reach}
use power_manage.EventStore.Replay.{empty_store}
use power_manage.Registration.{
  RegistrationTokenPurpose, RegistrationError, invalid_version, invalid_use_count, token_not_found,
  invalid_list_limit, canonical_registration_token_id, validate_registration_token_metadata,
  validate_registration_token_purpose,
}
use power_manage.Registration.Tables.{
  TokenRow, RegistrationToken, get_registration_token, registration_token,
  registration_token_from_row,
}
use power_manage.Registration.Project.{registration_token_target}
use power_manage.Registration.Claims.{to_upper_idem}
use power_manage.Registration.Invariant.{TokenStore, Reach-rows}

pub record RegistrationTokenMetadata : Type 0 where
  pub token_id : Bytes
  pub purpose : RegistrationTokenPurpose
  pub dns_names : List Bytes
  pub max_uses : ℕ
  pub uses : ℕ
  pub expires_at : ℤ
  pub owner : Bytes
  pub disabled : Bool
  pub projection_version : ℕ

-- The first rows of a page.
unfoldable pub take : ℕ → List TokenRow → List TokenRow
take zero rows = []
take (suc n) [] = []
take (suc n) (row ∷ rows) = row ∷ take n rows

-- `ListRegistrationTokens`, the statement: the rows by ID, up to a limit.
unfoldable pub list_token_rows : List TokenRow → ℕ → List TokenRow
list_token_rows rows limit = take limit (sort_by (λ (row : TokenRow). row.token_id) rows)

module _ (is_ip : Bytes → Bool) where
  -- `registrationTokenMetadataFromValues`, of the values of a row.
  unfoldable pub metadata_from_values :
      TokenRow → Result RegistrationError RegistrationTokenMetadata
  metadata_from_values row = do
    id ← canonical_registration_token_id row.token_id
    reject_if (not (bytes_eq id row.token_id) || row.projection_version == 0) invalid_version
    validate_registration_token_metadata row.max_uses row.expires_at row.owner
    names ← validate_registration_token_purpose is_ip row.purpose row.dns_names
    reject_if (ltb row.max_uses row.uses) invalid_use_count
    ok (record {
      token_id = row.token_id;
      purpose = row.purpose;
      dns_names = names;
      max_uses = row.max_uses;
      uses = row.uses;
      expires_at = row.expires_at;
      owner = row.owner;
      disabled = row.disabled;
      projection_version = row.projection_version;
    })

  unfoldable pub registration_token_metadata_by_id :
      List TokenRow → Bytes → Result RegistrationError RegistrationTokenMetadata
  registration_token_metadata_by_id rows token_id = do
    id ← canonical_registration_token_id token_id
    row ← require (get_registration_token rows id) token_not_found
    metadata_from_values row

  unfoldable pub metadata_of_rows :
      List TokenRow → Result RegistrationError (List RegistrationTokenMetadata)
  metadata_of_rows [] = ok []
  metadata_of_rows (row ∷ rows) = do
    metadata ← metadata_from_values row
    rest ← metadata_of_rows rows
    ok (metadata ∷ rest)

  unfoldable pub list_registration_tokens :
      List TokenRow → ℕ → Result RegistrationError (List RegistrationTokenMetadata)
  list_registration_tokens rows limit = do
    reject_if (limit == 0 || ltb 200 limit) invalid_list_limit
    metadata_of_rows (list_token_rows rows limit)

  -- A token without its verifier.
  abbrev pub without_hash : RegistrationToken → RegistrationTokenMetadata
  without_hash token = record {
    token_id = token.token_id;
    purpose = token.purpose;
    dns_names = token.dns_names;
    max_uses = token.max_uses;
    uses = token.uses;
    expires_at = token.expires_at;
    owner = token.owner;
    disabled = token.disabled;
    projection_version = token.projection_version;
  }

  abbrev pub without_hashes :
      Result RegistrationError RegistrationToken
      → Result RegistrationError RegistrationTokenMetadata
  without_hashes (ok token) = ok (without_hash token)
  without_hashes (err e) = err e

  -- In a reachable store the management read and the read for admission agree, errors included, at every
  -- ID that is asked for, canonical or not: the metadata is the token without its hash.
  pub registration_token_metadata_by_id-registration_token :
      (s : TokenStore) (id : Bytes)
      → Reach (registration_token_target is_ip) (empty_store []) s
      → registration_token_metadata_by_id s.tables id
        ≡ without_hashes (registration_token is_ip s.tables id)
  unfolding registration_token_metadata_by_id registration_token metadata_from_values
      registration_token_from_row canonical_registration_token_id
  registration_token_metadata_by_id-registration_token s id r =
      elim (Result-cases (ulid_path_id id)) [
        | inr (x, bad) ↦ ground (arith, bad)
        | inl (u, valid) ↦
            let upper = to_upper id in
            let canonical = ((is_canonical_ulid-ulid_path_id id).0).0 valid in
            let (again, _) = ((is_canonical_ulid-ulid_path_id upper).1).0 canonical in
            elim (Option-cases (get_registration_token s.tables upper)) [
              | inl e ↦ ground (arith, valid, e)
              | inr (row, e) ↦
                  let ((same, hash, bound, meta, names), (v, p, n)) =
                    Reach-rows is_ip s upper row r e in
                  let row_up : to_upper row.token_id ≡ row.token_id =
                    ap to_upper same ∙ to_upper_idem id ∙ sym same in
                  let row_valid : ulid_path_id row.token_id ≡ ok tt =
                    ap ulid_path_id same ∙ again in
                  ground (
                    arith,
                    valid,
                    e,
                    hash,
                    bound,
                    meta,
                    names,
                    p,
                    row_up,
                    row_valid,
                    same,
                    bytes_eq_refl upper,
                    bytes_eq_refl row.token_id,
                  )
            ]
      ]
