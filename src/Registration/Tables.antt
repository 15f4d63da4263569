-- ===== src/Registration/Tables.antt =====
-- The table `registration_tokens` (server/internal/store/migrations/005_registration_tokens.sql and
-- 011_gateway_identity.sql), the statements on it (server/internal/store/generated/
-- registration_tokens.sql.go) and the read of a row.
use power_manage.Shared.{
  ℕ, ◌+◌, Bool, true, ◌&&◌, ◌||◌, not, List, [], ◌∷◌, Option, none, some, Result, ok, ◌>>=◌, ◌>>◌,
  reject_if, require, ltb, leb, ◌==◌, if◌then◌else◌, length, any,
}
use power_manage.Shared.Int.{ℤ}
use power_manage.Shared.Bytes.{Bytes, bytes_eq}
use power_manage.Ulid.{is_canonical_ulid}
use power_manage.Registration.{
  RegistrationTokenPurpose, RegistrationError, constraint_violated, mismatched_id, invalid_version,
  invalid_hash, invalid_use_count, token_not_found, canonical_registration_token_id,
  validate_registration_token_metadata, validate_registration_token_purpose,
}

pub record TokenRow : Type 0 where
  pub token_id : Bytes
  pub projection_version : ℕ
  pub token_hash : Bytes
  pub purpose : RegistrationTokenPurpose
  pub dns_names : List Bytes
  pub max_uses : ℕ
  pub uses : ℕ
  pub expires_at : ℤ
  pub owner : Bytes
  pub disabled : Bool
  pub updated_at : ℤ

-- The token that admission works with.
pub record RegistrationToken : Type 0 where
  pub token_id : Bytes
  pub hash : Bytes
  pub purpose : RegistrationTokenPurpose
  pub dns_names : List Bytes
  pub max_uses : ℕ
  pub uses : ℕ
  pub expires_at : ℤ
  pub owner : Bytes
  pub disabled : Bool
  pub projection_version : ℕ

-- `GetRegistrationToken`.
unfoldable pub get_registration_token : List TokenRow → Bytes → Option TokenRow
get_registration_token [] id = none
get_registration_token (row ∷ rows) id =
    if bytes_eq row.token_id id then some row else get_registration_token rows id

unfoldable pub remove_row : List TokenRow → Bytes → List TokenRow
remove_row [] id = []
remove_row (row ∷ rows) id =
    let rest = remove_row rows id in if bytes_eq row.token_id id then rest else row ∷ rest

-- A row in the place of the one with its primary key; the order of the rows means nothing.
abbrev pub put_row : List TokenRow → TokenRow → List TokenRow
put_row rows row = row ∷ remove_row rows row.token_id

-- `UPDATE … WHERE token_id = $1 AND guard`: the rows after it and how many it changed. `token_id` is
-- the primary key, so that is one row at most.
unfoldable pub update_token :
    List TokenRow → Bytes → (TokenRow → Bool) → (TokenRow → TokenRow) → List TokenRow × ℕ
update_token rows id guard change = elim (get_registration_token rows id) [
  | none ↦ (rows, 0)
  | some row ↦ if guard row then (put_row rows (change row), 1) else (rows, 0)
]

abbrev pub consumed_row : TokenRow → ℕ → ℤ → TokenRow
consumed_row row version now = record row {
  projection_version = version;
  uses = row.uses + 1;
  updated_at = now;
}

unfoldable pub project_token_consume : List TokenRow → Bytes → ℕ → ℤ → List TokenRow × ℕ
project_token_consume rows id version now =
    update_token rows id
      (λ row. ltb row.projection_version version && not row.disabled && ltb row.uses row.max_uses)
      (λ row. consumed_row row version now)

abbrev pub disabled_row : TokenRow → ℕ → ℤ → TokenRow
disabled_row row version now = record row {
  projection_version = version;
  disabled = true;
  updated_at = now;
}

unfoldable pub project_token_disable : List TokenRow → Bytes → ℕ → ℤ → List TokenRow × ℕ
project_token_disable rows id version now =
    update_token rows id (λ row. ltb row.projection_version version && not row.disabled)
      (λ row. disabled_row row version now)

abbrev pub replaced_row : TokenRow → ℕ → ℤ → Bytes → Bool → ℕ → ℤ → TokenRow
replaced_row row max_uses expires_at owner disabled version now = record row {
  max_uses = max_uses;
  expires_at = expires_at;
  owner = owner;
  disabled = row.disabled || disabled;
  projection_version = version;
  updated_at = now;
}

unfoldable pub replace_token_metadata :
    List TokenRow → Bytes → ℕ → ℤ → Bytes → Bool → ℕ → ℕ → ℤ → List TokenRow × ℕ
replace_token_metadata rows id max_uses expires_at owner disabled previous version now =
    update_token rows id (λ row. row.projection_version == previous && leb row.uses max_uses)
      (λ row. replaced_row row max_uses expires_at owner disabled version now)

unfoldable pub delete_token_projection : List TokenRow → Bytes → ℕ → List TokenRow × ℕ
delete_token_projection rows id previous = elim (get_registration_token rows id) [
  | none ↦ (rows, 0)
  | some row ↦ if row.projection_version == previous then (remove_row rows id, 1) else (rows, 0)
]

-- The CHECK constraints that validation does not repeat, and the UNIQUE constraint of the hash. The
-- others follow from the checks that come before the statement.
unfoldable pub hash_taken : List TokenRow → TokenRow → Bool
hash_taken rows new =
    any (λ row. not (bytes_eq row.token_id new.token_id) && bytes_eq row.token_hash new.token_hash)
      rows

unfoldable pub upsert_registration_token :
    List TokenRow → TokenRow → Result RegistrationError (List TokenRow × ℕ)
upsert_registration_token rows new = do
  reject_if (not (is_canonical_ulid new.token_id)) constraint_violated
  elim (get_registration_token rows new.token_id) [
    | some row ↦
        if ltb row.projection_version new.projection_version
        then (reject_if (hash_taken rows new) constraint_violated >> ok (put_row rows new, 1))
        else ok (rows, 0)
    | none ↦ reject_if (hash_taken rows new) constraint_violated >> ok (put_row rows new, 1)
  ]

unfoldable pub reset_registration_tokens : List TokenRow → List TokenRow
reset_registration_tokens rows = []

module _ (is_ip : Bytes → Bool) where
  -- `registrationTokenFromRow`; a use count is not negative by its type.
  unfoldable pub registration_token_from_row :
      Bytes → TokenRow → Result RegistrationError RegistrationToken
  registration_token_from_row id row = do
    reject_if (not (bytes_eq row.token_id id)) mismatched_id
    reject_if (row.projection_version == 0) invalid_version
    reject_if (not (length row.token_hash == 32)) invalid_hash
    validate_registration_token_metadata row.max_uses row.expires_at row.owner
    names ← validate_registration_token_purpose is_ip row.purpose row.dns_names
    reject_if (ltb row.max_uses row.uses) invalid_use_count
    ok (record {
      token_id = row.token_id;
      hash = row.token_hash;
      purpose = row.purpose;
      dns_names = names;
      max_uses = row.max_uses;
      uses = row.uses;
      expires_at = row.expires_at;
      owner = row.owner;
      disabled = row.disabled;
      projection_version = row.projection_version;
    })

  -- `Store.RegistrationToken`.
  unfoldable pub registration_token :
      List TokenRow → Bytes → Result RegistrationError RegistrationToken
  registration_token rows token_id = do
    id ← canonical_registration_token_id token_id
    row ← require (get_registration_token rows id) token_not_found
    registration_token_from_row id row
