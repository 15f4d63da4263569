-- ===== src/Registration/Lookups.antt =====
-- Reads of the table `registration_tokens` after the statements on it
-- (server/internal/store/generated/registration_tokens.sql.go).
use power_manage.Shared.{
  ◌≡◌, ◌⊎◌, refl, sym, ap, ◌∙◌, inl, inr, Bool, true, false, List, [], ◌∷◌, none, some, arith,
  Bool-cases, Option-cases,
}
use power_manage.Shared.Bytes.{Bytes, bytes_eq, bytes_eq→eq, bytes_eq_refl}
use power_manage.EventStore.{ca_rotation_stream_type}
use power_manage.Registration.{registration_token_stream_type}
use power_manage.Registration.Tables.{
  TokenRow, get_registration_token, remove_row, put_row, update_token,
}

-- The stream of registration tokens is not that of CA rotations.
pub not_rotation :
    (type : Bytes)
    → type ≡ registration_token_stream_type
    → bytes_eq type ca_rotation_stream_type ≡ false
unfolding bytes_eq
not_rotation type e = ap (λ t. bytes_eq t ca_rotation_stream_type) e

pub get-token_id :
    (rows : List TokenRow) (id : Bytes) {row : TokenRow}
    → get_registration_token rows id ≡ some row
    → row.token_id ≡ id
unfolding get_registration_token
get-token_id [] id h = cc
get-token_id (r ∷ rows) id {row = row} h = elim (Bool-cases (bytes_eq r.token_id id)) [
  | inl b ↦
      let e : r ≡ row = ground (arith, b, h) in
      sym (ap (λ x. x.token_id) e) ∙ bytes_eq→eq r.token_id id b
  | inr b ↦ get-token_id rows id {row = row} (ground (arith, b, h))
]

pub get-remove_row :
    (rows : List TokenRow) (id : Bytes) → get_registration_token (remove_row rows id) id ≡ none
unfolding get_registration_token remove_row
get-remove_row [] id = refl
get-remove_row (row ∷ rows) id = ground (arith, get-remove_row rows id)

pub get-remove_row_other :
    (rows : List TokenRow) (id other : Bytes)
    → bytes_eq id other ≡ false
    → get_registration_token (remove_row rows id) other ≡ get_registration_token rows other
unfolding get_registration_token remove_row
get-remove_row_other [] id other h = refl
get-remove_row_other (row ∷ rows) id other h = elim (Bool-cases (bytes_eq row.token_id id)) [
  | inr b ↦ ground (arith, b, get-remove_row_other rows id other h)
  | inl b ↦
      let e : bytes_eq row.token_id other ≡ false =
        ap (λ x. bytes_eq x other) (bytes_eq→eq row.token_id id b) ∙ h in
      ground (arith, b, e, get-remove_row_other rows id other h)
]

pub get-put_row :
    (rows : List TokenRow) (row : TokenRow)
    → get_registration_token (put_row rows row) row.token_id ≡ some row
unfolding get_registration_token
get-put_row rows row = ground (arith, bytes_eq_refl row.token_id)

pub get-put_row_other :
    (rows : List TokenRow) (row : TokenRow) (other : Bytes)
    → bytes_eq row.token_id other ≡ false
    → get_registration_token (put_row rows row) other ≡ get_registration_token rows other
unfolding get_registration_token
get-put_row_other rows row other h =
    ground (arith, h, get-remove_row_other rows row.token_id other h)

-- An UPDATE changes the row that its key and its guard select, or nothing.
pub update_token-cases :
    (rows : List TokenRow) (id : Bytes) (guard : TokenRow → Bool) (change : TokenRow → TokenRow)
    → ((row : TokenRow) × (get_registration_token rows id ≡ some row)
        × (guard row ≡ true)
        × (update_token rows id guard change ≡ (put_row rows (change row), 1)))
      ⊎ (update_token rows id guard change ≡ (rows, 0))
unfolding update_token
update_token-cases rows id guard change = elim (Option-cases (get_registration_token rows id)) [
  | inl e ↦ inr (ground (arith, e))
  | inr (row, e) ↦ elim (Bool-cases (guard row)) [
    | inl b ↦ inl (row, e, b, ground (arith, e, b))
    | inr b ↦ inr (ground (arith, e, b))
  ]
]
