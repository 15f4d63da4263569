-- ===== src/Registration/Local.antt =====
-- A projector of registration tokens (server/internal/store/registration_tokens.go) touches the row of
-- its own token only.
use power_manage.Shared.{
  ℕ, ◌-◌, ◌≡◌, refl, ap, ◌∙◌, inl, inr, Bool, false, not, ◌&&◌, List, ok, ltb, leb, ◌==◌, arith,
  Option-cases, Result-cases, Bool-cases,
}
use power_manage.Shared.Bytes.{Bytes, bytes_eq}
use power_manage.Registration.{
  RegistrationPayload, token_minted, gateway_token_minted, token_consumed, token_disabled,
  token_deleted, token_updated, TokenUpdatedPayload, validate_registration_token_metadata,
  validate_registration_token_purpose,
}
use power_manage.Registration.Tables.{
  TokenRow, get_registration_token, remove_row, put_row, update_token, consumed_row, disabled_row,
  replaced_row, project_token_consume, project_token_disable, replace_token_metadata,
  delete_token_projection, upsert_registration_token,
}
use power_manage.Registration.Project.{
  TokenEvent, Minted, agent_mint, gateway_mint, minted_row, validate_projection_result,
  project_token_consumed, project_token_disabled, project_token_updated, project_token_deleted,
  project_token_mint, project_token_event,
}
use power_manage.Registration.Lookups.{
  get-token_id, get-remove_row_other, get-put_row_other, update_token-cases,
}

abbrev Same : List TokenRow → List TokenRow → Bytes → Type 0
Same rows after id = get_registration_token after id ≡ get_registration_token rows id

validate-rows :
    (statement : List TokenRow × ℕ) (event : TokenEvent) {after : List TokenRow}
    → validate_projection_result statement event ≡ ok after
    → after ≡ statement.0
unfolding validate_projection_result
validate-rows statement event h =
    elim (Option-cases (get_registration_token (statement.0) event.stream_id)) [
      | inl e ↦ ground (arith, e, h)
      | inr (row, e) ↦ ground (arith, e, h)
    ]

update-Same :
    (rows : List TokenRow) (id other : Bytes) (guard : TokenRow → Bool)
    (change : TokenRow → TokenRow)
    → bytes_eq id other ≡ false
    → ((row : TokenRow) → (change row).token_id ≡ row.token_id)
    → Same rows ((update_token rows id guard change).0) other
update-Same rows id other guard change h keeps = elim (update_token-cases rows id guard change) [
  | inr done ↦ ap (λ x. get_registration_token (x.0) other) done
  | inl (row, e, b, done) ↦
      ap (λ x. get_registration_token (x.0) other) done
      ∙ get-put_row_other rows (change row) other
          (ap (λ x. bytes_eq x other) (keeps row ∙ get-token_id rows id e) ∙ h)
]

validated-Same :
    (rows after : List TokenRow) (event : TokenEvent) (other : Bytes) (guard : TokenRow → Bool)
    (change : TokenRow → TokenRow)
    → bytes_eq event.stream_id other ≡ false
    → ((row : TokenRow) → (change row).token_id ≡ row.token_id)
    → validate_projection_result (update_token rows event.stream_id guard change) event ≡ ok after
    → Same rows after other
validated-Same rows after event other guard change h keeps done =
    ap (λ r. get_registration_token r other)
      (validate-rows (update_token rows event.stream_id guard change) event done)
    ∙ update-Same rows event.stream_id other guard change h keeps

deleted-Same :
    (rows after : List TokenRow) (event : TokenEvent) (other : Bytes)
    → bytes_eq event.stream_id other ≡ false
    → project_token_deleted rows event ≡ ok after
    → Same rows after other
unfolding project_token_deleted delete_token_projection
deleted-Same rows after event other h done =
    elim (Option-cases (get_registration_token rows event.stream_id)) [
      | inl e ↦ absurd (ground (arith, e, done))
      | inr (row, e) ↦
          let r : after ≡ remove_row rows event.stream_id = ground (arith, e, done) in
          ap (λ x. get_registration_token x other) r
          ∙ get-remove_row_other rows event.stream_id other h
    ]

updated-Same :
    (rows after : List TokenRow) (event : TokenEvent) (p : TokenUpdatedPayload) (other : Bytes)
    → bytes_eq event.stream_id other ≡ false
    → project_token_updated rows event p ≡ ok after
    → Same rows after other
unfolding project_token_updated replace_token_metadata
updated-Same rows after event p other h done =
    elim (Result-cases (validate_registration_token_metadata p.max_uses p.expires_at p.owner)) [
      | inr (x, bad) ↦ absurd (ground (arith, bad, done))
      | inl (u, m) ↦ elim (Option-cases (get_registration_token rows event.stream_id)) [
        | inl e ↦ absurd (ground (arith, m, e, done))
        | inr (current, e) ↦
            validated-Same rows after event other
              (λ row. row.projection_version == event.stream_version - 1 && leb row.uses p.max_uses)
              (λ row.
                replaced_row row p.max_uses p.expires_at p.owner p.disabled event.stream_version
                  event.created_at)
              h (λ row. refl) (ground (arith, m, e, done))
      ]
    ]

consumed-Same :
    (rows after : List TokenRow) (event : TokenEvent) (other : Bytes)
    → bytes_eq event.stream_id other ≡ false
    → project_token_consumed rows event ≡ ok after
    → Same rows after other
unfolding project_token_consumed project_token_consume
consumed-Same rows after event other h done =
    validated-Same rows after event other
      (λ row.
        ltb row.projection_version event.stream_version
        && not row.disabled
        && ltb row.uses row.max_uses)
      (λ row. consumed_row row event.stream_version event.created_at) h (λ row. refl)
      (ground (arith, done))

disabled-Same :
    (rows after : List TokenRow) (event : TokenEvent) (other : Bytes)
    → bytes_eq event.stream_id other ≡ false
    → project_token_disabled rows event ≡ ok after
    → Same rows after other
unfolding project_token_disabled project_token_disable
disabled-Same rows after event other h done =
    validated-Same rows after event other
      (λ row. ltb row.projection_version event.stream_version && not row.disabled)
      (λ row. disabled_row row event.stream_version event.created_at) h (λ row. refl)
      (ground (arith, done))

module _ (is_ip : Bytes → Bool) where
  minted-rows :
      (rows after : List TokenRow) (event : TokenEvent) (minted : Minted) (names : List Bytes)
      → validate_registration_token_metadata minted.max_uses minted.expires_at minted.owner ≡ ok tt
      → validate_registration_token_purpose is_ip minted.purpose minted.dns_names ≡ ok names
      → project_token_mint is_ip rows event minted ≡ ok after
      → (statement : List TokenRow × ℕ) × (upsert_registration_token rows
            (minted_row event minted names)
          ≡ ok statement)
        × (after ≡ statement.0)
  unfolding project_token_mint
  minted-rows rows after event minted names m n done =
      elim (Result-cases (upsert_registration_token rows (minted_row event minted names))) [
        | inr (x, bad) ↦ absurd (ground (arith, m, n, bad, done))
        | inl (statement, e) ↦
            (statement, e, validate-rows statement event (ground (arith, m, n, e, done)))
      ]

  minted-Same :
      (rows after : List TokenRow) (event : TokenEvent) (minted : Minted) (other : Bytes)
      → bytes_eq event.stream_id other ≡ false
      → project_token_mint is_ip rows event minted ≡ ok after
      → Same rows after other
  unfolding project_token_mint upsert_registration_token
  minted-Same rows after event minted other h done =
      elim (Result-cases
        (validate_registration_token_metadata minted.max_uses minted.expires_at minted.owner)) [
          | inr (x, bad) ↦ absurd (ground (arith, bad, done))
          | inl (u, m) ↦
              elim (Result-cases
                (validate_registration_token_purpose is_ip minted.purpose minted.dns_names)) [
                  | inr (x, bad) ↦ absurd (ground (arith, m, bad, done))
                  | inl (names, n) ↦
                      let (statement, e, rows_eq) =
                        minted-rows rows after event minted names m n done in
                      let put = get-put_row_other rows (minted_row event minted names) other h in
                      elim (Option-cases (get_registration_token rows event.stream_id)) [
                        | inl g ↦
                            let s : after ≡ put_row rows (minted_row event minted names) =
                              ground (arith, g, e, rows_eq) in
                            ap (λ r. get_registration_token r other) s ∙ put
                        | inr (row, g) ↦
                            elim (Bool-cases (ltb row.projection_version event.stream_version)) [
                              | inl b ↦
                                  let s : after ≡ put_row rows (minted_row event minted names) =
                                    ground (arith, g, b, e, rows_eq) in
                                  ap (λ r. get_registration_token r other) s ∙ put
                              | inr b ↦
                                  let s : after ≡ rows = ground (arith, g, b, e, rows_eq) in
                                  ap (λ r. get_registration_token r other) s
                            ]
                      ]
                ]
        ]

  Same-of :
      (rows after : List TokenRow) (event : TokenEvent) (payload : RegistrationPayload)
      (other : Bytes)
      → event.payload ≡ payload
      → bytes_eq event.stream_id other ≡ false
      → project_token_event is_ip rows event ≡ ok after
      → Same rows after other
  unfolding project_token_event
  Same-of rows after event (token_minted p) other e h done =
      minted-Same rows after event (agent_mint p) other h (ground (arith, e, done))
  Same-of rows after event (gateway_token_minted p) other e h done =
      minted-Same rows after event (gateway_mint p) other h (ground (arith, e, done))
  Same-of rows after event token_consumed other e h done =
      consumed-Same rows after event other h (ground (arith, e, done))
  Same-of rows after event token_disabled other e h done =
      disabled-Same rows after event other h (ground (arith, e, done))
  Same-of rows after event token_deleted other e h done =
      deleted-Same rows after event other h (ground (arith, e, done))
  Same-of rows after event (token_updated p) other e h done =
      updated-Same rows after event p other h (ground (arith, e, done))

  pub project_token_event-Same :
      (rows after : List TokenRow) (event : TokenEvent) (other : Bytes)
      → bytes_eq event.stream_id other ≡ false
      → project_token_event is_ip rows event ≡ ok after
      → get_registration_token after other ≡ get_registration_token rows other
  project_token_event-Same rows after event other h done =
      Same-of rows after event event.payload other refl h done
