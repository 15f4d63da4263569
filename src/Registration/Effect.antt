-- ===== src/Registration/Effect.antt =====
-- What a projector of registration tokens (server/internal/store/registration_tokens.go) that succeeds
-- has done to the table, event by event.
use power_manage.Shared.{
  ◌+◌, ◌-◌, ◌<◌, ◌≤◌, ◌≡◌, refl, sym, ap, ◌∙◌, inl, inr, Bool, true, false, not, ◌&&◌, List, some,
  ok, ltb, leb, ◌==◌, length, arith, Option-cases, Result-cases,
}
use power_manage.Shared.Bytes.{Bytes}
use power_manage.Registration.{
  RegistrationPayload, token_minted, gateway_token_minted, token_consumed, token_disabled,
  token_deleted, token_updated, TokenUpdatedPayload, validate_registration_token_metadata,
  validate_registration_token_purpose,
}
use power_manage.Registration.Tables.{
  TokenRow, get_registration_token, remove_row, put_row, update_token, consumed_row, disabled_row,
  replaced_row, project_token_consume, project_token_disable, replace_token_metadata,
  delete_token_projection, upsert_registration_token,
}
use power_manage.Registration.Project.{
  TokenEvent, Minted, agent_mint, gateway_mint, minted_row, validate_projection_result,
  project_token_consumed, project_token_disabled, project_token_updated, project_token_deleted,
  project_token_mint, project_token_event,
}
use power_manage.Registration.Lookups.{update_token-cases}

-- The row of the event's token, if there is one, is of an earlier version.
abbrev pub Older : List TokenRow → TokenEvent → Type 0
Older rows event =
    (row : TokenRow)
    → get_registration_token rows event.stream_id ≡ some row
    → row.projection_version < event.stream_version

abbrev Change :
    List TokenRow
    → TokenEvent
    → (TokenRow → Type 0)
    → (TokenRow → TokenRow)
    → List TokenRow
    → Type 0
Change rows event Guard change after =
    (row : TokenRow) × (get_registration_token rows event.stream_id ≡ some row)
    × Guard row
    × (after ≡ put_row rows (change row))

abbrev IsConsumable : TokenRow → Type 0
IsConsumable row = (row.disabled ≡ false) × (row.uses < row.max_uses)

abbrev IsEnabled : TokenRow → Type 0
IsEnabled row = row.disabled ≡ false

abbrev IsReplaceable : TokenEvent → TokenUpdatedPayload → TokenRow → Type 0
IsReplaceable event p row =
    (row.projection_version + 1 ≡ event.stream_version)
    × (row.uses ≤ p.max_uses)
    × (validate_registration_token_metadata p.max_uses p.expires_at p.owner ≡ ok tt)

module _ (is_ip : Bytes → Bool) where
  abbrev pub Mint : List TokenRow → TokenEvent → Minted → List TokenRow → Type 0
  Mint rows event minted after =
      (names : List Bytes) × (event.stream_version ≡ 1)
      × (length minted.token_hash ≡ 32)
      × (validate_registration_token_metadata minted.max_uses minted.expires_at minted.owner
          ≡ ok tt)
      × (validate_registration_token_purpose is_ip minted.purpose minted.dns_names ≡ ok names)
      × (after ≡ put_row rows (minted_row event minted names))

  -- The step that an event makes in the life of its token.
  abbrev pub Effect : List TokenRow → TokenEvent → RegistrationPayload → List TokenRow → Type 0
  Effect rows event (token_minted p) after = Mint rows event (agent_mint p) after
  Effect rows event (gateway_token_minted p) after = Mint rows event (gateway_mint p) after
  Effect rows event token_consumed after =
      Change rows event IsConsumable (λ row. consumed_row row event.stream_version event.created_at)
        after
  Effect rows event token_disabled after =
      Change rows event IsEnabled (λ row. disabled_row row event.stream_version event.created_at)
        after
  Effect rows event token_deleted after =
      (row : TokenRow) × (get_registration_token rows event.stream_id ≡ some row)
      × (row.projection_version + 1 ≡ event.stream_version)
      × (after ≡ remove_row rows event.stream_id)
  Effect rows event (token_updated p) after =
      Change rows event (IsReplaceable event p)
        (λ row.
          replaced_row row p.max_uses p.expires_at p.owner p.disabled event.stream_version
            event.created_at)
        after

  -- No row changed, and the version is older: an error.
  validate-none :
      (rows after : List TokenRow) (event : TokenEvent)
      → Older rows event
      → validate_projection_result (rows, 0) event ≡ ok after
      → ⊥
  unfolding validate_projection_result
  validate-none rows after event older h =
      elim (Option-cases (get_registration_token rows event.stream_id)) [
        | inl e ↦ ground (arith, e, h)
        | inr (row, e) ↦ ground (arith, e, h, older row e)
      ]

  validate-one :
      (rows after : List TokenRow) (event : TokenEvent)
      → validate_projection_result (rows, 1) event ≡ ok after
      → after ≡ rows
  unfolding validate_projection_result
  validate-one rows after event h = ground (arith, h)

  update-Change :
      (rows after : List TokenRow) (event : TokenEvent) (guard : TokenRow → Bool)
      (change : TokenRow → TokenRow)
      → Older rows event
      → validate_projection_result (update_token rows event.stream_id guard change) event ≡ ok after
      → Change rows event (λ row. guard row ≡ true) change after
  update-Change rows after event guard change older h =
      elim (update_token-cases rows event.stream_id guard change) [
        | inl (row, e, b, done) ↦
            let h' : validate_projection_result (put_row rows (change row), 1) event ≡ ok after =
              ap (λ x. validate_projection_result x event) (sym done) ∙ h in
            (row, e, b, validate-one (put_row rows (change row)) after event h')
        | inr done ↦
            let h' : validate_projection_result (rows, 0) event ≡ ok after =
              ap (λ x. validate_projection_result x event) (sym done) ∙ h in
            absurd (validate-none rows after event older h')
      ]

  Mint-Effect :
      (rows after : List TokenRow) (event : TokenEvent) (minted : Minted)
      → Older rows event
      → project_token_mint is_ip rows event minted ≡ ok after
      → Mint rows event minted after
  unfolding project_token_mint upsert_registration_token validate_projection_result
  Mint-Effect rows after event minted older h =
      elim (Result-cases
        (validate_registration_token_metadata minted.max_uses minted.expires_at minted.owner)) [
          | inr (x, bad) ↦ absurd (ground (arith, bad, h))
          | inl (u, m) ↦
              elim (Result-cases
                (validate_registration_token_purpose is_ip minted.purpose minted.dns_names)) [
                  | inr (x, bad) ↦ absurd (ground (arith, m, bad, h))
                  | inl (names, n) ↦
                      elim (Option-cases (get_registration_token rows event.stream_id)) [
                        | inl e ↦ (
                          names,
                          ground (arith, m, n, h),
                          ground (arith, m, n, h),
                          m,
                          n,
                          ground (arith, m, n, e, h),
                        )
                        | inr (row, e) ↦
                            let old = older row e in
                            (
                              names,
                              ground (arith, m, n, h),
                              ground (arith, m, n, h),
                              m,
                              n,
                              ground (arith, m, n, e, h, old),
                            )
                      ]
                ]
        ]

  consumed-Effect :
      (rows after : List TokenRow) (event : TokenEvent)
      → Older rows event
      → project_token_consumed rows event ≡ ok after
      → Effect rows event token_consumed after
  unfolding project_token_consumed project_token_consume
  consumed-Effect rows after event older h =
      let (row, e, b, done) =
        update-Change rows after event
          (λ row.
            ltb row.projection_version event.stream_version
            && not row.disabled
            && ltb row.uses row.max_uses)
          (λ row. consumed_row row event.stream_version event.created_at) older
          (ground (arith, h)) in
      (row, e, (ground (arith, b), ground (arith, b)), done)

  disabled-Effect :
      (rows after : List TokenRow) (event : TokenEvent)
      → Older rows event
      → project_token_disabled rows event ≡ ok after
      → Effect rows event token_disabled after
  unfolding project_token_disabled project_token_disable
  disabled-Effect rows after event older h =
      let (row, e, b, done) =
        update-Change rows after event
          (λ row. ltb row.projection_version event.stream_version && not row.disabled)
          (λ row. disabled_row row event.stream_version event.created_at) older
          (ground (arith, h)) in
      (row, e, ground (arith, b), done)

  updated-Effect :
      (rows after : List TokenRow) (event : TokenEvent) (p : TokenUpdatedPayload)
      → Older rows event
      → project_token_updated rows event p ≡ ok after
      → Effect rows event (token_updated p) after
  unfolding project_token_updated replace_token_metadata
  updated-Effect rows after event p older h =
      elim (Result-cases (validate_registration_token_metadata p.max_uses p.expires_at p.owner)) [
        | inr (x, bad) ↦ absurd (ground (arith, bad, h))
        | inl (u, m) ↦ elim (Option-cases (get_registration_token rows event.stream_id)) [
          | inl none_ ↦ absurd (ground (arith, m, none_, h))
          | inr (current, some_) ↦
              let (row, e, b, done) =
                update-Change rows after event
                  (λ row.
                    row.projection_version == event.stream_version - 1 && leb row.uses p.max_uses)
                  (λ row.
                    replaced_row row p.max_uses p.expires_at p.owner p.disabled event.stream_version
                      event.created_at)
                  older (ground (arith, m, some_, h)) in
              (row, e, (ground (arith, b, m, h, older row e), ground (arith, b), m), done)
        ]
      ]

  deleted-Effect :
      (rows after : List TokenRow) (event : TokenEvent)
      → project_token_deleted rows event ≡ ok after
      → Effect rows event token_deleted after
  unfolding project_token_deleted delete_token_projection
  deleted-Effect rows after event h =
      elim (Option-cases (get_registration_token rows event.stream_id)) [
        | inl e ↦ absurd (ground (arith, e, h))
        | inr (row, e) ↦ (row, e, ground (arith, e, h), ground (arith, e, h))
      ]

  Effect-of :
      (rows after : List TokenRow) (event : TokenEvent) (payload : RegistrationPayload)
      → Older rows event
      → event.payload ≡ payload
      → project_token_event is_ip rows event ≡ ok after
      → Effect rows event payload after
  unfolding project_token_event
  Effect-of rows after event (token_minted p) older e h =
      Mint-Effect rows after event (agent_mint p) older (ground (arith, e, h))
  Effect-of rows after event (gateway_token_minted p) older e h =
      Mint-Effect rows after event (gateway_mint p) older (ground (arith, e, h))
  Effect-of rows after event token_consumed older e h =
      consumed-Effect rows after event older (ground (arith, e, h))
  Effect-of rows after event token_disabled older e h =
      disabled-Effect rows after event older (ground (arith, e, h))
  Effect-of rows after event token_deleted older e h =
      deleted-Effect rows after event (ground (arith, e, h))
  Effect-of rows after event (token_updated p) older e h =
      updated-Effect rows after event p older (ground (arith, e, h))

  -- A projector that succeeds on an event that is newer than the row of its token makes the event's
  -- step: it mints version 1 with no uses, counts a use of an enabled token below its bound, disables
  -- an enabled token, deletes or updates the version before, and the bound stays above the uses.
  pub project_token_event-Effect :
      (rows after : List TokenRow) (event : TokenEvent)
      → Older rows event
      → project_token_event is_ip rows event ≡ ok after
      → Effect rows event event.payload after
  project_token_event-Effect rows after event older h =
      Effect-of rows after event event.payload older refl h
