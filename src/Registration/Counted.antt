-- ===== src/Registration/Counted.antt =====
-- What a step of a token (server/internal/store/registration_tokens.go) keeps of its row, and counts.
use power_manage.Shared.{
  ℕ, ◌+◌, ◌<◌, ◌≤◌, ◌≡◌, ◌⊎◌, refl, sym, ap, ap₂, ◌∙◌, subst, inl, inr, Bool, true, false, ◌&&◌,
  List, [], ◌∷◌, none, some, if◌then◌else◌, ok, length, arith, Result-cases,
}
use power_manage.Shared.Bytes.{Bytes}
use power_manage.EventStore.{Target, in_stream, current_stream_version}
use power_manage.Registration.{
  RegistrationPayload, token_minted, gateway_token_minted, token_consumed, token_disabled,
  token_deleted, token_updated, RegistrationError, RegistrationTokenPurpose, agent, gateway,
  other_purpose, validate_registration_token_metadata, validate_registration_token_purpose,
  registration_token_stream_type, check_dns_names,
}
use power_manage.Registration.Tables.{
  TokenRow, get_registration_token, put_row, consumed_row, disabled_row, replaced_row,
}
use power_manage.Registration.Project.{
  TokenEvent, agent_mint, gateway_mint, minted_row, registration_token_target,
}
use power_manage.Registration.Lookups.{get-token_id, get-remove_row, get-put_row}
use power_manage.Registration.Effect.{Effect}

abbrev pub is_consumption : RegistrationPayload → Bool
is_consumption token_consumed = true
is_consumption _ = false

-- How often the log says that a token was used.
unfoldable pub consumptions : List TokenEvent → Bytes → ℕ
consumptions [] id = 0
consumptions (row ∷ rows) id =
    (if in_stream registration_token_stream_type id row && is_consumption row.payload then 1 else 0)
    + consumptions rows id

module _ (is_ip : Bytes → Bool) where
  abbrev pub target : Target RegistrationPayload (List TokenRow) RegistrationError
  target = registration_token_target is_ip

  -- A row that the read of a token accepts.
  abbrev pub IsWellFormed : Bytes → TokenRow → Type 0
  IsWellFormed id row =
      (row.token_id ≡ id)
      × (length row.token_hash ≡ 32)
      × (row.uses ≤ row.max_uses)
      × (validate_registration_token_metadata row.max_uses row.expires_at row.owner ≡ ok tt)
      × (validate_registration_token_purpose is_ip row.purpose row.dns_names ≡ ok row.dns_names)

  -- A row against the log: its version is that of the stream, its uses the uses that the log has.
  abbrev pub IsCurrent : List TokenEvent → Bytes → TokenRow → Type 0
  IsCurrent log id row =
      (row.projection_version ≡ current_stream_version log registration_token_stream_type id)
      × (0 < row.projection_version)
      × (row.uses ≡ consumptions log id)

  validated_names :
      (purpose : RegistrationTokenPurpose) (names : List Bytes) {validated : List Bytes}
      → validate_registration_token_purpose is_ip purpose names ≡ ok validated
      → validate_registration_token_purpose is_ip purpose validated ≡ ok validated
  unfolding validate_registration_token_purpose
  validated_names agent names {validated = v} h =
      let e : [] ≡ v = ground (arith, h) in rw (← e) refl
  validated_names gateway names {validated = v} h =
      elim (Result-cases (check_dns_names is_ip [] names)) [
        | inr (x, bad) ↦ absurd (ground (arith, bad, h))
        | inl (u, good) ↦
            let e : names ≡ v = ground (arith, good, h) in
            subst (λ n. validate_registration_token_purpose is_ip gateway n ≡ ok n) e
              (ground (arith, good, h))
      ]
  validated_names (other_purpose p) names h = cc

  pub put_row-read :
      (rows after : List TokenRow) (id : Bytes) (changed : TokenRow) {row : TokenRow}
      → changed.token_id ≡ id
      → after ≡ put_row rows changed
      → get_registration_token after id ≡ some row
      → changed ≡ row
  put_row-read rows after id changed {row = row} same done got =
      let e : some changed ≡ some row =
        sym (get-put_row rows changed) ∙ ap₂ get_registration_token (sym done) same ∙ got in
      ground (arith, e)

  pub Effect-IsWellFormed :
      (rows after : List TokenRow) (event : TokenEvent) (payload : RegistrationPayload)
      {row : TokenRow}
      → ((old : TokenRow)
          → get_registration_token rows event.stream_id ≡ some old
          → IsWellFormed event.stream_id old)
      → Effect is_ip rows event payload after
      → get_registration_token after event.stream_id ≡ some row
      → IsWellFormed event.stream_id row
  Effect-IsWellFormed rows after event (token_minted p) before (names, v, l, m, n, done) got =
      subst (IsWellFormed event.stream_id)
        (put_row-read rows after event.stream_id (minted_row event (agent_mint p) names) refl done
          got)
        (refl, l, omega arith, m, validated_names agent [] n)
  Effect-IsWellFormed rows after event (gateway_token_minted p) before (names, v, l, m, n, done)
        got =
      subst (IsWellFormed event.stream_id)
        (put_row-read rows after event.stream_id (minted_row event (gateway_mint p) names) refl done
          got)
        (refl, l, omega arith, m, validated_names gateway p.dns_names n)
  Effect-IsWellFormed rows after event token_consumed before (old, e, (on, room), done) got =
      let (same, hash, bound, meta, names) = before old e in
      subst (IsWellFormed event.stream_id)
        (put_row-read rows after event.stream_id
          (consumed_row old event.stream_version event.created_at) same done got)
        (same, hash, omega (arith, room), meta, names)
  Effect-IsWellFormed rows after event token_disabled before (old, e, on, done) got =
      let (same, hash, bound, meta, names) = before old e in
      subst (IsWellFormed event.stream_id)
        (put_row-read rows after event.stream_id
          (disabled_row old event.stream_version event.created_at) same done got)
        (same, hash, bound, meta, names)
  Effect-IsWellFormed rows after event (token_updated p) before (old, e, (v, room, meta), done)
        got =
      let (same, hash, bound, _, names) = before old e in
      subst (IsWellFormed event.stream_id)
        (put_row-read rows after event.stream_id
          (replaced_row old p.max_uses p.expires_at p.owner p.disabled event.stream_version
            event.created_at)
          same done got)
        (same, hash, room, meta, names)
  Effect-IsWellFormed rows after event token_deleted {row = row} before (old, e, v, done) got =
      let gone : none ≡ some row =
        sym (get-remove_row rows event.stream_id)
        ∙ ap (λ r. get_registration_token r event.stream_id) (sym done)
        ∙ got in
      absurd (ground (arith, gone))

  -- The version of a row after a step, and its uses: those of the row before, and one more when the
  -- step is a use; or none, when the step mints.
  abbrev pub IsCounted : List TokenRow → TokenEvent → RegistrationPayload → TokenRow → Type 0
  IsCounted rows event payload row =
      (row.projection_version ≡ event.stream_version)
      × (((old : TokenRow) × (get_registration_token rows event.stream_id ≡ some old)
            × (row.uses ≡ (if is_consumption payload then 1 else 0) + old.uses))
          ⊎ ((event.stream_version ≡ 1) × (row.uses ≡ 0) × (is_consumption payload ≡ false)))

  pub Effect-IsCounted :
      (rows after : List TokenRow) (event : TokenEvent) (payload : RegistrationPayload)
      {row : TokenRow}
      → Effect is_ip rows event payload after
      → get_registration_token after event.stream_id ≡ some row
      → IsCounted rows event payload row
  Effect-IsCounted rows after event (token_minted p) (names, v, l, m, n, done) got =
      subst (IsCounted rows event (token_minted p))
        (put_row-read rows after event.stream_id (minted_row event (agent_mint p) names) refl done
          got)
        (refl, inr (v, refl, refl))
  Effect-IsCounted rows after event (gateway_token_minted p) (names, v, l, m, n, done) got =
      subst (IsCounted rows event (gateway_token_minted p))
        (put_row-read rows after event.stream_id (minted_row event (gateway_mint p) names) refl done
          got)
        (refl, inr (v, refl, refl))
  Effect-IsCounted rows after event token_consumed (old, e, _, done) got =
      subst (IsCounted rows event token_consumed)
        (put_row-read rows after event.stream_id
          (consumed_row old event.stream_version event.created_at)
          (get-token_id rows event.stream_id e) done got)
        (refl, inl (old, e, omega arith))
  Effect-IsCounted rows after event token_disabled (old, e, _, done) got =
      subst (IsCounted rows event token_disabled)
        (put_row-read rows after event.stream_id
          (disabled_row old event.stream_version event.created_at)
          (get-token_id rows event.stream_id e) done got)
        (refl, inl (old, e, omega arith))
  Effect-IsCounted rows after event (token_updated p) (old, e, _, done) got =
      subst (IsCounted rows event (token_updated p))
        (put_row-read rows after event.stream_id
          (replaced_row old p.max_uses p.expires_at p.owner p.disabled event.stream_version
            event.created_at)
          (get-token_id rows event.stream_id e) done got)
        (refl, inl (old, e, omega arith))
  Effect-IsCounted rows after event token_deleted {row = row} (old, e, v, done) got =
      let gone : none ≡ some row =
        sym (get-remove_row rows event.stream_id)
        ∙ ap (λ r. get_registration_token r event.stream_id) (sym done)
        ∙ got in
      absurd (ground (arith, gone))
