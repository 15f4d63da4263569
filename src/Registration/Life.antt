-- ===== src/Registration/Life.antt =====
-- The life of a registration token, field by field, against the projectors of
-- server/internal/store/registration_tokens.go.
use power_manage.Shared.{
  ℕ, ◌+◌, ◌<◌, ◌≤◌, ◌≡◌, refl, sym, ap, ap₂, ◌∙◌, Bool, true, false, ◌||◌, List, Option, none, some,
  ok, arith, length,
}
use power_manage.Shared.Int.{ℤ}
use power_manage.Shared.Bytes.{Bytes, bytes_eq}
use power_manage.Registration.{
  RegistrationPayload, token_minted, gateway_token_minted, token_consumed, token_disabled,
  token_deleted, token_updated, validate_registration_token_purpose,
  validate_registration_token_metadata,
}
use power_manage.Registration.Tables.{
  TokenRow, get_registration_token, put_row, consumed_row, disabled_row, replaced_row,
}
use power_manage.Registration.Project.{
  TokenEvent, Minted, agent_mint, gateway_mint, minted_row, project_token_event,
}
use power_manage.Registration.Lookups.{get-token_id, get-put_row, get-remove_row}
use power_manage.Registration.Local.{project_token_event-Same}
use power_manage.Registration.Effect.{Older, Effect, Mint, project_token_event-Effect}

-- What no later event changes.
abbrev SameToken : TokenRow → TokenRow → Type 0
SameToken old new =
    (new.token_id ≡ old.token_id)
    × (new.token_hash ≡ old.token_hash)
    × (new.purpose ≡ old.purpose)
    × (new.dns_names ≡ old.dns_names)

abbrev SameTerms : TokenRow → TokenRow → Type 0
SameTerms old new =
    (new.max_uses ≡ old.max_uses) × (new.expires_at ≡ old.expires_at) × (new.owner ≡ old.owner)

-- The row is of the event: its version and its time.
abbrev IsStamped : TokenEvent → TokenRow → Type 0
IsStamped event new =
    (new.projection_version ≡ event.stream_version) × (new.updated_at ≡ event.created_at)

module _ (is_ip : Bytes → Bool) where
  -- The first event: the row says what the payload says, is enabled and has no uses.
  abbrev Born : TokenEvent → Minted → Option TokenRow → Type 0
  Born event minted after =
      (new : TokenRow) × (after ≡ some new)
      × (event.stream_version ≡ 1)
      × IsStamped event new
      × (new.token_id ≡ event.stream_id)
      × (new.token_hash ≡ minted.token_hash)
      × (length new.token_hash ≡ 32)
      × (new.purpose ≡ minted.purpose)
      × (validate_registration_token_purpose is_ip minted.purpose minted.dns_names
          ≡ ok new.dns_names)
      × (new.max_uses ≡ minted.max_uses)
      × (0 < new.max_uses)
      × (new.expires_at ≡ minted.expires_at)
      × (new.owner ≡ minted.owner)
      × (new.uses ≡ 0)
      × (new.disabled ≡ false)

  -- What the event of a type does to the row of its token, before and after it.
  abbrev pub Life : RegistrationPayload → TokenEvent → Option TokenRow → Option TokenRow → Type 0
  Life (token_minted p) event before after = Born event (agent_mint p) after
  Life (gateway_token_minted p) event before after = Born event (gateway_mint p) after
  Life token_consumed event before after =
      (old : TokenRow) × (new : TokenRow) × (before ≡ some old)
      × (after ≡ some new)
      × IsStamped event new
      × SameToken old new
      × SameTerms old new
      × (old.uses < old.max_uses)
      × (new.uses ≡ old.uses + 1)
      × (old.disabled ≡ false)
      × (new.disabled ≡ false)
  Life token_disabled event before after =
      (old : TokenRow) × (new : TokenRow) × (before ≡ some old)
      × (after ≡ some new)
      × IsStamped event new
      × SameToken old new
      × SameTerms old new
      × (new.uses ≡ old.uses)
      × (old.disabled ≡ false)
      × (new.disabled ≡ true)
  Life (token_updated p) event before after =
      (old : TokenRow) × (new : TokenRow) × (before ≡ some old)
      × (after ≡ some new)
      × (old.projection_version + 1 ≡ event.stream_version)
      × IsStamped event new
      × SameToken old new
      × (new.max_uses ≡ p.max_uses)
      × (new.expires_at ≡ p.expires_at)
      × (new.owner ≡ p.owner)
      × (new.uses ≡ old.uses)
      × (new.uses ≤ new.max_uses)
      × (new.disabled ≡ (old.disabled || p.disabled))
  Life token_deleted event before after =
      (old : TokenRow) × (before ≡ some old)
      × (old.projection_version + 1 ≡ event.stream_version)
      × (after ≡ none)

  bounded :
      (max_uses : ℕ) (expires_at : ℤ) (owner : Bytes)
      → validate_registration_token_metadata max_uses expires_at owner ≡ ok tt
      → 0 < max_uses
  unfolding validate_registration_token_metadata
  bounded max_uses expires_at owner h = ground (arith, h)

  put-read :
      (rows after : List TokenRow) (id : Bytes) (row : TokenRow)
      → after ≡ put_row rows row
      → row.token_id ≡ id
      → get_registration_token after id ≡ some row
  put-read rows after id row put is = ap₂ get_registration_token put (sym is) ∙ get-put_row rows row

  Mint-Born :
      (rows after : List TokenRow) (event : TokenEvent) (minted : Minted)
      → Mint is_ip rows event minted after
      → Born event minted (get_registration_token after event.stream_id)
  Mint-Born rows after event minted (names, first, size, meta, valid, put) =
      let row = minted_row event minted names in
      (
        row,
        put-read rows after event.stream_id row put refl,
        first,
        (refl, refl),
        refl,
        refl,
        size,
        refl,
        valid,
        refl,
        bounded minted.max_uses minted.expires_at minted.owner meta,
        refl,
        refl,
        refl,
        refl,
      )

  Effect-Life :
      (rows after : List TokenRow) (event : TokenEvent) (payload : RegistrationPayload)
      → Effect is_ip rows event payload after
      → Life payload event
          (get_registration_token rows event.stream_id)
          (get_registration_token after event.stream_id)
  Effect-Life rows after event (token_minted p) done =
      Mint-Born rows after event (agent_mint p) done
  Effect-Life rows after event (gateway_token_minted p) done =
      Mint-Born rows after event (gateway_mint p) done
  Effect-Life rows after event token_consumed (old, e, (on, room), put) =
      let new = consumed_row old event.stream_version event.created_at in
      let read = put-read rows after event.stream_id new put (get-token_id rows _ {row = old} e) in
      (
        old,
        new,
        e,
        read,
        (refl, refl),
        (refl, refl, refl, refl),
        (refl, refl, refl),
        room,
        refl,
        on,
        on,
      )
  Effect-Life rows after event token_disabled (old, e, on, put) =
      let new = disabled_row old event.stream_version event.created_at in
      let read = put-read rows after event.stream_id new put (get-token_id rows _ {row = old} e) in
      (
        old,
        new,
        e,
        read,
        (refl, refl),
        (refl, refl, refl, refl),
        (refl, refl, refl),
        refl,
        on,
        refl,
      )
  Effect-Life rows after event (token_updated p) (old, e, (next_version, bound, _), put) =
      let new =
        replaced_row old p.max_uses p.expires_at p.owner p.disabled event.stream_version
          event.created_at in
      let read = put-read rows after event.stream_id new put (get-token_id rows _ {row = old} e) in
      (
        old,
        new,
        e,
        read,
        next_version,
        (refl, refl),
        (refl, refl, refl, refl),
        refl,
        refl,
        refl,
        refl,
        bound,
        refl,
      )
  Effect-Life rows after event token_deleted (old, e, version, gone) = (
    old,
    e,
    version,
    ap (λ t. get_registration_token t event.stream_id) gone ∙ get-remove_row rows event.stream_id,
  )

  -- A projector that succeeds, on an event that is newer than the row of its token: a mint is version 1
  -- and leaves an enabled row without uses and with what the payload says; a use finds an enabled row
  -- below its bound and raises the uses by one; a disablement finds an enabled row and disables it; an
  -- update sets bound, expiry and owner, keeps the uses, which are within the new bound, and disables
  -- but never enables; a deletion leaves no row. Whatever else the row says stays, but for its version
  -- and time, which are the event's; and so does the row of every other token.
  pub project_token_event-Life :
      (rows after : List TokenRow) (event : TokenEvent) (other : Bytes)
      → Older rows event
      → bytes_eq event.stream_id other ≡ false
      → project_token_event is_ip rows event ≡ ok after
      → Life event.payload event
          (get_registration_token rows event.stream_id)
          (get_registration_token after event.stream_id)
        × (get_registration_token after other ≡ get_registration_token rows other)
  project_token_event-Life rows after event other older distinct h = (
    Effect-Life rows after event event.payload
        (project_token_event-Effect is_ip rows after event older h),
    project_token_event-Same is_ip rows after event other distinct h,
  )
