-- ===== src/Registration/Fresh.antt =====
-- The row of a registration token that was just minted (server/internal/pki/registration_tokens.go
-- `registrationTokenMintedEvent` over server/internal/store/registration_tokens.go).
use power_manage.Shared.{
  ◌<◌, ◌≡◌, ◌⊎◌, inl, inr, refl, sym, ap, ap₂, ◌∙◌, subst, Bool, false, List, [], ◌∷◌, some, ok,
  length, arith, Result-cases,
}
use power_manage.Shared.Int.{ℤ}
use power_manage.Shared.Bytes.{Bytes}
use power_manage.Ulid.{to_upper}
use power_manage.EventStore.{Event, append_event_with_version}
use power_manage.Registration.{
  RegistrationTokenPurpose, agent, gateway, other_purpose, RegistrationPayload,
  registration_token_minted_event, gateway_registration_token_minted_event,
}
use power_manage.Registration.Invariant.{TokenStore}
use power_manage.EventStore.{
  Persisted, persisted, prepare_event, append_pinned, current_stream_version,
}
use power_manage.EventStore.Versions.{append_prepared-eq-ok}
use power_manage.Registration.{
  registration_token_stream_type, canonical_registration_token_id,
  validate_registration_token_metadata, token_minted, gateway_token_minted,
  validate_registration_token_purpose, TokenMintedPayload, GatewayTokenMintedPayload, event_of,
}
use power_manage.Registration.Tables.{TokenRow, get_registration_token}
use power_manage.Registration.Lookups.{not_rotation}
use power_manage.EventStore.Versions.{prepare_event-to_upper}
use power_manage.Registration.Project.{Minted, minted_row}
use power_manage.Registration.Effect.{Older, Effect, Mint, project_token_event-Effect}
use power_manage.Registration.Lookups.{get-put_row}
use power_manage.Registration.Counted.{target}
use power_manage.Registration.Invariant.{Reachable, Reach-rows}
use power_manage.Registration.Mint.{RegistrationTokenOptions, mint_event}

-- What a mint event says, of either purpose.
abbrev minted_of : RegistrationTokenOptions → Bytes → Minted
minted_of options hash = record {
  token_hash = hash;
  purpose = options.purpose;
  dns_names = options.dns_names;
  max_uses = options.max_uses;
  expires_at = options.expires_at;
  owner = options.owner;
}

no_entries : (names : List Bytes) → length names ≡ 0 → [] ≡ names
no_entries [] h = refl
no_entries (n ∷ names) h = absurd (omega (arith, h))

purpose-cases :
    (p : RegistrationTokenPurpose)
    → (p ≡ agent) ⊎ ((p ≡ gateway) ⊎ ((x : Bytes) × (p ≡ other_purpose x)))
purpose-cases agent = inl refl
purpose-cases gateway = inr (inl refl)
purpose-cases (other_purpose x) = inr (inr (x, refl))

module _ (is_ip : Bytes → Bool) where
  abbrev pub IsMintOf :
      Event RegistrationPayload → Bytes → RegistrationTokenOptions → Bytes → Type 0
  IsMintOf event token_id options hash =
      (event.stream_id ≡ to_upper token_id)
      × (event.stream_type ≡ registration_token_stream_type)
      × ((rows after : List TokenRow) (stored : Persisted RegistrationPayload)
          → Effect is_ip rows stored event.payload after
          → Mint is_ip rows stored (minted_of options hash) after)

  agent_event :
      (token_id hash : Bytes) (options : RegistrationTokenOptions)
      {event : Event RegistrationPayload}
      → options.purpose ≡ agent
      → mint_event is_ip token_id hash options ≡ ok event
      → IsMintOf event token_id options hash
  unfolding mint_event registration_token_minted_event canonical_registration_token_id
  agent_event token_id hash options {event = event} purpose h =
      let p : TokenMintedPayload = record {
        token_hash = hash;
        max_uses = options.max_uses;
        expires_at = options.expires_at;
        owner = options.owner;
      } in
      let is : event_of (to_upper token_id) (token_minted p) ≡ event = ground (arith, purpose, h) in
      let none_ : length options.dns_names ≡ 0 = ground (arith, purpose, h) in
      subst (λ e. IsMintOf e token_id options hash) is
        (
          refl,
          refl,
          λ rows after stored effect.
              subst (λ m. Mint is_ip rows stored m after)
                (ap₂
                  (λ pu names. minted_of (record options { purpose = pu; dns_names = names }) hash)
                  (sym purpose) (no_entries options.dns_names none_))
                effect,
        )

  gateway_event :
      (token_id hash : Bytes) (options : RegistrationTokenOptions)
      {event : Event RegistrationPayload}
      → options.purpose ≡ gateway
      → mint_event is_ip token_id hash options ≡ ok event
      → IsMintOf event token_id options hash
  unfolding mint_event gateway_registration_token_minted_event canonical_registration_token_id
      validate_registration_token_purpose
  gateway_event token_id hash options {event = event} purpose h =
      let p : GatewayTokenMintedPayload = record {
        token_hash = hash;
        max_uses = options.max_uses;
        expires_at = options.expires_at;
        owner = options.owner;
        dns_names = options.dns_names;
      } in
      let is : event_of (to_upper token_id) (gateway_token_minted p) ≡ event =
        ground (arith, purpose, h) in
      subst (λ e. IsMintOf e token_id options hash) is
        (
          refl,
          refl,
          λ rows after stored effect.
              subst (λ m. Mint is_ip rows stored m after)
                (ap (λ pu. minted_of (record options { purpose = pu }) hash) (sym purpose)) effect,
        )

  -- The row of a token that was just minted.
  abbrev pub IsFresh : TokenStore → Bytes → RegistrationTokenOptions → Bytes → Type 0
  IsFresh after token_id options hash =
      (row : TokenRow) × (get_registration_token after.tables token_id ≡ some row)
      × (row.token_hash ≡ hash)
      × (row.purpose ≡ options.purpose)
      × (row.disabled ≡ false)
      × (row.uses ≡ 0)
      × (row.max_uses ≡ options.max_uses)
      × (0 < options.max_uses)
      × (row.expires_at ≡ options.expires_at)

  pub append-IsFresh :
      (s : TokenStore) (event : Event RegistrationPayload) (token_id hash : Bytes)
      (options : RegistrationTokenOptions) (at : ℤ) {after : TokenStore}
      → Reachable is_ip s
      → to_upper token_id ≡ token_id
      → IsMintOf event token_id options hash
      → append_event_with_version (target is_ip) s event 0 at ≡ ok after
      → IsFresh after token_id options hash
  unfolding append_event_with_version append_pinned prepare_event
      validate_registration_token_metadata
  append-IsFresh s event token_id hash options at {after = after} r up (id, type_eq, mints) h =
      elim (Result-cases (prepare_event (target is_ip) event)) [
        | inr (x, bad) ↦ absurd (ground (arith, bad, h))
        | inl (p, ready) ↦
            let same : event.payload ≡ p.payload = ground (arith, ready) in
            let id_eq =
              prepare_event-to_upper (target is_ip) event (not_rotation event.stream_type type_eq)
                ready in
            let pid = id_eq ∙ ap to_upper (id ∙ up) ∙ up in
            let type' : p.stream_type ≡ event.stream_type = ground (arith, ready) in
            let current : current_stream_version s.log p.stream_type p.stream_id ≡ 0 =
              ground (arith, ready, h) in
            let unused =
              ap₂ (current_stream_version s.log) (sym (type' ∙ type_eq)) refl ∙ current in
            let stored = persisted p 1 at in
            let older : Older s.tables stored = λ row e.
              let (_, (v, some_, _)) = Reach-rows is_ip s p.stream_id row r e in
              absurd (omega (arith, v, some_, unused)) in
            let (_, done) =
              append_prepared-eq-ok (target is_ip) s p 1 at {t = after}
                (ground (arith, ready, h)) in
            let effect =
              subst (λ payload. Effect is_ip s.tables stored payload after.tables) (sym same)
                (project_token_event-Effect is_ip s.tables after.tables stored older done) in
            let (names, first, size, meta, valid, put) =
              mints s.tables after.tables stored effect in
            let row = minted_row stored (minted_of options hash) names in
            (
              row,
              ap₂ get_registration_token put (sym pid) ∙ get-put_row s.tables row,
              refl,
              refl,
              refl,
              refl,
              refl,
              ground (arith, meta),
              refl,
            )
      ]

  no_other :
      (token_id hash : Bytes) (options : RegistrationTokenOptions) (x : Bytes)
      {event : Event RegistrationPayload}
      → options.purpose ≡ other_purpose x
      → mint_event is_ip token_id hash options ≡ ok event
      → ⊥
  unfolding mint_event
  no_other token_id hash options x e h = ground (arith, e, h)

  pub mint_event-IsMintOf :
      (token_id hash : Bytes) (options : RegistrationTokenOptions)
      {event : Event RegistrationPayload}
      → mint_event is_ip token_id hash options ≡ ok event
      → IsMintOf event token_id options hash
        × ((options.purpose ≡ agent) ⊎ (options.purpose ≡ gateway))
  mint_event-IsMintOf token_id hash options h = elim (purpose-cases options.purpose) [
    | inl e ↦ (agent_event token_id hash options e h, inl e)
    | inr (inl e) ↦ (gateway_event token_id hash options e h, inr e)
    | inr (inr (x, e)) ↦ absurd (no_other token_id hash options x e h)
  ]
