-- ===== src/Registration/Claims.antt =====
-- One pass of the loops over registration tokens (server/internal/pki/registration_tokens.go): what an
-- append at the version that was read finds.
use power_manage.Shared.{
  ◌+◌, ◌<◌, ◌≡◌, refl, sym, ap, ap₂, ◌∙◌, subst, inl, inr, Bool, [], ◌∷◌, some, ok, arith,
  Result-cases, Option-cases,
}
use power_manage.Shared.Int.{ℤ}
use power_manage.Shared.Bytes.{Bytes, bytes_eq_refl, bytes_eq→eq}
use power_manage.Ulid.{upper_byte, to_upper, ulid_path_id}
use power_manage.EventStore.{
  Event, Persisted, current_stream_version, persisted, prepare_event, append_pinned,
  append_event_with_version,
}
use power_manage.EventStore.Versions.{Reach, append_prepared-eq-ok, Reach-row}
use power_manage.EventStore.Commits.{Reach-trans}
use power_manage.EventStore.Versions.{prepare_event-to_upper}
use power_manage.Registration.Lookups.{not_rotation}
use power_manage.Registration.{
  RegistrationPayload, registration_token_stream_type, canonical_registration_token_id,
}
use power_manage.Registration.Tables.{
  TokenRow, RegistrationToken, registration_token, get_registration_token,
}
use power_manage.Registration.Local.{project_token_event-Same}
use power_manage.Registration.Effect.{Older, Effect, project_token_event-Effect}
use power_manage.Registration.Counted.{target}
use power_manage.Registration.Invariant.{
  TokenStore, Reachable, Reach-rows, registration_token_from_row-Reach,
}
use power_manage.Registration.Steps.{version_of}

pub to_upper_idem : (s : Bytes) → to_upper (to_upper s) ≡ to_upper s
unfolding upper_byte
to_upper_idem [] = refl
to_upper_idem (c ∷ cs) =
    let head : upper_byte (upper_byte c) ≡ upper_byte c = ground arith in
    ap₂ ◌∷◌ head (to_upper_idem cs)

module _ (is_ip : Bytes → Bool) where
  abbrev Token : Type 0
  Token = RegistrationToken

  -- The token that a read of a reachable store returns, with its row.
  abbrev pub IsReadOf : TokenStore → Token → TokenRow → Type 0
  IsReadOf s token row =
      (get_registration_token s.tables token.token_id ≡ some row)
      × (to_upper token.token_id ≡ token.token_id)
      × (token.hash ≡ row.token_hash)
      × (token.purpose ≡ row.purpose)
      × (token.disabled ≡ row.disabled)
      × (token.uses ≡ row.uses)
      × (token.max_uses ≡ row.max_uses)
      × (token.expires_at ≡ row.expires_at)
      × (token.owner ≡ row.owner)
      × (token.dns_names ≡ row.dns_names)
      × (token.projection_version ≡ version_of s token.token_id)

  pub registration_token-IsReadOf :
      (s : TokenStore) (raw : Bytes) {token : Token}
      → Reachable is_ip s
      → registration_token is_ip s.tables raw ≡ ok token
      → (row : TokenRow) × IsReadOf s token row × (token.token_id ≡ to_upper raw)
  unfolding registration_token canonical_registration_token_id
  registration_token-IsReadOf s raw {token = token} r h = elim (Result-cases (ulid_path_id raw)) [
    | inr (e, bad) ↦ absurd (ground (arith, bad, h))
    | inl (u, good) ↦ elim (Option-cases (get_registration_token s.tables (to_upper raw))) [
      | inl e ↦ absurd (ground (arith, good, e, h))
      | inr (row, e) ↦
          let (t, made, hash, purpose, off, uses, max, expires, owner, names, id, version) =
            registration_token_from_row-Reach is_ip s (to_upper raw) row r e in
          let is : t ≡ token = ground (arith, good, e, made, h) in
          let (_, (v, _, _)) = Reach-rows is_ip s (to_upper raw) row r e in
          let got = ap (get_registration_token s.tables) id ∙ e in
          let up = ap to_upper id ∙ to_upper_idem raw ∙ sym id in
          let current = version ∙ v ∙ ap (version_of s) (sym id) in
          (
            row,
            subst (λ x. IsReadOf s x row) is
                (got, up, hash, purpose, off, uses, max, expires, owner, names, current),
            sym (ap (λ x. x.token_id) is) ∙ id,
          )
    ]
  ]

  -- An append that succeeds at the version that was read: the row is still the one that was read, and
  -- the event takes effect on it.
  pub pinned-Effect :
      (seen current after : TokenStore) (token : Token) (row : TokenRow)
      (event : Event RegistrationPayload) (now : ℤ)
      → Reachable is_ip seen
      → Reach (target is_ip) seen current
      → IsReadOf seen token row
      → event.stream_id ≡ token.token_id
      → append_event_with_version (target is_ip) current event token.projection_version now
        ≡ ok after
      → (event' : Persisted RegistrationPayload) × (get_registration_token current.tables
            token.token_id
          ≡ some row)
        × (event'.stream_id ≡ token.token_id)
        × (event'.stream_version ≡ token.projection_version + 1)
        × (event'.created_at ≡ now)
        × Effect is_ip current.tables event' event.payload after.tables
  unfolding append_event_with_version append_pinned prepare_event
  pinned-Effect seen current after token row event now start r
        (got, up, hash, purpose, off, uses, max, expires, owner, names, version) id h =
      elim (Result-cases (prepare_event (target is_ip) event)) [
        | inr (x, bad) ↦ absurd (ground (arith, bad, h))
        | inl (p, made) ↦
            let type_eq : p.stream_type ≡ registration_token_stream_type =
              ground (arith, made, bytes_eq→eq event.stream_type registration_token_stream_type) in
            let same_payload : event.payload ≡ p.payload = ground (arith, made) in
            let raw_type : event.stream_type ≡ registration_token_stream_type =
              ground (arith, made, bytes_eq→eq event.stream_type registration_token_stream_type) in
            let upper =
              prepare_event-to_upper (target is_ip) event (not_rotation event.stream_type raw_type)
                made in
            let id_eq = upper ∙ ap to_upper id ∙ up in
            let stands : current_stream_version current.log p.stream_type p.stream_id
                ≡ token.projection_version =
              ground (arith, made, h) in
            let version' =
              ap₂ (current_stream_version current.log) (sym type_eq) (sym id_eq)
              ∙ stands
              ∙ version in
            let same =
              Reach-row (target is_ip) (λ tables. get_registration_token tables token.token_id)
                registration_token_stream_type token.token_id
                (λ tables tables' e type other done.
                  project_token_event-Same is_ip tables tables' e token.token_id
                    (ground (arith, type, other, bytes_eq_refl registration_token_stream_type))
                    done)
                r version' in
            let (_, done) =
              append_prepared-eq-ok (target is_ip) current p (token.projection_version + 1) now
                {t = after} (ground (arith, made, h)) in
            let (_, (v, _, _)) =
              Reach-rows is_ip current token.token_id row (Reach-trans (target is_ip) start r)
                (same ∙ got) in
            let newer : row.projection_version < token.projection_version + 1 =
              omega (arith, v, version', version) in
            let stored = persisted p (token.projection_version + 1) now in
            let older : Older current.tables stored = λ x e.
              let is : some row ≡ some x =
                sym (same ∙ got) ∙ sym (ap (get_registration_token current.tables) id_eq) ∙ e in
              ground (arith, is, newer) in
            (
              stored,
              same ∙ got,
              id_eq,
              refl,
              refl,
              subst (λ payload. Effect is_ip current.tables stored payload after.tables)
                  (sym same_payload)
                  (project_token_event-Effect is_ip current.tables after.tables stored older done),
            )
      ]
