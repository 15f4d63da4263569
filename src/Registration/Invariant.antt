-- ===== src/Registration/Invariant.antt =====
-- The rows of reachable stores (server/internal/store/registration_tokens.go over store.go).
use power_manage.Shared.{
  ℕ, ◌+◌, ◌≤◌, ◌≡◌, refl, sym, ap, ◌∙◌, subst, inl, inr, Bool, false, List, [], ◌∷◌, some,
  if◌then◌else◌, ok, arith,
}
use power_manage.Shared.Int.{ℤ}
use power_manage.Shared.Bytes.{Bytes, bytes_eq, bytes_eq_refl}
use power_manage.EventStore.{Event, Store, current_stream_version, persisted, append_prepared}
use power_manage.EventStore.Versions.{
  appended, Reach, here, next, prepare_event-stream_type, append_prepared-eq-ok, version_after,
  version_after_own,
}
use power_manage.EventStore.Replay.{empty_store}
use power_manage.Registration.{RegistrationPayload, registration_token_stream_type}
use power_manage.Registration.Tables.{
  TokenRow, get_registration_token, RegistrationToken, registration_token_from_row,
}
use power_manage.Registration.Project.{registration_token_target}
use power_manage.Registration.Local.{project_token_event-Same}
use power_manage.Registration.Effect.{Older, project_token_event-Effect}
use power_manage.Registration.Counted.{
  is_consumption, consumptions, target, IsWellFormed, IsCurrent, Effect-IsWellFormed,
  Effect-IsCounted,
}

abbrev pub TokenStore : Type 0
TokenStore = Store RegistrationPayload (List TokenRow)

consumptions-own :
    (log : List _) (event : Event RegistrationPayload) (version : ℕ) (now : ℤ)
    → event.stream_type ≡ registration_token_stream_type
    → consumptions (persisted event version now ∷ log) event.stream_id
      ≡ (if is_consumption event.payload then 1 else 0) + consumptions log event.stream_id
unfolding consumptions
consumptions-own log event version now t =
    ground (arith, t, bytes_eq_refl event.stream_id, bytes_eq_refl registration_token_stream_type)

consumptions-other :
    (log : List _) (event : Event RegistrationPayload) (version : ℕ) (now : ℤ) (id : Bytes)
    → bytes_eq event.stream_id id ≡ false
    → consumptions (persisted event version now ∷ log) id ≡ consumptions log id
unfolding consumptions
consumptions-other log event version now id h = ground (arith, h)

module _ (is_ip : Bytes → Bool) where
  abbrev pub Reachable : TokenStore → Type 0
  Reachable s = Reach (target is_ip) (empty_store []) s

  consumptions-le :
      (s : TokenStore) (id : Bytes)
      → Reachable s
      → consumptions s.log id ≤ current_stream_version s.log registration_token_stream_type id
  unfolding consumptions
  consumptions-le s id here = omega arith
  consumptions-le s id (next {t = t} r (appended raw event version now made c h)) =
      let (log, _) = append_prepared-eq-ok (target is_ip) t event (version + 1) now h in
      let same = ap (λ l. consumptions l id) log in
      let type_eq = prepare_event-stream_type (target is_ip) raw made in
      let before = consumptions-le t id r in
      elim (version_after (target is_ip) t event version now registration_token_stream_type id c
        h) [
          | inl (_, id_eq, old, new) ↦
              let more = consumptions-own t.log event (version + 1) now type_eq in
              ground (arith, same, more, id_eq, before, old, new)
          | inr (other, keep) ↦
              let e : bytes_eq event.stream_id id ≡ false =
                ground (arith, other, type_eq, bytes_eq_refl registration_token_stream_type) in
              ground
                (arith, same, consumptions-other t.log event (version + 1) now id e, keep, before)
        ]

  own-step :
      (t s : TokenStore) (raw event : Event RegistrationPayload) (version : ℕ) (now : ℤ)
      {row : TokenRow}
      → event.stream_type ≡ registration_token_stream_type
      → consumptions t.log event.stream_id ≤ version
      → ((old : TokenRow)
          → get_registration_token t.tables event.stream_id ≡ some old
          → IsWellFormed is_ip event.stream_id old × IsCurrent is_ip t.log event.stream_id old)
      → current_stream_version t.log registration_token_stream_type event.stream_id ≡ version
      → append_prepared (target is_ip) t event (version + 1) now ≡ ok s
      → current_stream_version s.log registration_token_stream_type event.stream_id ≡ version + 1
      → get_registration_token s.tables event.stream_id ≡ some row
      → IsWellFormed is_ip event.stream_id row × IsCurrent is_ip s.log event.stream_id row
  own-step t s raw event version now {row = row} type_eq few before c h after got =
      let (log, done) = append_prepared-eq-ok (target is_ip) t event (version + 1) now h in
      let uses =
        ap (λ l. consumptions l event.stream_id) log
        ∙ consumptions-own t.log event (version + 1) now type_eq in
      let older : Older t.tables (persisted event (version + 1) now) =
        λ old e. omega (arith, ((before old e).1).0, c) in
      let effect =
        project_token_event-Effect is_ip t.tables s.tables (persisted event (version + 1) now) older
          done in
      let well =
        Effect-IsWellFormed is_ip t.tables s.tables (persisted event (version + 1) now)
          event.payload (λ old e. (before old e).0) effect got in
      let (v, counted) =
        Effect-IsCounted is_ip t.tables s.tables (persisted event (version + 1) now) event.payload
          effect got in
      (
        well,
        (
          v ∙ sym after,
          omega (arith, v),
          elim counted [
            | inl (old, e, u) ↦ let (_, (_, _, was)) = before old e in ground (arith, u, uses, was)
            | inr (first, none_, mint) ↦ ground (arith, first, none_, mint, uses, few)
          ],
        ),
      )

  -- In every reachable store, whatever appends interleaved, a token's row passes the checks of the
  -- read, its version is that of its stream, and its uses are the consume events that the log has of
  -- it, which are therefore never more than its bound.
  pub Reach-rows :
      (s : TokenStore) (id : Bytes) (row : TokenRow)
      → Reach (registration_token_target is_ip) (empty_store []) s
      → get_registration_token s.tables id ≡ some row
      → IsWellFormed is_ip id row × IsCurrent is_ip s.log id row
  unfolding get_registration_token
  Reach-rows s id row here got = cc
  Reach-rows s id row (next {t = t} r (appended raw event version now made c h)) got =
      let (log, done) = append_prepared-eq-ok (target is_ip) t event (version + 1) now h in
      let type_eq = prepare_event-stream_type (target is_ip) raw made in
      elim (version_after (target is_ip) t event version now registration_token_stream_type id c
        h) [
          | inl (_, id_eq, old, new) ↦
              let current : (x : TokenStore)
                  → current_stream_version x.log registration_token_stream_type event.stream_id
                    ≡ current_stream_version x.log event.stream_type event.stream_id =
                λ x. ap (λ type. current_stream_version x.log type event.stream_id) (sym type_eq) in
              let got' = ap (get_registration_token s.tables) id_eq ∙ got in
              subst (λ i. IsWellFormed is_ip i row × IsCurrent is_ip s.log i row) id_eq
                (own-step t s raw event version now type_eq
                  (omega (arith, c, current t, consumptions-le t event.stream_id r))
                  (λ x e. Reach-rows t event.stream_id x r e) (current t ∙ c) h
                  (current s ∙ version_after_own (target is_ip) t event version now c h) got')
          | inr (other, keep) ↦
              let e : bytes_eq event.stream_id id ≡ false =
                ground (arith, other, type_eq, bytes_eq_refl registration_token_stream_type) in
              let tables =
                project_token_event-Same is_ip t.tables s.tables (persisted event (version + 1) now)
                  id e done in
              let (well, (v, p, u)) = Reach-rows t id row r (sym tables ∙ got) in
              let same =
                ap (λ l. consumptions l id) log
                ∙ consumptions-other t.log event (version + 1) now id e in
              (well, (v ∙ sym keep, p, u ∙ sym same))
        ]

  -- The read of a token never fails on a row of a reachable store: it returns the row's values.
  pub registration_token_from_row-Reach :
      (s : TokenStore) (id : Bytes) (row : TokenRow)
      → Reach (registration_token_target is_ip) (empty_store []) s
      → get_registration_token s.tables id ≡ some row
      → (token : RegistrationToken) × (registration_token_from_row is_ip id row ≡ ok token)
        × (token.hash ≡ row.token_hash)
        × (token.purpose ≡ row.purpose)
        × (token.disabled ≡ row.disabled)
        × (token.uses ≡ row.uses)
        × (token.max_uses ≡ row.max_uses)
        × (token.expires_at ≡ row.expires_at)
        × (token.owner ≡ row.owner)
        × (token.dns_names ≡ row.dns_names)
        × (token.token_id ≡ id)
        × (token.projection_version ≡ row.projection_version)
  unfolding registration_token_from_row
  registration_token_from_row-Reach s id row r got =
      let ((same, hash, bound, meta, names), (v, p, u)) = Reach-rows s id row r got in
      (
        record {
          token_id = row.token_id;
          hash = row.token_hash;
          purpose = row.purpose;
          dns_names = row.dns_names;
          max_uses = row.max_uses;
          uses = row.uses;
          expires_at = row.expires_at;
          owner = row.owner;
          disabled = row.disabled;
          projection_version = row.projection_version;
        },
        ground (arith, same, bytes_eq_refl id, hash, bound, meta, names, p),
        refl,
        refl,
        refl,
        refl,
        refl,
        refl,
        refl,
        refl,
        same,
        refl,
      )
