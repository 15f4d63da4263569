-- ===== src/Registration/Steps.antt =====
-- The life of one token (server/internal/store/registration_tokens.go) over the appends of all streams.
use power_manage.Shared.{
  ℕ, ◌+◌, ◌<◌, ◌≡◌, ◌≢◌, ◌⊎◌, sym, ap, ap₂, ◌∙◌, subst, inl, inr, Bool, true, false, List, [],
  Option, none, some, arith,
}
use power_manage.Shared.Bytes.{Bytes, bytes_eq, bytes_eq_refl}
use power_manage.EventStore.{current_stream_version, persisted}
use power_manage.EventStore.Versions.{
  Step, appended, Reach, here, next, prepare_event-stream_type, append_prepared-eq-ok,
  version_after, Reach-le,
}
use power_manage.EventStore.Replay.{empty_store}
use power_manage.EventStore.Commits.{Reach-trans}
use power_manage.Registration.{
  RegistrationPayload, registration_token_stream_type, token_minted, gateway_token_minted,
  token_consumed, token_disabled, token_deleted, token_updated,
}
use power_manage.Registration.Tables.{TokenRow, get_registration_token, replaced_row}
use power_manage.Registration.Project.{TokenEvent, registration_token_target}
use power_manage.Registration.Local.{project_token_event-Same}
use power_manage.Registration.Lookups.{get-token_id, get-remove_row, get-put_row}
use power_manage.Registration.Effect.{Older, Effect, project_token_event-Effect}
use power_manage.Registration.Counted.{target}
use power_manage.Registration.Invariant.{TokenStore, Reachable, Reach-rows}

abbrev pub version_of : TokenStore → Bytes → ℕ
version_of s id = current_stream_version s.log registration_token_stream_type id

module _ (is_ip : Bytes → Bool) where
  -- What a step does to one token: an event of its stream takes effect, or its row stays.
  abbrev pub Moves : TokenStore → TokenStore → Bytes → Type 0
  Moves t s id =
      ((event : TokenEvent) × (event.stream_id ≡ id)
        × (event.stream_version ≡ version_of t id + 1)
        × (version_of s id ≡ version_of t id + 1)
        × Effect is_ip t.tables event event.payload s.tables)
      ⊎ ((get_registration_token s.tables id ≡ get_registration_token t.tables id)
          × (version_of s id ≡ version_of t id))

  pub Step-Moves :
      (t s : TokenStore) (id : Bytes) → Reachable is_ip t → Step (target is_ip) t s → Moves t s id
  Step-Moves t s id r (appended raw event version now made c h) =
      let (log, done) = append_prepared-eq-ok (target is_ip) t event (version + 1) now h in
      let type_eq = prepare_event-stream_type (target is_ip) raw made in
      elim (version_after (target is_ip) t event version now registration_token_stream_type id c
        h) [
          | inl (_, id_eq, old, new) ↦
              let older : Older t.tables (persisted event (version + 1) now) = λ row e.
                let (_, (v, _, _)) = Reach-rows is_ip t event.stream_id row r e in
                ground (arith, v, id_eq, old) in
              inl (
                persisted event (version + 1) now,
                id_eq,
                omega (arith, old),
                omega (arith, old, new),
                project_token_event-Effect is_ip t.tables s.tables
                    (persisted event (version + 1) now) older done,
              )
          | inr (other, keep) ↦
              let e : bytes_eq event.stream_id id ≡ false =
                ground (arith, other, type_eq, bytes_eq_refl registration_token_stream_type) in
              inr (
                project_token_event-Same is_ip t.tables s.tables (persisted event (version + 1) now)
                    id e done,
                keep,
              )
        ]

  -- No row, or a disabled one.
  abbrev pub IsDead : Option TokenRow → Type 0
  IsDead o = (o ≡ none) ⊎ ((row : TokenRow) × (o ≡ some row) × (row.disabled ≡ true))

  -- No row now, or a disabled one where there was a row before.
  abbrev pub StaysDead : Option TokenRow → Option TokenRow → Type 0
  StaysDead before now =
      (now ≡ none) ⊎ ((row : TokenRow) × (before ≢ none) × (now ≡ some row) × (row.disabled ≡ true))

  -- The row that an event finds is disabled.
  found-disabled :
      (before : Option TokenRow) (rows : List TokenRow) (id : Bytes) (old : TokenRow)
      → StaysDead before (get_registration_token rows id)
      → get_registration_token rows id ≡ some old
      → (before ≢ none) × (old.disabled ≡ true)
  found-disabled before rows id old (inl gone) e = absurd (ground (arith, gone, e))
  found-disabled before rows id old (inr (row, was, found, off)) e =
      (was, ground (arith, found, e, off))

  Effect-StaysDead :
      (before : Option TokenRow) (rows after : List TokenRow) (event : TokenEvent)
      (payload : RegistrationPayload)
      → 1 < event.stream_version
      → StaysDead before (get_registration_token rows event.stream_id)
      → Effect is_ip rows event payload after
      → StaysDead before (get_registration_token after event.stream_id)
  Effect-StaysDead before rows after event (token_minted p) v dead (names, first, _, _, _, _) =
      absurd (omega (arith, first, v))
  Effect-StaysDead before rows after event (gateway_token_minted p) v dead
        (names, first, _, _, _, _) =
      absurd (omega (arith, first, v))
  Effect-StaysDead before rows after event token_consumed v dead (old, e, (on, _), done) =
      let (_, off) = found-disabled before rows event.stream_id old dead e in absurd (cc (off, on))
  Effect-StaysDead before rows after event token_disabled v dead (old, e, on, done) =
      let (_, off) = found-disabled before rows event.stream_id old dead e in absurd (cc (off, on))
  Effect-StaysDead before rows after event (token_updated p) v dead (old, e, _, done) =
      let changed =
        replaced_row old p.max_uses p.expires_at p.owner p.disabled event.stream_version
          event.created_at in
      let (was, off) = found-disabled before rows event.stream_id old dead e in
      let id : changed.token_id ≡ event.stream_id =
        get-token_id rows event.stream_id {row = old} e in
      inr (
        changed,
        was,
        ap₂ get_registration_token done (sym id) ∙ get-put_row rows changed,
        ground (arith, off),
      )
  Effect-StaysDead before rows after event token_deleted v dead (old, e, _, done) = inl (
      ap (λ r. get_registration_token r event.stream_id) done ∙ get-remove_row rows event.stream_id)

  IsDead-StaysDead : (o : Option TokenRow) → IsDead o → StaysDead o o
  IsDead-StaysDead o (inl gone) = inl gone
  IsDead-StaysDead o (inr (row, found, off)) =
      inr (row, (λ e. ground (arith, e, found)), found, off)

  -- A token that is disabled or deleted stays so for ever, whatever is appended, on its stream or
  -- another: later it has no row, or it had one before and that is disabled. A deleted token does not
  -- come back.
  pub dead_for_ever :
      (s t : TokenStore) (id : Bytes)
      → Reach (registration_token_target is_ip) (empty_store []) s
      → 0 < version_of s id
      → IsDead (get_registration_token s.tables id)
      → Reach (registration_token_target is_ip) s t
      → StaysDead (get_registration_token s.tables id) (get_registration_token t.tables id)
  dead_for_ever s t id start used dead here =
      IsDead-StaysDead (get_registration_token s.tables id) dead
  dead_for_ever s t id start used dead (next {t = u} r st) =
      let first = get_registration_token s.tables id in
      let before = dead_for_ever s u id start used dead r in
      let grown = Reach-le (target is_ip) registration_token_stream_type id r in
      elim (Step-Moves u t id (Reach-trans (target is_ip) start r) st) [
        | inl (event, same, v, _, effect) ↦
            let before' =
              subst (λ i. StaysDead first (get_registration_token u.tables i)) (sym same) before in
            subst (λ i. StaysDead first (get_registration_token t.tables i)) same
              (Effect-StaysDead first u.tables t.tables event event.payload
                (omega (arith, v, grown, used)) before' effect)
        | inr (keep, _) ↦ subst (StaysDead first) (sym keep) before
      ]
