-- ===== src/Refresh/Invariant.antt =====
-- The invariant of the refresh-family tables, over the projectors of
-- server/internal/store/refresh_families.go.
use power_manage.Shared.{
  ◌≡◌, ◌∙◌, refl, sym, ap, subst, inl, inr, Bool, true, List, [], ◌∷◌, Option, none, some, arith,
  ok, Option-cases, Result-cases,
}
use power_manage.Shared.Bytes.{Bytes, bytes_eq_refl}
use power_manage.Refresh.{
  PersistedEvent, RefreshTokenRotatedPayload, RefreshFamilyStartedPayload,
  RefreshFamilyRevokedPayload, family_started, token_rotated, family_revoked,
}
use power_manage.Refresh.Tables.{
  RefreshTables, RefreshFamily, RefreshToken, get_refresh_family, get_refresh_token, update_where,
  insert_refresh_family, insert_refresh_token, project_revocation_row,
  project_refresh_family_rotation, project_refresh_token_superseded, rotates, rotated_to,
  supersedes, superseded_token, revokes, revoked_at,
}
use power_manage.Refresh.Lookups.{
  changed, get_refresh_family-update_where, get_refresh_token-update_where, get_refresh_family_key,
}
use power_manage.Refresh.Consistent.{TokenFits, FamilyFits, IsConsistent}
use power_manage.Refresh.Statements.{
  insert_refresh_family-eq-ok, insert_refresh_token-eq-ok, project_refresh_family_rotation-eq-ok,
  project_refresh_token_superseded-eq-ok, project_revocation_row-eq-ok,
}
use power_manage.Refresh.Rotation.{families_after, tokens_after, TokenFits-after, FamilyFits-after}
use power_manage.Refresh.Project.{
  project_event, project_all, project_refresh_family_start, project_refresh_token_rotation,
  project_refresh_family_revocation, started_family, live_token, reset_refresh_families,
}
use power_manage.Refresh.Starting.{
  started-TokenFits, started-FamilyFits, revoked-TokenFits, revoked-FamilyFits,
}

with_rows :
    (db : RefreshTables) {fs : List RefreshFamily} {ts : List RefreshToken}
    → db.families ≡ fs
    → db.tokens ≡ ts
    → ((hash : Bytes) → TokenFits fs hash (get_refresh_token ts hash))
    → ((id : Bytes) → FamilyFits ts id (get_refresh_family fs id))
    → IsConsistent db
unfolding IsConsistent
with_rows db {fs = fs} {ts = ts} e₁ e₂ p q =
    (λ hash. rw (e₁, e₂) (p hash), λ id. rw (e₁, e₂) (q id))

start-IsConsistent :
    (db : RefreshTables) (event : PersistedEvent) (payload : RefreshFamilyStartedPayload)
    {db' : RefreshTables}
    → IsConsistent db
    → project_refresh_family_start db event payload ≡ ok db'
    → IsConsistent db'
unfolding project_refresh_family_start IsConsistent get_refresh_token get_refresh_family
start-IsConsistent db event payload {db' = db'} (p, q) h =
    let f : RefreshFamily = started_family event payload in
    let t : RefreshToken = live_token event payload.token_hash payload.expires_at in
    elim (Result-cases (insert_refresh_family db f)) [
      | inr (e, bad) ↦ ground (arith, bad, h)
      | inl (mid, first) ↦
          let second : insert_refresh_token mid t ≡ ok db' = ground (arith, first, h) in
          let (no_family, mid_fs, mid_ts) = insert_refresh_family-eq-ok db f first in
          let (no_token, fs_eq, ts_eq) = insert_refresh_token-eq-ok mid t second in
          let no_token' : get_refresh_token db.tokens t.token_hash ≡ none =
            subst (λ ts. get_refresh_token ts t.token_hash ≡ none) mid_ts no_token in
          with_rows db' {fs = f ∷ db.families} {ts = t ∷ db.tokens} (fs_eq ∙ mid_fs)
            (ts_eq ∙ ap (λ ts. t ∷ ts) mid_ts)
            (λ hash.
              started-TokenFits f t db.families db.tokens refl refl refl no_family no_token' hash
                (get_refresh_token db.tokens hash) (p hash))
            (λ id.
              started-FamilyFits f t db.families db.tokens refl refl refl no_family no_token' id
                (get_refresh_family db.families id) (q id))
    ]

revocation-IsConsistent :
    (db : RefreshTables) (event : PersistedEvent) (payload : RefreshFamilyRevokedPayload)
    {db' : RefreshTables}
    → IsConsistent db
    → project_refresh_family_revocation db event payload ≡ ok db'
    → IsConsistent db'
unfolding project_refresh_family_revocation IsConsistent
revocation-IsConsistent db event payload {db' = db'} (p, q) h =
    let done : project_revocation_row db event ≡ ok db' = ground (arith, h) in
    let (fs_eq, ts_eq) = project_revocation_row-eq-ok db event done in
    with_rows db' fs_eq ts_eq
      (λ hash. revoked-TokenFits event db.families hash (get_refresh_token db.tokens hash) (p hash))
      (λ id.
        subst (FamilyFits db.tokens id)
          (sym (
            get_refresh_family-update_where (revokes event) (revoked_at event) (λ _. refl)
              db.families id))
          (revoked-FamilyFits event db.tokens id (get_refresh_family db.families id) (q id)))

changed-none {ℓ} :
    {A : Type ℓ} (p : A → Bool) (f : A → A) (o : Option A) → changed p f o ≡ none → o ≡ none
changed-none p f none h = refl
changed-none p f (some x) h = cc

-- A rotation that succeeds passed its guards and its three statements.
pub rotation-steps :
    (db : RefreshTables) (event : PersistedEvent) (payload : RefreshTokenRotatedPayload)
    {db' : RefreshTables}
    → project_refresh_token_rotation db event payload ≡ ok db'
    → (f : RefreshFamily) × (mid : RefreshTables) × (last : RefreshTables) × (get_refresh_family
          db.families event.stream_id
        ≡ some f)
      × (rotates event payload f ≡ true)
      × (project_refresh_family_rotation db event payload ≡ ok mid)
      × (project_refresh_token_superseded mid event.stream_id payload.previous_token_hash ≡ ok last)
      × (insert_refresh_token last (live_token event payload.next_token_hash payload.expires_at)
          ≡ ok db')
unfolding project_refresh_token_rotation
rotation-steps db event payload {db' = db'} h =
    elim (Option-cases (get_refresh_family db.families event.stream_id)) [
      | inl e ↦ ground (arith, e, h)
      | inr (f, e) ↦ elim (Result-cases (project_refresh_family_rotation db event payload)) [
        | inr (x, bad) ↦ ground (arith, e, bad, h)
        | inl (mid, first) ↦
            elim (Result-cases
              (project_refresh_token_superseded mid event.stream_id payload.previous_token_hash)) [
                | inr (x, bad) ↦ ground (arith, e, first, bad, h)
                | inl (last, second) ↦ (
                  f,
                  mid,
                  last,
                  e,
                  ground (
                    arith,
                    e,
                    h,
                    get_refresh_family_key db.families event.stream_id e,
                    bytes_eq_refl event.stream_id,
                  ),
                  first,
                  second,
                  ground (arith, e, first, second, h),
                )
              ]
      ]
    ]

rotation-IsConsistent :
    (db : RefreshTables) (event : PersistedEvent) (payload : RefreshTokenRotatedPayload)
    {db' : RefreshTables}
    → IsConsistent db
    → project_refresh_token_rotation db event payload ≡ ok db'
    → IsConsistent db'
unfolding IsConsistent families_after tokens_after
rotation-IsConsistent db event payload {db' = db'} (p, q) h =
    let (f, mid, last, found, matches, first, second, third) = rotation-steps db event payload h in
    let t : RefreshToken = live_token event payload.next_token_hash payload.expires_at in
    let (mid_fs, mid_ts) = project_refresh_family_rotation-eq-ok db event payload first in
    let (last_fs, last_ts) =
      project_refresh_token_superseded-eq-ok mid event.stream_id payload.previous_token_hash
        second in
    let (no_token, fs_eq, ts_eq) = insert_refresh_token-eq-ok last t third in
    let sup : RefreshToken → Bool = supersedes event.stream_id payload.previous_token_hash in
    let rows : last.tokens ≡ update_where sup superseded_token db.tokens =
      last_ts ∙ ap (update_where sup superseded_token) mid_ts in
    let fresh : get_refresh_token db.tokens payload.next_token_hash ≡ none =
      changed-none sup superseded_token (get_refresh_token db.tokens payload.next_token_hash) (
        sym (
          get_refresh_token-update_where sup superseded_token (λ _. refl) db.tokens
            payload.next_token_hash)
        ∙ ap (λ ts. get_refresh_token ts payload.next_token_hash) (sym rows)
        ∙ no_token) in
    with_rows db' (fs_eq ∙ last_fs ∙ mid_fs) (ts_eq ∙ ap (λ ts. t ∷ ts) rows)
      (TokenFits-after db.families db.tokens event payload f t p q found matches fresh refl refl
        refl)
      (λ id.
        subst (FamilyFits (t ∷ update_where sup superseded_token db.tokens) id)
          (sym (
            get_refresh_family-update_where (rotates event payload) (rotated_to event payload)
              (λ _. refl) db.families id))
          (FamilyFits-after db.families db.tokens event payload f t p q found matches fresh refl
            refl refl id (get_refresh_family db.families id) refl (q id)))

-- An event that a projector accepts leaves consistent tables: every token belongs to a family and is
-- superseded exactly when it is not the family's active token, and every family's active token is one
-- of its own tokens.
pub project_event-IsConsistent :
    (db db' : RefreshTables) (event : PersistedEvent)
    → IsConsistent db
    → project_event db event ≡ ok db'
    → IsConsistent db'
unfolding project_event
project_event-IsConsistent db db' event c h =
    elim event.payload
        as (λ p.
          (elim p [
            | family_started x ↦ project_refresh_family_start db event x
            | token_rotated x ↦ project_refresh_token_rotation db event x
            | family_revoked x ↦ project_refresh_family_revocation db event x
          ])
            ≡ ok db'
          → IsConsistent db') [
            | family_started x ↦ λ k. start-IsConsistent db event x c k
            | token_rotated x ↦ λ k. rotation-IsConsistent db event x c k
            | family_revoked x ↦ λ k. revocation-IsConsistent db event x c k
          ]
      h

reset-IsConsistent : (db : RefreshTables) → IsConsistent (reset_refresh_families db)
unfolding reset_refresh_families IsConsistent get_refresh_token get_refresh_family TokenFits
    FamilyFits
reset-IsConsistent db = (λ _. tt, λ _. tt)

all-IsConsistent :
    (db db' : RefreshTables) (events : List PersistedEvent)
    → IsConsistent db
    → project_all db events ≡ ok db'
    → IsConsistent db'
unfolding project_all
all-IsConsistent db db' [] c h = subst IsConsistent (ground (arith, h)) c
all-IsConsistent db db' (e ∷ es) c h = elim (Result-cases (project_event db e)) [
  | inr (x, bad) ↦ ground (arith, bad, h)
  | inl (next, step) ↦
      all-IsConsistent next db' es (project_event-IsConsistent db next e c step)
        (ground (arith, step, h))
]

-- The tables that a rebuild makes from the events of the store, when every projector accepts its event,
-- are consistent.
pub rebuild-IsConsistent :
    (db db' : RefreshTables) (events : List PersistedEvent)
    → project_all (reset_refresh_families db) events ≡ ok db'
    → IsConsistent db'
rebuild-IsConsistent db db' events h =
    all-IsConsistent (reset_refresh_families db) db' events (reset-IsConsistent db) h
