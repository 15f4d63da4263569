-- ===== src/Refresh/Revoked.antt =====
-- Revocation of a refresh family (server/internal/store/refresh_families.go).
use power_manage.Shared.{
  ◌≡◌, ◌≢◌, ◌∙◌, refl, sym, ap, inl, inr, Bool, List, true, false, some, arith, ok, if-true,
  Bool-cases, Option-cases, Result-cases,
}
use power_manage.Shared.Bytes.{Bytes, bytes_eq, bytes_eq→eq, bytes_eq_refl}
use power_manage.Refresh.{
  PersistedEvent, RefreshPayload, family_started, token_rotated, family_revoked,
  RefreshFamilyStartedPayload, RefreshTokenRotatedPayload, RefreshFamilyRevokedPayload,
}
use power_manage.Refresh.Tables.{
  RefreshTables, RefreshFamily, RefreshToken, get_refresh_family, get_refresh_token,
  insert_refresh_family, project_revocation_row, get_refresh_family_token, revokes, revoked_at,
  update_where, rotates, rotated_to,
}
use power_manage.Refresh.Lookups.{changed, get_refresh_family-update_where, get_refresh_family_key}
use power_manage.Refresh.Statements.{
  project_revocation_row-eq-ok, insert_refresh_family-eq-ok, insert_refresh_token-eq-ok,
  project_refresh_family_rotation-eq-ok, project_refresh_token_superseded-eq-ok,
}
use power_manage.Refresh.Invariant.{rotation-steps}
use power_manage.Refresh.Project.{
  project_event, project_refresh_family_start, project_refresh_token_rotation,
  project_refresh_family_revocation, started_family, live_token,
}

-- No event of a revoked family is accepted.
refuses_revoked :
    (db : RefreshTables) (event : PersistedEvent) (f : RefreshFamily) {db' : RefreshTables}
    → get_refresh_family db.families event.stream_id ≡ some f
    → f.revoked ≡ true
    → project_event db event ≢ ok db'
unfolding project_event project_refresh_family_start project_refresh_token_rotation
    project_refresh_family_revocation insert_refresh_family
refuses_revoked db event f found r h = ground (arith, found, r, h)

-- An update of one family leaves the others.
update_where-other :
    (event : PersistedEvent) (p : RefreshFamily → Bool) (g : RefreshFamily → RefreshFamily)
    (fs : List RefreshFamily) (id : Bytes) {f : RefreshFamily}
    → ((x : RefreshFamily) → bytes_eq x.family_id event.stream_id ≡ false → p x ≡ false)
    → ((x : RefreshFamily) → (g x).family_id ≡ x.family_id)
    → bytes_eq id event.stream_id ≡ false
    → get_refresh_family fs id ≡ some f
    → get_refresh_family (update_where p g fs) id ≡ some f
update_where-other event p g fs id {f = f} only keeps other found =
    let key = get_refresh_family_key fs id {f = f} found in
    let missed : p f ≡ false = only f (ap (λ i. bytes_eq i event.stream_id) key ∙ other) in
    get_refresh_family-update_where p g keeps fs id
    ∙ ap (changed p g) found
    ∙ ground (arith, missed)

start-other :
    (db db' : RefreshTables) (event : PersistedEvent) (payload : RefreshFamilyStartedPayload)
    (id : Bytes) (f : RefreshFamily)
    → bytes_eq event.stream_id id ≡ false
    → get_refresh_family db.families id ≡ some f
    → project_refresh_family_start db event payload ≡ ok db'
    → get_refresh_family db'.families id ≡ some f
unfolding project_refresh_family_start get_refresh_family
start-other db db' event payload id f other found h =
    let family : RefreshFamily = started_family event payload in
    elim (Result-cases (insert_refresh_family db family)) [
      | inr (e, bad) ↦ absurd (ground (arith, bad, h))
      | inl (mid, first) ↦
          let (_, mid_fs, _) = insert_refresh_family-eq-ok db family first in
          let (_, fs_eq, _) =
            insert_refresh_token-eq-ok mid (live_token event payload.token_hash payload.expires_at)
              {db' = db'} (ground (arith, first, h)) in
          ap (λ fs. get_refresh_family fs id) (fs_eq ∙ mid_fs) ∙ ground (arith, other, found)
    ]

rotation-other :
    (db db' : RefreshTables) (event : PersistedEvent) (payload : RefreshTokenRotatedPayload)
    (id : Bytes) (f : RefreshFamily)
    → bytes_eq id event.stream_id ≡ false
    → get_refresh_family db.families id ≡ some f
    → project_refresh_token_rotation db event payload ≡ ok db'
    → get_refresh_family db'.families id ≡ some f
rotation-other db db' event payload id f other found h =
    let (g, mid, last, _, _, first, second, third) = rotation-steps db event payload h in
    let (mid_eq, _) = project_refresh_family_rotation-eq-ok db event payload first in
    let (last_eq, _) =
      project_refresh_token_superseded-eq-ok mid event.stream_id payload.previous_token_hash
        second in
    let (_, fs_eq, _) = insert_refresh_token-eq-ok last _ third in
    ap (λ fs. get_refresh_family fs id) (fs_eq ∙ last_eq ∙ mid_eq)
    ∙ update_where-other event (rotates event payload) (rotated_to event payload) db.families id
        (λ x miss. ground (arith, miss)) (λ _. refl) other found

revocation-other :
    (db db' : RefreshTables) (event : PersistedEvent) (payload : RefreshFamilyRevokedPayload)
    (id : Bytes) (f : RefreshFamily)
    → bytes_eq id event.stream_id ≡ false
    → get_refresh_family db.families id ≡ some f
    → project_refresh_family_revocation db event payload ≡ ok db'
    → get_refresh_family db'.families id ≡ some f
unfolding project_refresh_family_revocation
revocation-other db db' event payload id f other found h =
    let (fs_eq, _) = project_revocation_row-eq-ok db event {db' = db'} (ground (arith, h)) in
    ap (λ fs. get_refresh_family fs id) fs_eq
    ∙ update_where-other event (revokes event) (revoked_at event) db.families id
        (λ x miss. ground (arith, miss)) (λ _. refl) other found

project_event-other :
    (db db' : RefreshTables) (event : PersistedEvent) (payload : RefreshPayload) (id : Bytes)
    (f : RefreshFamily)
    → event.payload ≡ payload
    → bytes_eq id event.stream_id ≡ false
    → bytes_eq event.stream_id id ≡ false
    → get_refresh_family db.families id ≡ some f
    → project_event db event ≡ ok db'
    → get_refresh_family db'.families id ≡ some f
unfolding project_event
project_event-other db db' event (family_started p) id f e left right found h =
    start-other db db' event p id f right found (ground (arith, e, h))
project_event-other db db' event (token_rotated p) id f e left right found h =
    rotation-other db db' event p id f left found (ground (arith, e, h))
project_event-other db db' event (family_revoked p) id f e left right found h =
    revocation-other db db' event p id f left found (ground (arith, e, h))

-- A family once revoked stays revoked: an event that is accepted is not of its stream, whatever its type
-- and version, and leaves the family's row as it was.
pub revoked_is_final :
    (db db' : RefreshTables) (event : PersistedEvent) (id : Bytes) (f : RefreshFamily)
    → get_refresh_family db.families id ≡ some f
    → f.revoked ≡ true
    → project_event db event ≡ ok db'
    → (event.stream_id ≢ id) × (get_refresh_family db'.families id ≡ some f)
revoked_is_final db db' event id f found r h =
    let other : event.stream_id ≢ id = λ e.
      refuses_revoked db event f {db' = db'} (ap (get_refresh_family db.families) e ∙ found) r h in
    let right : bytes_eq event.stream_id id ≡ false =
      elim (Bool-cases (bytes_eq event.stream_id id)) [
        | inl b ↦ absurd (other (bytes_eq→eq event.stream_id id b))
        | inr b ↦ b
      ] in
    let left : bytes_eq id event.stream_id ≡ false =
      elim (Bool-cases (bytes_eq id event.stream_id)) [
        | inl b ↦ absurd (other (sym (bytes_eq→eq id event.stream_id b)))
        | inr b ↦ b
      ] in
    (other, project_event-other db db' event event.payload id f refl left right found h)

-- A revocation that is accepted names a superseded token of the family, and afterwards the family is
-- revoked, with the same active token.
pub revocation-Replayed :
    (db db' : RefreshTables) (event : PersistedEvent) (payload : RefreshFamilyRevokedPayload)
    → project_refresh_family_revocation db event payload ≡ ok db'
    → (t : RefreshToken) × (f : RefreshFamily) × (f' : RefreshFamily) × (get_refresh_family_token db
          payload.replayed_token_hash
        ≡ some (t, f))
      × (t.superseded ≡ true)
      × (t.family_id ≡ event.stream_id)
      × (f.revoked ≡ false)
      × (get_refresh_family_token db' payload.replayed_token_hash ≡ some (t, f'))
      × (f'.revoked ≡ true)
      × (f'.active_token_hash ≡ f.active_token_hash)
unfolding project_refresh_family_revocation get_refresh_family_token
revocation-Replayed db db' event payload h =
    elim (Option-cases (get_refresh_token db.tokens payload.replayed_token_hash)) [
      | inl e ↦ absurd (ground (arith, e, h))
      | inr (t, e) ↦ elim (Option-cases (get_refresh_family db.families t.family_id)) [
        | inl e' ↦ absurd (ground (arith, e, e', h))
        | inr (f, e') ↦
            let done : project_revocation_row db event ≡ ok db' = ground (arith, e, e', h) in
            let of : t.family_id ≡ event.stream_id =
              ground (arith, e, e', h, bytes_eq→eq t.family_id event.stream_id) in
            let live : f.revoked ≡ false = ground (arith, e, e', h, of) in
            let (fs_eq, ts_eq) = project_revocation_row-eq-ok db event done in
            let key : f.family_id ≡ t.family_id =
              get_refresh_family_key db.families t.family_id e' in
            let hit : revokes event f ≡ true =
              ground (arith, e, e', h, of, key, bytes_eq_refl event.stream_id) in
            let token_at : get_refresh_token db'.tokens payload.replayed_token_hash ≡ some t =
              ap (λ ts. get_refresh_token ts payload.replayed_token_hash) ts_eq ∙ e in
            let family_at : get_refresh_family db'.families t.family_id
                ≡ some (revoked_at event f) =
              ap (λ fs. get_refresh_family fs t.family_id) fs_eq
              ∙ get_refresh_family-update_where (revokes event) (revoked_at event) (λ _. refl)
                  db.families t.family_id
              ∙ ap (changed (revokes event) (revoked_at event)) e'
              ∙ ap some (if-true (revoked_at event f) f hit) in
            (
              t,
              f,
              revoked_at event f,
              ground (arith, e, e'),
              ground (arith, e, e', h),
              of,
              live,
              ground (arith, token_at, family_at),
              refl,
              refl,
            )
      ]
    ]
