-- ===== src/Refresh/Statements.antt =====
-- What a statement on the tables of refresh families changed, when it succeeded.
use power_manage.Shared.{◌≡◌, ◌∷◌, none, arith, ok}
use power_manage.Shared.Bytes.{Bytes}
use power_manage.Refresh.{PersistedEvent, RefreshTokenRotatedPayload}
use power_manage.Refresh.Tables.{
  RefreshTables, RefreshFamily, RefreshToken, get_refresh_family, get_refresh_token, update_where,
  insert_refresh_family, insert_refresh_token, project_refresh_family_rotation,
  project_refresh_token_superseded, project_revocation_row, rotates, rotated_to, supersedes,
  superseded_token, revokes, revoked_at,
}

pub insert_refresh_family-eq-ok :
    (db : RefreshTables) (f : RefreshFamily) {db' : RefreshTables}
    → insert_refresh_family db f ≡ ok db'
    → (get_refresh_family db.families f.family_id ≡ none)
      × (db'.families ≡ f ∷ db.families)
      × (db'.tokens ≡ db.tokens)
unfolding insert_refresh_family
insert_refresh_family-eq-ok db f h = ground (arith, h)

pub insert_refresh_token-eq-ok :
    (db : RefreshTables) (t : RefreshToken) {db' : RefreshTables}
    → insert_refresh_token db t ≡ ok db'
    → (get_refresh_token db.tokens t.token_hash ≡ none)
      × (db'.families ≡ db.families)
      × (db'.tokens ≡ t ∷ db.tokens)
unfolding insert_refresh_token
insert_refresh_token-eq-ok db t h = ground (arith, h)

pub project_refresh_family_rotation-eq-ok :
    (db : RefreshTables) (event : PersistedEvent) (payload : RefreshTokenRotatedPayload)
    {db' : RefreshTables}
    → project_refresh_family_rotation db event payload ≡ ok db'
    → (db'.families ≡ update_where (rotates event payload) (rotated_to event payload) db.families)
      × (db'.tokens ≡ db.tokens)
unfolding project_refresh_family_rotation
project_refresh_family_rotation-eq-ok db event payload h = ground (arith, h)

pub project_refresh_token_superseded-eq-ok :
    (db : RefreshTables) (id hash : Bytes) {db' : RefreshTables}
    → project_refresh_token_superseded db id hash ≡ ok db'
    → (db'.families ≡ db.families)
      × (db'.tokens ≡ update_where (supersedes id hash) superseded_token db.tokens)
unfolding project_refresh_token_superseded
project_refresh_token_superseded-eq-ok db id hash h = ground (arith, h)

pub project_revocation_row-eq-ok :
    (db : RefreshTables) (event : PersistedEvent) {db' : RefreshTables}
    → project_revocation_row db event ≡ ok db'
    → (db'.families ≡ update_where (revokes event) (revoked_at event) db.families)
      × (db'.tokens ≡ db.tokens)
unfolding project_revocation_row
project_revocation_row-eq-ok db event h = ground (arith, h)
