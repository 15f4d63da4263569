-- ===== src/Refresh/Consistent.antt =====
-- What the refresh-family tables keep, over the projectors of
-- server/internal/store/refresh_families.go.
use power_manage.Shared.{◌≡◌, not, List, Option, none, some}
use power_manage.Shared.Bytes.{Bytes, bytes_eq}
use power_manage.Refresh.Tables.{
  RefreshTables, RefreshFamily, RefreshToken, get_refresh_family, get_refresh_token,
}

-- A token belongs to a family, and is superseded unless it is the family's active token.
unfoldable pub TokenFits : List RefreshFamily → Bytes → Option RefreshToken → Type 0
TokenFits fs hash none = Unit
TokenFits fs hash (some t) =
    (f : RefreshFamily) × (get_refresh_family fs t.family_id ≡ some f)
    × (t.superseded ≡ not (bytes_eq hash f.active_token_hash))

-- A family's active token is one of its tokens.
unfoldable pub FamilyFits : List RefreshToken → Bytes → Option RefreshFamily → Type 0
FamilyFits ts id none = Unit
FamilyFits ts id (some f) =
    (t : RefreshToken) × (get_refresh_token ts f.active_token_hash ≡ some t) × (t.family_id ≡ id)

unfoldable pub IsConsistent : RefreshTables → Type 0
IsConsistent db =
    ((hash : Bytes) → TokenFits db.families hash (get_refresh_token db.tokens hash))
    × ((id : Bytes) → FamilyFits db.tokens id (get_refresh_family db.families id))
