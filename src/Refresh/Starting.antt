-- ===== src/Refresh/Starting.antt =====
-- The rows before and after a start and a revocation (server/internal/store/refresh_families.go
-- `projectRefreshFamilyStart`, `projectRefreshFamilyRevocation`).
use power_manage.Shared.{
  ◌≡◌, ◌∙◌, refl, ap, false, List, ◌∷◌, Option, none, some, arith, if◌then◌else◌, if-cases,
}
use power_manage.Shared.Bytes.{Bytes, bytes_eq, bytes_eq→eq, bytes_eq_refl}
use power_manage.Refresh.{PersistedEvent}
use power_manage.Refresh.Tables.{
  RefreshFamily, RefreshToken, get_refresh_family, get_refresh_token, update_where, revokes,
  revoked_at,
}
use power_manage.Refresh.Lookups.{changed, get_refresh_family-update_where}
use power_manage.Refresh.Consistent.{TokenFits, FamilyFits}

-- Start: a family and its first token, both with fresh keys.
module _ (f : RefreshFamily) (t : RefreshToken) (fs : List RefreshFamily) (ts : List RefreshToken)
    (hash_of : f.active_token_hash ≡ t.token_hash) (id_of : f.family_id ≡ t.family_id)
    (live : t.superseded ≡ false) (no_family : get_refresh_family fs f.family_id ≡ none)
    (no_token : get_refresh_token ts t.token_hash ≡ none) where
  old_token_stays :
      (hash : Bytes) (o : Option RefreshToken) → TokenFits fs hash o → TokenFits (f ∷ fs) hash o
  unfolding TokenFits get_refresh_family
  old_token_stays hash none fit = tt
  old_token_stays hash (some u) (g, at, l) =
      (g, ground (arith, at, no_family, bytes_eq→eq f.family_id u.family_id), l)

  old_family_stays :
      (id : Bytes) (o : Option RefreshFamily) → FamilyFits ts id o → FamilyFits (t ∷ ts) id o
  unfolding FamilyFits get_refresh_token
  old_family_stays id none fit = tt
  old_family_stays id (some g) (u, at, of) =
      (u, ground (arith, at, no_token, bytes_eq→eq t.token_hash g.active_token_hash), of)

  pub started-TokenFits :
      (hash : Bytes) (o : Option RefreshToken)
      → TokenFits fs hash o
      → TokenFits (f ∷ fs) hash (if bytes_eq t.token_hash hash then some t else o)
  unfolding TokenFits get_refresh_family
  started-TokenFits hash o fit =
      if-cases (TokenFits (f ∷ fs) hash) (bytes_eq t.token_hash hash)
        (λ b. (
          f,
          ground (arith, id_of, bytes_eq_refl t.family_id),
          ground (arith, b, live, hash_of, bytes_eq→eq t.token_hash hash, bytes_eq_refl hash),
        ))
        (λ _. old_token_stays hash o fit)

  pub started-FamilyFits :
      (id : Bytes) (o : Option RefreshFamily)
      → FamilyFits ts id o
      → FamilyFits (t ∷ ts) id (if bytes_eq f.family_id id then some f else o)
  unfolding FamilyFits get_refresh_token
  started-FamilyFits id o fit =
      if-cases (FamilyFits (t ∷ ts) id) (bytes_eq f.family_id id)
        (λ b. (
          t,
          ground (arith, hash_of, bytes_eq_refl t.token_hash),
          ground (arith, b, id_of, bytes_eq→eq f.family_id id),
        ))
        (λ _. old_family_stays id o fit)

module _ (event : PersistedEvent) where
  pub revoked-TokenFits :
      (fs : List RefreshFamily) (hash : Bytes) (o : Option RefreshToken)
      → TokenFits fs hash o
      → TokenFits (update_where (revokes event) (revoked_at event) fs) hash o
  unfolding TokenFits
  revoked-TokenFits fs hash none fit = tt
  revoked-TokenFits fs hash (some t) (f, at, live) = (
    (if revokes event f then revoked_at event f else f),
    get_refresh_family-update_where (revokes event) (revoked_at event) (λ _. refl) fs t.family_id
        ∙ ap (changed (revokes event) (revoked_at event)) at,
    ground (arith, live),
  )

  pub revoked-FamilyFits :
      (ts : List RefreshToken) (id : Bytes) (o : Option RefreshFamily)
      → FamilyFits ts id o
      → FamilyFits ts id (changed (revokes event) (revoked_at event) o)
  unfolding FamilyFits
  revoked-FamilyFits ts id none fit = tt
  revoked-FamilyFits ts id (some f) (t, at, of) = (
    t,
    if-cases (λ (g : RefreshFamily). get_refresh_token ts g.active_token_hash ≡ some t)
        (revokes event f) (λ _. at) (λ _. at),
    of,
  )
