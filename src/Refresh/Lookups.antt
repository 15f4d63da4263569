-- ===== src/Refresh/Lookups.antt =====
-- Reads by key after the statements on the tables of refresh families.
use power_manage.Shared.{◌≡◌, refl, Bool, List, [], ◌∷◌, Option, none, some, arith, if◌then◌else◌}
use power_manage.Shared.Bytes.{Bytes, bytes_eq→eq}
use power_manage.Refresh.Tables.{
  RefreshFamily, RefreshToken, get_refresh_family, get_refresh_token, update_where,
}

abbrev pub changed {ℓ} : {A : Type ℓ} → (A → Bool) → (A → A) → Option A → Option A
changed p f none = none
changed p f (some x) = some (if p x then f x else x)

-- An update that keeps the keys reads as the update of what was read.
pub get_refresh_family-update_where :
    (p : RefreshFamily → Bool) (g : RefreshFamily → RefreshFamily)
    → ((f : RefreshFamily) → (g f).family_id ≡ f.family_id)
    → (fs : List RefreshFamily) (id : Bytes)
    → get_refresh_family (update_where p g fs) id ≡ changed p g (get_refresh_family fs id)
unfolding get_refresh_family update_where
get_refresh_family-update_where p g keeps [] id = refl
get_refresh_family-update_where p g keeps (f ∷ fs) id =
    ground (arith, keeps f, get_refresh_family-update_where p g keeps fs id)

pub get_refresh_token-update_where :
    (p : RefreshToken → Bool) (g : RefreshToken → RefreshToken)
    → ((t : RefreshToken) → (g t).token_hash ≡ t.token_hash)
    → (ts : List RefreshToken) (hash : Bytes)
    → get_refresh_token (update_where p g ts) hash ≡ changed p g (get_refresh_token ts hash)
unfolding get_refresh_token update_where
get_refresh_token-update_where p g keeps [] hash = refl
get_refresh_token-update_where p g keeps (t ∷ ts) hash =
    ground (arith, keeps t, get_refresh_token-update_where p g keeps ts hash)

-- A row that is read has the key it was read by.
pub get_refresh_family_key :
    (fs : List RefreshFamily) (id : Bytes) {f : RefreshFamily}
    → get_refresh_family fs id ≡ some f
    → f.family_id ≡ id
unfolding get_refresh_family
get_refresh_family_key [] id e = cc
get_refresh_family_key (g ∷ fs) id {f = f} e =
    ground (arith, bytes_eq→eq g.family_id id, get_refresh_family_key fs id {f = f})

pub get_refresh_token_key :
    (ts : List RefreshToken) (hash : Bytes) {t : RefreshToken}
    → get_refresh_token ts hash ≡ some t
    → t.token_hash ≡ hash
unfolding get_refresh_token
get_refresh_token_key [] hash e = cc
get_refresh_token_key (u ∷ ts) hash {t = t} e =
    ground (arith, bytes_eq→eq u.token_hash hash, get_refresh_token_key ts hash {t = t})
