-- ===== src/Refresh/Tables.antt =====
-- The tables of refresh families (server/internal/store/migrations/014_refresh_families.sql) and the
-- statements on them (server/internal/store/generated/refresh_families.sql.go).
use power_manage.Shared.{
  ℕ, ◌+◌, Bool, true, false, ◌&&◌, not, List, [], ◌∷◌, Option, none, some, Result, ok, ◌>>=◌, ◌>>◌,
  reject_if, ltb, leb, ◌==◌, if◌then◌else◌, length, any,
}
use power_manage.Shared.Int.{ℤ}
use power_manage.Shared.Bytes.{Bytes, bytes_eq}
use power_manage.Ulid.{is_canonical_ulid}
use power_manage.Refresh.{
  RefreshError, constraint_violated, wrong_row_count, PersistedEvent, RefreshTokenRotatedPayload,
}

-- A row of `refresh_families`.
pub record RefreshFamily : Type 0 where
  pub family_id : Bytes
  pub subject : Bytes
  pub projection_version : ℕ
  pub active_token_hash : Bytes
  pub revoked : Bool
  pub updated_at : ℤ

-- A row of `refresh_tokens`.
pub record RefreshToken : Type 0 where
  pub token_hash : Bytes
  pub family_id : Bytes
  pub expires_at : ℤ
  pub superseded : Bool

pub record RefreshTables : Type 0 where
  pub families : List RefreshFamily
  pub tokens : List RefreshToken

-- `UPDATE … SET … WHERE …`: the rows after it, and the number of rows affected.
module _ {ℓ} {A : Type ℓ} where
  unfoldable pub update_where : (A → Bool) → (A → A) → List A → List A
  update_where p f [] = []
  update_where p f (x ∷ xs) = (if p x then f x else x) ∷ update_where p f xs

  unfoldable pub count_where : (A → Bool) → List A → ℕ
  count_where p [] = 0
  count_where p (x ∷ xs) = (if p x then 1 else 0) + count_where p xs

-- `GetRefreshFamily`, and the read of `refresh_tokens` by its primary key.
unfoldable pub get_refresh_family : List RefreshFamily → Bytes → Option RefreshFamily
get_refresh_family [] id = none
get_refresh_family (f ∷ fs) id =
    if bytes_eq f.family_id id then some f else get_refresh_family fs id

unfoldable pub get_refresh_token : List RefreshToken → Bytes → Option RefreshToken
get_refresh_token [] hash = none
get_refresh_token (t ∷ ts) hash =
    if bytes_eq t.token_hash hash then some t else get_refresh_token ts hash

-- `GetRefreshFamilyToken`: the token joined to its family.
unfoldable pub get_refresh_family_token :
    RefreshTables → Bytes → Option (RefreshToken × RefreshFamily)
get_refresh_family_token db hash = elim (get_refresh_token db.tokens hash) [
  | none ↦ none
  | some t ↦ elim (get_refresh_family db.families t.family_id) [
    | none ↦ none
    | some f ↦ some (t, f)
  ]
]

abbrev pub is_some {ℓ} : {A : Type ℓ} → Option A → Bool
is_some none = false
is_some (some _) = true

-- The CHECK constraints of `refresh_families`.
unfoldable pub valid_family_row : RefreshFamily → Bool
valid_family_row f =
    is_canonical_ulid f.family_id
    && leb 1 (length f.subject)
    && leb (length f.subject) 1024
    && ltb 0 f.projection_version
    && length f.active_token_hash == 32

unfoldable pub insert_refresh_family :
    RefreshTables → RefreshFamily → Result RefreshError RefreshTables
insert_refresh_family db f = do
  reject_if (is_some (get_refresh_family db.families f.family_id)) constraint_violated
  reject_if (any (λ g. bytes_eq g.active_token_hash f.active_token_hash) db.families)
      constraint_violated
  reject_if (not (valid_family_row f)) constraint_violated
  ok (record db { families = f ∷ db.families })

unfoldable pub insert_refresh_token :
    RefreshTables → RefreshToken → Result RefreshError RefreshTables
insert_refresh_token db t = do
  reject_if (is_some (get_refresh_token db.tokens t.token_hash)) constraint_violated
  reject_if (not (length t.token_hash == 32)) constraint_violated
  reject_if (not (is_some (get_refresh_family db.families t.family_id))) constraint_violated
  ok (record db { tokens = t ∷ db.tokens })

-- An UPDATE by a projector: it violates no constraint and affects one row, or the projection fails.
abbrev pub update_one {ℓ} :
    {A : Type ℓ} → (A → Bool) → (A → A) → (A → Bool) → List A → Result RefreshError (List A)
update_one p f allowed xs = do
  reject_if (any (λ x. p x && not (allowed (f x))) xs) constraint_violated
  reject_if (not (count_where p xs == 1)) wrong_row_count
  ok (update_where p f xs)

abbrev pub rotates : PersistedEvent → RefreshTokenRotatedPayload → RefreshFamily → Bool
rotates event payload f =
    bytes_eq f.family_id event.stream_id
    && ltb f.projection_version event.stream_version
    && bytes_eq f.active_token_hash payload.previous_token_hash
    && not f.revoked

abbrev pub rotated_to : PersistedEvent → RefreshTokenRotatedPayload → RefreshFamily → RefreshFamily
rotated_to event payload f = record f {
  projection_version = event.stream_version;
  active_token_hash = payload.next_token_hash;
  updated_at = event.created_at;
}

-- `ProjectRefreshFamilyRotation`; the next hash is unique among the other families' active hashes.
unfoldable pub project_refresh_family_rotation :
    RefreshTables → PersistedEvent → RefreshTokenRotatedPayload → Result RefreshError RefreshTables
project_refresh_family_rotation db event payload = do
  reject_if
      (any (rotates event payload) db.families
        && any
            (λ f.
              bytes_eq f.active_token_hash payload.next_token_hash && not (rotates event payload f))
            db.families)
      constraint_violated
  families ←
      update_one (rotates event payload) (rotated_to event payload) valid_family_row db.families
  ok (record db { families = families })

abbrev pub supersedes : Bytes → Bytes → RefreshToken → Bool
supersedes id hash t = bytes_eq t.family_id id && bytes_eq t.token_hash hash && not t.superseded

abbrev pub superseded_token : RefreshToken → RefreshToken
superseded_token t = record t { superseded = true }

unfoldable pub project_refresh_token_superseded :
    RefreshTables → Bytes → Bytes → Result RefreshError RefreshTables
project_refresh_token_superseded db id hash = do
  tokens ← update_one (supersedes id hash) superseded_token (λ _. true) db.tokens
  ok (record db { tokens = tokens })

abbrev pub revokes : PersistedEvent → RefreshFamily → Bool
revokes event f =
    bytes_eq f.family_id event.stream_id
    && ltb f.projection_version event.stream_version
    && not f.revoked

abbrev pub revoked_at : PersistedEvent → RefreshFamily → RefreshFamily
revoked_at event f = record f {
  projection_version = event.stream_version;
  revoked = true;
  updated_at = event.created_at;
}

unfoldable pub project_revocation_row :
    RefreshTables → PersistedEvent → Result RefreshError RefreshTables
project_revocation_row db event = do
  families ← update_one (revokes event) (revoked_at event) valid_family_row db.families
  ok (record db { families = families })
