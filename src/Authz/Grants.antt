-- ===== src/Authz/Grants.antt =====
-- server/internal/authz/grants.go: normalization of roles and grants, and `Resolve`.
pub mod Normal
pub mod Covers
use power_manage.Shared.{
  ℕ, ◌+◌, Bool, true, false, ◌&&◌, ◌||◌, not, List, [], ◌∷◌, ◌++◌, Option, none, some, Result, ok,
  err, ◌>>=◌, ◌>>◌, reject_if, ltb, leb, ◌==◌, if◌then◌else◌, length, all,
}
use power_manage.Shared.Bytes.{Bytes, bytes_eq, trim_space}
use power_manage.Shared.Order.{sort, sort_by, compact}
use power_manage.Ulid.{ulid_path_id, to_upper}
use power_manage.Authz.Catalog.{
  ScopeClass, confinable, global_only, other_class, CatalogEntry, lookup,
}

-- `other_principal` and `other_kind` are any other strings.
pub data PrincipalType : Type 0 where
  principal_user principal_user_group other_principal : PrincipalType

pub data ScopeKind : Type 0 where
  scope_global scope_device_groups scope_user_groups scope_self other_kind : ScopeKind

pub record Scope : Type 0 where
  pub kind : ScopeKind
  pub ids : List Bytes

pub record Role : Type 0 where
  pub id : Bytes
  pub name : Bytes
  pub permissions : List Bytes

pub record Grant : Type 0 where
  pub id : Bytes
  pub principal_type : PrincipalType
  pub principal_id : Bytes
  pub role_id : Bytes
  pub permissions : List Bytes
  pub scope : Scope

pub record GrantAccess : Type 0 where
  pub grant_id : Bytes
  pub active_permissions : List Bytes
  pub stripped_permissions : List Bytes

pub record Reach : Type 0 where
  pub global : Bool
  pub device_group_ids : List Bytes
  pub user_group_ids : List Bytes
  pub self : Bool

-- The permission map is an association list with at most one entry for a key.
pub record EffectiveAccess : Type 0 where
  pub grants : List GrantAccess
  pub permissions : List (Bytes × Reach)

pub data GrantError : Type 0 where
  bad_id bad_role_name empty_permissions unknown_permission duplicate_permission : GrantError
  bad_principal_type bad_principal_id bad_role_id scope_carries_ids : GrantError
  bad_scope_count bad_scope_kind bad_scope_id duplicate_scope_id : GrantError

unfoldable pub canonical_ulid : Bytes → GrantError → Result GrantError Bytes
canonical_ulid value e = elim (ulid_path_id value) [ ok _ ↦ ok (to_upper value) | err _ ↦ err e ]

-- The loop over the sorted permissions, with the one before.
unfoldable pub check_permissions : Option Bytes → List Bytes → Result GrantError (Unit {0})
check_permissions previous [] = ok tt
check_permissions previous (p ∷ ps) = do
  elim (lookup p) [ none ↦ err unknown_permission | some _ ↦ ok tt ]
  elim previous [ none ↦ ok tt | some q ↦ reject_if (bytes_eq p q) duplicate_permission ]
  check_permissions (some p) ps

unfoldable pub normalize_permissions : List Bytes → Result GrantError (List Bytes)
normalize_permissions permissions = do
  reject_if (length permissions == 0) empty_permissions
  check_permissions none (sort permissions)
  ok (sort permissions)

abbrev max_role_name_bytes : ℕ
max_role_name_bytes = 64

abbrev max_scope_ids : ℕ
max_scope_ids = 1000

abbrev role_name_byte : ℕ → Bool
role_name_byte c =
    leb b'a' c && leb c b'z' || leb b'0' c && leb c b'9' || c == b'-' || c == b'_' || c == b'.'

unfoldable pub valid_role_name : Bytes → Bool
valid_role_name [] = false
valid_role_name (c ∷ cs) =
    bytes_eq (c ∷ cs) (trim_space (c ∷ cs))
    && not (ltb max_role_name_bytes (length (c ∷ cs)))
    && (leb b'a' c && leb c b'z')
    && all role_name_byte cs

unfoldable pub normalize_role : Role → Result GrantError Role
normalize_role role = do
  id ← canonical_ulid role.id bad_id
  reject_if (not (valid_role_name role.name)) bad_role_name
  permissions ← normalize_permissions role.permissions
  ok (record { id = id; name = role.name; permissions = permissions })

unfoldable pub normalize_principal : PrincipalType → Bytes → Result GrantError Bytes
normalize_principal principal_user id = canonical_ulid id bad_principal_id
normalize_principal principal_user_group id = canonical_ulid id bad_principal_id
normalize_principal other_principal id = err bad_principal_type

-- The loop that canonicalizes the scope's IDs.
unfoldable pub canonical_ids : List Bytes → Result GrantError (List Bytes)
canonical_ids [] = ok []
canonical_ids (id ∷ ids) = do
  canonical ← canonical_ulid id bad_scope_id
  rest ← canonical_ids ids
  ok (canonical ∷ rest)

-- Neighbours that are equal.
unfoldable pub has_duplicate : List Bytes → Bool
has_duplicate [] = false
has_duplicate (x ∷ []) = false
has_duplicate (x ∷ y ∷ ys) = bytes_eq y x || has_duplicate (y ∷ ys)

unfoldable pub normalize_group_scope : Scope → Result GrantError Scope
normalize_group_scope scope = do
  reject_if (length scope.ids == 0 || ltb max_scope_ids (length scope.ids)) bad_scope_count
  ids ← canonical_ids scope.ids
  reject_if (has_duplicate (sort ids)) duplicate_scope_id
  ok (record { kind = scope.kind; ids = sort ids })

unfoldable pub normalize_plain_scope : Scope → Result GrantError Scope
normalize_plain_scope scope = do
  reject_if (not (length scope.ids == 0)) scope_carries_ids
  ok (record { kind = scope.kind; ids = [] })

normalize_scope_kind : ScopeKind → Scope → Result GrantError Scope
normalize_scope_kind scope_global scope = normalize_plain_scope scope
normalize_scope_kind scope_self scope = normalize_plain_scope scope
normalize_scope_kind scope_device_groups scope = normalize_group_scope scope
normalize_scope_kind scope_user_groups scope = normalize_group_scope scope
normalize_scope_kind other_kind scope = err bad_scope_kind

unfoldable pub normalize_scope : Scope → Result GrantError Scope
unfolding normalize_scope_kind
normalize_scope scope = normalize_scope_kind scope.kind scope

unfoldable pub normalize_grant : Grant → Result GrantError Grant
normalize_grant grant = do
  id ← canonical_ulid grant.id bad_id
  principal_id ← normalize_principal grant.principal_type grant.principal_id
  role_id ← canonical_ulid grant.role_id bad_role_id
  permissions ← normalize_permissions grant.permissions
  scope ← normalize_scope grant.scope
  ok (record {
    id = id;
    principal_type = grant.principal_type;
    principal_id = principal_id;
    role_id = role_id;
    permissions = permissions;
    scope = scope;
  })

-- The first loop of `Resolve`.
unfoldable pub normalize_all : List Grant → Result GrantError (List Grant)
normalize_all [] = ok []
normalize_all (g ∷ gs) = do n ← normalize_grant g; ns ← normalize_all gs; ok (n ∷ ns)

unfoldable pub union_strings : List Bytes → List Bytes → List Bytes
union_strings existing additions = compact (sort (existing ++ additions))

abbrev pub no_reach : Reach
no_reach = record { global = false; device_group_ids = []; user_group_ids = []; self = false }

-- A map read gives the zero value for a missing key.
unfoldable pub find_reach : List (Bytes × Reach) → Bytes → Option Reach
find_reach [] p = none
find_reach ((q, r) ∷ m) p = if bytes_eq q p then some r else find_reach m p

unfoldable pub set_reach : List (Bytes × Reach) → Bytes → Reach → List (Bytes × Reach)
set_reach [] p r = (p, r) ∷ []
set_reach ((q, s) ∷ m) p r = if bytes_eq q p then (q, r) ∷ m else (q, s) ∷ set_reach m p r

abbrev pub reach_or_zero : Option Reach → Reach
reach_or_zero none = no_reach
reach_or_zero (some r) = r

-- The inner switch of `Resolve`: what one scope adds to the reach of a permission.
unfoldable pub extend_reach : ScopeKind → List Bytes → Reach → Reach
extend_reach scope_global ids reach = record no_reach { global = true }
extend_reach scope_device_groups ids reach =
    if reach.global
    then reach
    else record reach { device_group_ids = union_strings reach.device_group_ids ids }
extend_reach scope_user_groups ids reach =
    if reach.global
    then reach
    else record reach { user_group_ids = union_strings reach.user_group_ids ids }
extend_reach scope_self ids reach = if reach.global then reach else record reach { self = true }
extend_reach other_kind ids reach = reach

abbrev pub is_global : ScopeKind → Bool
is_global scope_global = true
is_global _ = false

-- `entry.Class == GlobalOnly`, where a lookup that fails gives the zero entry.
abbrev pub is_global_only_entry : Option CatalogEntry → Bool
is_global_only_entry none = false
is_global_only_entry (some e) = elim e.class [ global_only ↦ true | _ ↦ false ]

unfoldable pub is_stripped : ScopeKind → Bytes → Bool
is_stripped kind p = not (is_global kind) && is_global_only_entry (lookup p)

-- The body of the loop over one grant's permissions.
unfoldable pub resolve_permission :
    Scope → Bytes → GrantAccess × List (Bytes × Reach) → GrantAccess × List (Bytes × Reach)
resolve_permission scope p (access, m) =
    if is_stripped scope.kind p
    then (record access { stripped_permissions = access.stripped_permissions ++ p ∷ [] }, m)
    else (
      record access { active_permissions = access.active_permissions ++ p ∷ [] },
      set_reach m p (extend_reach scope.kind scope.ids (reach_or_zero (find_reach m p))),
    )

unfoldable pub resolve_permissions :
    Scope → List Bytes → GrantAccess × List (Bytes × Reach) → GrantAccess × List (Bytes × Reach)
resolve_permissions scope [] state = state
resolve_permissions scope (p ∷ ps) state =
    resolve_permissions scope ps (resolve_permission scope p state)

abbrev pub fresh_access : Bytes → GrantAccess
fresh_access id = record { grant_id = id; active_permissions = []; stripped_permissions = [] }

-- The loop over the sorted grants.
unfoldable pub resolve_grants : List Grant → EffectiveAccess → EffectiveAccess
resolve_grants [] effective = effective
resolve_grants (g ∷ gs) effective =
    let state =
      resolve_permissions g.scope g.permissions (fresh_access g.id, effective.permissions) in
    resolve_grants gs (record { grants = effective.grants ++ state.0 ∷ []; permissions = state.1 })

abbrev pub grant_id_of : Grant → Bytes
grant_id_of g = g.id

unfoldable pub resolve : List Grant → Result GrantError EffectiveAccess
resolve grants = do
  normalized ← normalize_all grants
  ok (resolve_grants (sort_by grant_id_of normalized) (record { grants = []; permissions = [] }))
