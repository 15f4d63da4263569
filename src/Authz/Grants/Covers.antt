-- ===== src/Authz/Grants/Covers.antt =====
-- `Resolve` of server/internal/authz/grants.go against the union of the grants, independent of order.
use power_manage.Shared.{
  ◌≡◌, refl, Bool, true, false, ◌&&◌, ◌||◌, not, List, [], ◌∷◌, some, arith, any, if◌then◌else◌,
}
use power_manage.Shared.Bytes.{Bytes, bytes_eq, bytes_eq→eq, bytes_eq_refl}
use power_manage.Authz.Grants.{
  Grant, ScopeKind, scope_global, scope_device_groups, scope_user_groups, scope_self, Reach,
  reach_or_zero, find_reach, set_reach, is_stripped,
}

-- What an operation may be about: a device group, a user group, or the caller's own account.
pub data Resource : Type 0 where
  device_group user_group : Bytes → Resource
  own_account : Resource

abbrev contains : List Bytes → Bytes → Bool
contains ids id = any (bytes_eq id) ids

-- The resources that a reach, or a scope, covers.
unfoldable pub reach_covers : Reach → Resource → Bool
reach_covers r (device_group id) = r.global || contains r.device_group_ids id
reach_covers r (user_group id) = r.global || contains r.user_group_ids id
reach_covers r own_account = r.global || r.self

unfoldable pub scope_covers : ScopeKind → List Bytes → Resource → Bool
scope_covers scope_global ids q = true
scope_covers scope_device_groups ids (device_group id) = contains ids id
scope_covers scope_user_groups ids (user_group id) = contains ids id
scope_covers scope_self ids own_account = true
scope_covers _ _ _ = false

pub find_reach-set_reach :
    (m : List (Bytes × Reach)) (p q : Bytes) (r : Reach)
    → find_reach (set_reach m p r) q ≡ (if bytes_eq p q then some r else find_reach m q)
unfolding find_reach set_reach
find_reach-set_reach [] p q r = refl
find_reach-set_reach ((j, s) ∷ m) p q r = ground (
  arith,
  bytes_eq→eq j p,
  bytes_eq→eq j q,
  bytes_eq→eq p q,
  bytes_eq_refl q,
  find_reach-set_reach m p q r,
)

-- What the map permits: the named permission on a resource.
abbrev pub permits : List (Bytes × Reach) → Bytes → Resource → Bool
permits m p q = reach_covers (reach_or_zero (find_reach m p)) q

-- A grant gives a permission that it names, unless its scope strips it.
unfoldable pub gives : ScopeKind → List Bytes → Bytes → Bool
gives k ps p = contains ps p && not (is_stripped k p)

gives-cons :
    (k : ScopeKind) (x : Bytes) (ps : List Bytes) (p : Bytes)
    → gives k (x ∷ ps) p ≡ (bytes_eq p x && not (is_stripped k x) || gives k ps p)
unfolding gives
gives-cons k x ps p = ground (arith, bytes_eq→eq p x)

-- A grant contributes a permission on a resource.
abbrev pub contributes : Bytes → Resource → Grant → Bool
contributes p q g = gives g.scope.kind g.permissions p && scope_covers g.scope.kind g.scope.ids q
