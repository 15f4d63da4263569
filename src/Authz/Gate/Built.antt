-- ===== src/Authz/Gate/Built.antt =====
-- Every reach that `Resolve` computes passes the gate's own `validReach`
-- (server/internal/authz/grants.go and server/internal/auth/authorization.go).
use power_manage.Shared.{
  ◌<◌, ◌≡◌, refl, sym, ap, ◌∙◌, subst, ◌⊎◌, inl, inr, true, false, List, [], ◌∷◌, ◌++◌, Option,
  none, some, ok, arith, length, All, All-append, length-append, Bool-cases, Option-cases, if-true,
  if-false, >>=-eq-ok,
}
use power_manage.Shared.Bytes.{Bytes, bytes_eq, bytes_eq→eq, bytes_eq_refl}
use power_manage.Shared.Order.{
  sort, sort_by, lt_bytes, lt_bytes_asymm, lt_bytes_irrefl, All-sort_by,
}
use power_manage.Shared.Order.Sorted.{
  IsAscending, sort-IsSorted, All-sort, compact-IsAscending, All-compact, length-sort,
  length-compact_pos,
}
use power_manage.Ulid.Agreement.{is_canonical_ulid-ulid_path_id}
use power_manage.Authz.Catalog.{lookup}
use power_manage.Authz.Grants.{
  Grant, Scope, ScopeKind, scope_global, scope_device_groups, scope_user_groups, scope_self,
  other_kind, Reach, GrantAccess, EffectiveAccess, reach_or_zero, find_reach, extend_reach,
  union_strings, is_stripped, is_global_only_entry, resolve_permission, resolve_permissions,
  resolve_grants, resolve, normalize_all, fresh_access, grant_id_of,
}
use power_manage.Authz.Grants.Normal.{
  IsCanonical, IsKnown, IsNormal, IsNormalScopeOf, IsNormalScope, normalize_all-IsNormal,
}
use power_manage.Authz.Grants.Covers.{find_reach-set_reach}
use power_manage.Authz.Gate.{
  is_sorted, reach_ids_from, valid_reach_ids, valid_entry_reach, valid_reach,
}

-- The IDs of a reach: canonical and strictly ascending.
abbrev IsIdList : List Bytes → Type 0
IsIdList ids = IsAscending ids × All IsCanonical ids

-- A reach under construction.
record IsPartial (r : Reach) : Type 0 where
  absorbed :
      r.global ≡ true → (r.self ≡ false) × (r.device_group_ids ≡ []) × (r.user_group_ids ≡ [])
  devices : IsIdList r.device_group_ids
  users : IsIdList r.user_group_ids

record IsGood (p : Bytes) (r : Reach) : Type 0 where
  partial : IsPartial r
  known : IsKnown p
  allowed : r.global ≡ false → is_global_only_entry (lookup p) ≡ false
  something :
      r.global ≡ false
      → (r.self ≡ true) ⊎ ((0 < length r.device_group_ids) ⊎ (0 < length r.user_group_ids))

union_strings-IsIdList :
    (xs ys : List Bytes) → IsIdList xs → All IsCanonical ys → IsIdList (union_strings xs ys)
unfolding union_strings
union_strings-IsIdList xs ys h k = (
  compact-IsAscending (sort (xs ++ ys)) (sort-IsSorted (xs ++ ys)),
  All-compact IsCanonical (sort (xs ++ ys))
      (All-sort IsCanonical (xs ++ ys) (All-append IsCanonical xs ys h.1 k)),
)

union_strings-pos : (xs ys : List Bytes) → 0 < length ys → 0 < length (union_strings xs ys)
unfolding union_strings
union_strings-pos xs ys h =
    length-compact_pos (sort (xs ++ ys))
      (omega (arith, length-sort (xs ++ ys), length-append xs ys))

extend_reach-IsGood :
    (k : ScopeKind) (s : Scope) (p : Bytes) (r : Reach)
    → IsNormalScopeOf k s
    → IsKnown p
    → is_stripped k p ≡ false
    → IsPartial r
    → (r.global ≡ true → IsGood p r)
    → IsGood p (extend_reach k s.ids r)
unfolding extend_reach is_stripped
extend_reach-IsGood scope_global s p r n known kept h g = record {
  partial = record { absorbed = λ _. (refl, refl, refl); devices = (tt, tt); users = (tt, tt) };
  known = known;
  allowed = λ e. cc;
  something = λ e. cc;
}
extend_reach-IsGood scope_device_groups s p r n known kept h g = elim (Bool-cases r.global) [
  | inl e ↦ subst (IsGood p) (sym (if-true r _ e)) (g e)
  | inr e ↦ subst (IsGood p) (sym (if-false r _ e)) (record {
    partial = record {
      absorbed = λ c. cc;
      devices = union_strings-IsIdList r.device_group_ids s.ids h.devices n.2;
      users = h.users;
    };
    known = known;
    allowed = λ _. ground arith;
    something = λ _. inr (inl (union_strings-pos r.device_group_ids s.ids n.0));
  })
]
extend_reach-IsGood scope_user_groups s p r n known kept h g = elim (Bool-cases r.global) [
  | inl e ↦ subst (IsGood p) (sym (if-true r _ e)) (g e)
  | inr e ↦ subst (IsGood p) (sym (if-false r _ e)) (record {
    partial = record {
      absorbed = λ c. cc;
      devices = h.devices;
      users = union_strings-IsIdList r.user_group_ids s.ids h.users n.2;
    };
    known = known;
    allowed = λ _. ground arith;
    something = λ _. inr (inr (union_strings-pos r.user_group_ids s.ids n.0));
  })
]
extend_reach-IsGood scope_self s p r n known kept h g = elim (Bool-cases r.global) [
  | inl e ↦ subst (IsGood p) (sym (if-true r _ e)) (g e)
  | inr e ↦ subst (IsGood p) (sym (if-false r _ e)) (record {
    partial = record { absorbed = λ c. cc; devices = h.devices; users = h.users };
    known = known;
    allowed = λ _. ground arith;
    something = λ _. inl refl;
  })
]
extend_reach-IsGood other_kind s p r n known kept h g = absurd n

abbrev IsGoodMap : List (Bytes × Reach) → Type 0
IsGoodMap m = (p : Bytes) (r : Reach) → find_reach m p ≡ some r → IsGood p r

old-IsPartial :
    (p : Bytes) (o : Option Reach)
    → ((r : Reach) → o ≡ some r → IsGood p r)
    → IsPartial (reach_or_zero o)
old-IsPartial p none h = record { absorbed = λ c. cc; devices = (tt, tt); users = (tt, tt) }
old-IsPartial p (some r) h = (h r refl).partial

old-IsGood :
    (p : Bytes) (o : Option Reach)
    → ((r : Reach) → o ≡ some r → IsGood p r)
    → (reach_or_zero o).global ≡ true
    → IsGood p (reach_or_zero o)
old-IsGood p none h e = cc
old-IsGood p (some r) h e = h r refl

resolve_permission-IsGoodMap :
    (s : Scope) (p : Bytes) (st : GrantAccess × List (Bytes × Reach))
    → IsNormalScope s
    → IsKnown p
    → IsGoodMap st.1
    → IsGoodMap (resolve_permission s p st).1
unfolding resolve_permission
resolve_permission-IsGoodMap s p st n known h q r = elim (Bool-cases (is_stripped s.kind p)) [
  | inl e ↦ rw (e, resolve_permission) (h q r)
  | inr e ↦
      let old = find_reach st.1 p in
      let new = extend_reach s.kind s.ids (reach_or_zero old) in
      let good =
        extend_reach-IsGood s.kind s p (reach_or_zero old) n known e (old-IsPartial p old (h p))
          (old-IsGood p old (h p)) in
      rw (e, resolve_permission)
        (λ f. elim (Bool-cases (bytes_eq p q)) [
          | inl same ↦
              let here : new ≡ r = ground (arith, find_reach-set_reach st.1 p q new) in
              let at : p ≡ q = bytes_eq→eq p q same in
              subst (λ x. IsGood x r) at (subst (IsGood p) here good)
          | inr other ↦ h q r (ground (arith, find_reach-set_reach st.1 p q new))
        ])
]

resolve_permissions-IsGoodMap :
    (s : Scope) (ps : List Bytes) (st : GrantAccess × List (Bytes × Reach))
    → IsNormalScope s
    → All IsKnown ps
    → IsGoodMap st.1
    → IsGoodMap (resolve_permissions s ps st).1
unfolding resolve_permissions
resolve_permissions-IsGoodMap s [] st n known h = h
resolve_permissions-IsGoodMap s (p ∷ ps) st n known h =
    resolve_permissions-IsGoodMap s ps (resolve_permission s p st) n known.1
      (resolve_permission-IsGoodMap s p st n known.0 h)

resolve_grants-IsGoodMap :
    (gs : List Grant) (eff : EffectiveAccess)
    → All IsNormal gs
    → IsGoodMap eff.permissions
    → IsGoodMap (resolve_grants gs eff).permissions
unfolding resolve_grants
resolve_grants-IsGoodMap [] eff n h = h
resolve_grants-IsGoodMap (g ∷ gs) eff n h =
    let st = resolve_permissions g.scope g.permissions (fresh_access g.id, eff.permissions) in
    resolve_grants-IsGoodMap gs (record { grants = eff.grants ++ st.0 ∷ []; permissions = st.1 })
      n.1
      (resolve_permissions-IsGoodMap g.scope g.permissions (fresh_access g.id, eff.permissions)
        n.0.scope n.0.known h)

IsAscending-is_sorted : (ids : List Bytes) → IsAscending ids → is_sorted ids ≡ true
unfolding is_sorted
IsAscending-is_sorted [] h = refl
IsAscending-is_sorted (x ∷ []) h = refl
IsAscending-is_sorted (x ∷ y ∷ ys) h =
    ground (arith, lt_bytes_asymm x y h.0, IsAscending-is_sorted (y ∷ ys) h.1)

-- The ID before, if there is one, lies below the list.
abbrev Follows : Option Bytes → List Bytes → Type 0
Follows previous [] = Unit
Follows none (x ∷ xs) = Unit
Follows (some p) (x ∷ xs) = lt_bytes p x ≡ true

Follows-some : (x : Bytes) (xs : List Bytes) → IsAscending (x ∷ xs) → Follows (some x) xs
Follows-some x [] h = tt
Follows-some x (y ∷ ys) h = h.0

IsIdList-reach_ids_from :
    (previous : Option Bytes) (ids : List Bytes)
    → Follows previous ids
    → IsIdList ids
    → reach_ids_from previous ids ≡ true
unfolding reach_ids_from
IsIdList-reach_ids_from previous [] f h = refl
IsIdList-reach_ids_from none (x ∷ xs) f h = ground (
  arith,
  (is_canonical_ulid-ulid_path_id x).1.0 h.1.0,
  bytes_eq_refl x,
  IsIdList-reach_ids_from (some x) xs (Follows-some x xs h.0) (h.0.1, h.1.1),
)
IsIdList-reach_ids_from (some p) (x ∷ xs) f h = ground (
  arith,
  (is_canonical_ulid-ulid_path_id x).1.0 h.1.0,
  bytes_eq_refl x,
  bytes_eq→eq x p,
  lt_bytes_irrefl p,
  IsIdList-reach_ids_from (some x) xs (Follows-some x xs h.0) (h.0.1, h.1.1),
)

no_previous : (ids : List Bytes) → Follows none ids
no_previous [] = tt
no_previous (x ∷ xs) = tt

IsIdList-valid_reach_ids : (ids : List Bytes) → IsIdList ids → valid_reach_ids ids ≡ true
unfolding valid_reach_ids
IsIdList-valid_reach_ids ids h =
    ground
      (arith, IsAscending-is_sorted ids h.0, IsIdList-reach_ids_from none ids (no_previous ids) h)

IsGood-valid_reach : (p : Bytes) (r : Reach) → IsGood p r → valid_reach p r ≡ true
unfolding valid_reach valid_entry_reach
IsGood-valid_reach p r h = elim (Option-cases (lookup p)) [
  | inl e ↦ absurd (h.known e)
  | inr (entry, e) ↦ ground (
    arith,
    e,
    IsIdList-valid_reach_ids r.device_group_ids h.partial.devices,
    IsIdList-valid_reach_ids r.user_group_ids h.partial.users,
  )
]

-- Every reach in the access that `Resolve` returns passes `validReach`: a global reach carries nothing
-- else, a global-only permission has a global reach, and any other reach is not empty and lists
-- canonical IDs in ascending order without repetition.
pub valid_reach-resolve :
    (gs : List Grant) (eff : EffectiveAccess) (p : Bytes) (r : Reach)
    → resolve gs ≡ ok eff
    → find_reach eff.permissions p ≡ some r
    → valid_reach p r ≡ true
unfolding resolve find_reach
valid_reach-resolve gs eff p r h f =
    let (ns, hn, last) = >>=-eq-ok (normalize_all gs) _ h in
    let start : EffectiveAccess = record { grants = []; permissions = [] } in
    let e : resolve_grants (sort_by grant_id_of ns) start ≡ eff = ground arith in
    let normal = All-sort_by grant_id_of IsNormal ns (normalize_all-IsNormal gs hn) in
    let good =
      resolve_grants-IsGoodMap (sort_by grant_id_of ns) start normal
        (λ q s k. absurd (ground arith)) in
    IsGood-valid_reach p r
      (good p r (ap (λ (x : EffectiveAccess). find_reach x.permissions p) e ∙ f))
