-- ===== src/Authz/Grants/Normal.antt =====
-- What normalization establishes of a grant (server/internal/authz/grants.go).
use power_manage.Shared.{
  ◌<◌, ◌≡◌, ◌≢◌, refl, sym, ap, ◌∙◌, suc, subst, inl, inr, true, false, List, [], ◌∷◌, Option, none,
  some, ok, ◌>>=◌, arith, length, All, Result-cases, >>=-eq-ok,
}
use power_manage.Shared.Bytes.{Bytes}
use power_manage.Shared.Order.{lt_bytes_total, sort}
use power_manage.Shared.Order.Sorted.{IsSorted, IsAscending, sort-IsSorted, All-sort, length-sort}
use power_manage.Ulid.{is_canonical_ulid}
use power_manage.Ulid.Agreement.{is_canonical_ulid-ulid_path_id}
use power_manage.Authz.Catalog.{lookup}
use power_manage.Authz.Grants.{
  Grant, Scope, ScopeKind, scope_global, scope_device_groups, scope_user_groups, scope_self,
  other_kind, PrincipalType, principal_user, principal_user_group, other_principal, GrantError,
  bad_scope_id, bad_id, bad_role_id, bad_principal_id, canonical_ulid, normalize_principal,
  canonical_ids, has_duplicate, check_permissions, normalize_permissions, normalize_group_scope,
  normalize_plain_scope, normalize_scope, normalize_grant, normalize_all,
}

abbrev pub IsCanonical : Bytes → Type 0
IsCanonical id = is_canonical_ulid id ≡ true

-- A permission that the catalog knows.
abbrev pub IsKnown : Bytes → Type 0
IsKnown p = lookup p ≢ none

-- A scope as `NormalizeScope` leaves it.
abbrev pub IsGroupScope : Scope → Type 0
IsGroupScope s = (0 < length s.ids) × IsAscending s.ids × All IsCanonical s.ids

abbrev pub IsNormalScopeOf : ScopeKind → Scope → Type 0
IsNormalScopeOf scope_global s = s.ids ≡ []
IsNormalScopeOf scope_self s = s.ids ≡ []
IsNormalScopeOf scope_device_groups s = IsGroupScope s
IsNormalScopeOf scope_user_groups s = IsGroupScope s
IsNormalScopeOf other_kind s = ⊥

abbrev pub IsNormalScope : Scope → Type 0
IsNormalScope s = IsNormalScopeOf s.kind s

pub record IsNormal (g : Grant) : Type 0 where
  pub id : IsCanonical g.id
  pub principal : IsCanonical g.principal_id
  pub principal_kind : g.principal_type ≢ other_principal
  pub role : IsCanonical g.role_id
  pub known : All IsKnown g.permissions
  pub distinct : IsAscending g.permissions
  pub granted : 0 < length g.permissions
  pub scope : IsNormalScope g.scope

canonical_ulid-IsCanonical :
    (value : Bytes) (e : GrantError) {id : Bytes} → canonical_ulid value e ≡ ok id → IsCanonical id
unfolding canonical_ulid
canonical_ulid-IsCanonical value e h = ground (arith, (is_canonical_ulid-ulid_path_id value).0.0)

normalize_principal-IsCanonical :
    (kind : PrincipalType) (value : Bytes) {id : Bytes}
    → normalize_principal kind value ≡ ok id
    → IsCanonical id × (kind ≢ other_principal)
unfolding normalize_principal
normalize_principal-IsCanonical principal_user value h =
    (canonical_ulid-IsCanonical value bad_principal_id h, λ e. ground arith)
normalize_principal-IsCanonical principal_user_group value h =
    (canonical_ulid-IsCanonical value bad_principal_id h, λ e. ground arith)
normalize_principal-IsCanonical other_principal value h = absurd (ground arith)

canonical_ids-IsCanonical :
    (ids : List Bytes) {canonical : List Bytes}
    → canonical_ids ids ≡ ok canonical
    → All IsCanonical canonical × (length canonical ≡ length ids)
unfolding canonical_ids
canonical_ids-IsCanonical [] {canonical} h = let e : [] ≡ canonical = cc in rw (← e) (tt, refl)
canonical_ids-IsCanonical (id ∷ ids) {canonical} h =
    let (c, hc, k) =
      >>=-eq-ok (canonical_ulid id bad_scope_id) (λ c. canonical_ids ids >>= λ rest. ok (c ∷ rest))
        h in
    let (rest, hr, last) = >>=-eq-ok (canonical_ids ids) (λ rest. ok (c ∷ rest)) k in
    let e : c ∷ rest ≡ canonical = cc (last) in
    let (all_rest, size) = canonical_ids-IsCanonical ids hr in
    rw (← e) ((canonical_ulid-IsCanonical id bad_scope_id hc, all_rest), ap suc size)

-- A sorted list without equal neighbours is strictly ascending.
distinct-IsAscending : (xs : List Bytes) → IsSorted xs → has_duplicate xs ≡ false → IsAscending xs
unfolding has_duplicate
distinct-IsAscending [] s h = tt
distinct-IsAscending (x ∷ []) s h = (tt, tt)
distinct-IsAscending (x ∷ y ∷ ys) s h =
    (lt_bytes_total y x s.0 (ground arith), distinct-IsAscending (y ∷ ys) s.1 (ground arith))

check_permissions-IsKnown :
    (previous : Option Bytes) (ps : List Bytes)
    → check_permissions previous ps ≡ ok tt
    → All IsKnown ps
unfolding check_permissions
check_permissions-IsKnown previous [] h = tt
check_permissions-IsKnown previous (p ∷ ps) h =
    ((λ e. ground arith), check_permissions-IsKnown (some p) ps (ground arith))

check_permissions-distinct :
    (previous : Option Bytes) (ps : List Bytes)
    → check_permissions previous ps ≡ ok tt
    → has_duplicate ps ≡ false
unfolding check_permissions has_duplicate
check_permissions-distinct previous [] h = refl
check_permissions-distinct previous (p ∷ []) h = refl
check_permissions-distinct previous (p ∷ q ∷ qs) h =
    ground (arith, check_permissions-distinct (some p) (q ∷ qs))

normalize_permissions-IsKnown :
    (ps : List Bytes) {qs : List Bytes}
    → normalize_permissions ps ≡ ok qs
    → All IsKnown qs × IsAscending qs × (0 < length qs)
unfolding normalize_permissions
normalize_permissions-IsKnown ps {qs} h =
    let passed : check_permissions none (sort ps) ≡ ok tt = ground arith in
    let e : sort ps ≡ qs = ground arith in
    rw (← e) (
      check_permissions-IsKnown none (sort ps) passed,
      distinct-IsAscending (sort ps) (sort-IsSorted ps)
          (check_permissions-distinct none (sort ps) passed),
      ground (arith, length-sort ps),
    )

normalize_group_scope-normal :
    (s : Scope) {t : Scope} → normalize_group_scope s ≡ ok t → (t.kind ≡ s.kind) × IsGroupScope t
unfolding normalize_group_scope
normalize_group_scope-normal s {t} h = elim (Result-cases (canonical_ids s.ids)) [
  | inr (e, he) ↦ ground arith
  | inl (ids, hids) ↦
      let e : record { kind = s.kind; ids = sort ids } ≡ t = ground arith in
      let (canonical, size) = canonical_ids-IsCanonical s.ids hids in
      rw (← e) (
        refl,
        (
          ground (arith, size, length-sort ids),
          distinct-IsAscending (sort ids) (sort-IsSorted ids) (ground arith),
          All-sort IsCanonical ids canonical,
        ),
      )
]

normalize_plain_scope-normal :
    (s : Scope) {t : Scope} → normalize_plain_scope s ≡ ok t → (t.kind ≡ s.kind) × (t.ids ≡ [])
unfolding normalize_plain_scope
normalize_plain_scope-normal s h = ground arith

normalize_scope-kind :
    (k : ScopeKind) (s : Scope) {t : Scope}
    → s.kind ≡ k
    → normalize_scope s ≡ ok t
    → IsNormalScope t × (t.kind ≡ s.kind)
unfolding normalize_scope
normalize_scope-kind scope_global s {t} e h =
    let (k, i) = normalize_plain_scope-normal s (ground arith) in
    (subst (λ j. IsNormalScopeOf j t) (sym (k ∙ e)) i, k)
normalize_scope-kind scope_self s {t} e h =
    let (k, i) = normalize_plain_scope-normal s (ground arith) in
    (subst (λ j. IsNormalScopeOf j t) (sym (k ∙ e)) i, k)
normalize_scope-kind scope_device_groups s {t} e h =
    let (k, i) = normalize_group_scope-normal s (ground arith) in
    (subst (λ j. IsNormalScopeOf j t) (sym (k ∙ e)) i, k)
normalize_scope-kind scope_user_groups s {t} e h =
    let (k, i) = normalize_group_scope-normal s (ground arith) in
    (subst (λ j. IsNormalScopeOf j t) (sym (k ∙ e)) i, k)
normalize_scope-kind other_kind s e h = absurd (ground arith)

normalize_grant-IsNormal : (g : Grant) {n : Grant} → normalize_grant g ≡ ok n → IsNormal n
unfolding normalize_grant
normalize_grant-IsNormal g {n} h =
    let (id, hid, h₁) = >>=-eq-ok (canonical_ulid g.id bad_id) _ h in
    let (principal, hp, h₂) =
      >>=-eq-ok (normalize_principal g.principal_type g.principal_id) _ h₁ in
    let (role, hr, h₃) = >>=-eq-ok (canonical_ulid g.role_id bad_role_id) _ h₂ in
    let (permissions, hps, h₄) = >>=-eq-ok (normalize_permissions g.permissions) _ h₃ in
    let (scope, hs, last) = >>=-eq-ok (normalize_scope g.scope) _ h₄ in
    let (of_principal, of_kind) =
      normalize_principal-IsCanonical g.principal_type g.principal_id hp in
    let (known, distinct, granted) = normalize_permissions-IsKnown g.permissions hps in
    let e : record {
      id = id;
      principal_type = g.principal_type;
      principal_id = principal;
      role_id = role;
      permissions = permissions;
      scope = scope;
    }
        ≡ n =
      ground arith in
    rw (← e) (record {
      id = canonical_ulid-IsCanonical g.id bad_id hid;
      principal = of_principal;
      principal_kind = of_kind;
      role = canonical_ulid-IsCanonical g.role_id bad_role_id hr;
      known = known;
      distinct = distinct;
      granted = granted;
      scope = (normalize_scope-kind g.scope.kind g.scope refl hs).0;
    })

-- Every grant of a list that normalizes is normal afterwards: the IDs of the grant, of its principal and
-- of its role are canonical, the principal is of a known type, there is at least one permission, all are
-- in the catalog and strictly ascending, and the scope's IDs fit its kind.
pub normalize_all-IsNormal :
    (gs : List Grant) {ns : List Grant} → normalize_all gs ≡ ok ns → All IsNormal ns
unfolding normalize_all
normalize_all-IsNormal [] {ns} h = let e : [] ≡ ns = cc in rw (← e) tt
normalize_all-IsNormal (g ∷ gs) {ns} h =
    let (n, hn, h₁) = >>=-eq-ok (normalize_grant g) _ h in
    let (rest, hr, last) = >>=-eq-ok (normalize_all gs) _ h₁ in
    let e : n ∷ rest ≡ ns = cc (last) in
    rw (← e) (normalize_grant-IsNormal g hn, normalize_all-IsNormal gs hr)
