-- ===== src/Authz/Gate.antt =====
-- server/internal/auth/authorization.go: the authorization gate of the RPC interceptors and handlers.
pub mod Built
pub mod Authorized
use power_manage.Shared.{
  ℕ, Bool, true, false, ◌&&◌, ◌||◌, not, List, [], ◌∷◌, ◌++◌, Option, none, some, Result, ok, err,
  ◌>>=◌, ◌>>◌, reject_if, require, ltb, leb, ◌==◌, if◌then◌else◌, length, all, any,
}
use power_manage.Shared.Bytes.{Bytes, codes, bytes_eq, trim_space}
use power_manage.Shared.Order.{lt_bytes, sort, compact}
use power_manage.Ulid.{UlidError, ulid_path_id, to_upper}
use power_manage.Authz.Catalog.{
  ScopeClass, confinable, global_only, other_class, CatalogEntry, lookup,
}
use power_manage.Authz.Grants.{Reach, EffectiveAccess, find_reach, is_global_only_entry}

-- `other_procedure_class` is any other value of the enumeration's type.
pub data ProcedureClass : Type 0 where
  procedure_public procedure_permission_gated procedure_alt_auth other_procedure_class :
      ProcedureClass

pub record ProcedureAuthorization : Type 0 where
  pub class : ProcedureClass
  pub permission : Bytes

pub record AuthenticatedPrincipal : Type 0 where
  pub subject : Bytes
  pub audit_identity : Bytes
  pub pat_scopes : List Bytes
  pub is_pat : Bool

pub record AuthorizationDecision : Type 0 where
  pub subject : Bytes
  pub audit_identity : Bytes
  pub required_permission : Bytes
  pub effective_access : EffectiveAccess

-- The two values that the gate keeps in a request context.
pub record Context : Type 0 where
  pub principal : Option AuthenticatedPrincipal
  pub decision : Option AuthorizationDecision

-- The resolver fails with `none`; a gate that is not wired lacks one of its two fields.
pub record AuthorizationGate : Type 0 where
  pub resolver : Option (Bytes → Option EffectiveAccess)
  pub policies : Option (Bytes → Option ProcedureAuthorization)

pub data AuthError : Type 0 where
  authentication_required permission_denied authorization_unavailable : AuthError

abbrev is_ok : Result UlidError (Unit {0}) → Bool
is_ok (ok _) = true
is_ok (err _) = false

unfoldable pub valid_authorization_subject : Bytes → Bool
valid_authorization_subject subject =
    is_ok (ulid_path_id subject) && bytes_eq subject (to_upper subject)

unfoldable pub is_sorted : List Bytes → Bool
is_sorted [] = true
is_sorted (x ∷ []) = true
is_sorted (x ∷ y ∷ ys) = not (lt_bytes y x) && is_sorted (y ∷ ys)

repeats : Option Bytes → Bytes → Bool
repeats none id = false
repeats (some previous) id = bytes_eq id previous

-- The loop of `validReachIDs`, with the ID before.
unfoldable pub reach_ids_from : Option Bytes → List Bytes → Bool
unfolding repeats
reach_ids_from previous [] = true
reach_ids_from previous (id ∷ ids) =
    if not (is_ok (ulid_path_id id)) || not (bytes_eq id (to_upper id)) || repeats previous id
    then false
    else reach_ids_from (some id) ids

unfoldable pub valid_reach_ids : List Bytes → Bool
valid_reach_ids ids = if not (is_sorted ids) then false else reach_ids_from none ids

abbrev is_empty : List Bytes → Bool
is_empty ids = length ids == 0

-- `validReach` once the permission's entry is found.
unfoldable pub valid_entry_reach : CatalogEntry → Reach → Bool
valid_entry_reach entry reach =
    if reach.global
    then not reach.self && is_empty reach.device_group_ids && is_empty reach.user_group_ids
    else (if is_global_only_entry (some entry)
        then false
        else (reach.self
            || not (is_empty reach.device_group_ids)
            || not (is_empty reach.user_group_ids))
          && valid_reach_ids reach.device_group_ids
          && valid_reach_ids reach.user_group_ids)

unfoldable pub valid_reach : Bytes → Reach → Bool
valid_reach permission reach = elim (lookup permission) [
  | none ↦ false
  | some entry ↦ valid_entry_reach entry reach
]

starts_with_slash : Bytes → Bool
starts_with_slash [] = false
starts_with_slash (c ∷ cs) = c == b'/'

-- What the switch asks of the policy's permission, by the class.
names_permission : ProcedureClass → Bytes → Bool
names_permission procedure_public permission = length permission == 0
names_permission procedure_alt_auth permission = length permission == 0
names_permission procedure_permission_gated permission = elim (lookup permission) [
  | none ↦ false
  | some _ ↦ true
]
names_permission other_procedure_class permission = false

-- `validateProcedureAuthorization(...) == nil`.
unfoldable pub valid_procedure_authorization : Bytes → ProcedureAuthorization → Bool
unfolding starts_with_slash names_permission
valid_procedure_authorization procedure policy =
    not (length (trim_space procedure) == 0)
    && starts_with_slash procedure
    && names_permission policy.class policy.permission

-- A decision that the context carries already must be for this principal and this permission.
unfoldable pub decision_matches : AuthenticatedPrincipal → Bytes → AuthorizationDecision → Bool
decision_matches principal permission decision =
    bytes_eq decision.subject principal.subject
    && bytes_eq decision.audit_identity principal.audit_identity
    && bytes_eq decision.required_permission permission
    && elim (find_reach decision.effective_access.permissions permission) [
      | none ↦ false
      | some reach ↦ valid_reach permission reach
    ]

-- The part of `AuthorizeContext` that resolves access anew.
unfoldable pub decide :
    (Bytes → Option EffectiveAccess)
    → AuthenticatedPrincipal
    → Bytes
    → Context
    → Result AuthError Context
decide resolver principal permission ctx = do
  effective ← require (resolver principal.subject) authorization_unavailable
  reach ← require (find_reach effective.permissions permission) permission_denied
  reject_if (not (valid_reach permission reach)) authorization_unavailable
  ok (record ctx {
    decision = some (record {
      subject = principal.subject;
      audit_identity = principal.audit_identity;
      required_permission = permission;
      effective_access = effective;
    });
  })

-- The part for a permission-gated procedure.
unfoldable pub authorize_gated :
    (Bytes → Option EffectiveAccess) → Bytes → Context → Result AuthError Context
authorize_gated resolver permission ctx = do
  principal ← require ctx.principal authentication_required
  reject_if (not (valid_authorization_subject principal.subject)) authentication_required
  reject_if (principal.is_pat && not (any (bytes_eq permission) principal.pat_scopes))
      permission_denied
  elim ctx.decision [
    | some decision ↦
        if decision_matches principal permission decision
        then ok ctx
        else err authorization_unavailable
    | none ↦ decide resolver principal permission ctx
  ]

unfoldable pub authorize_policy :
    (Bytes → Option EffectiveAccess) → ProcedureAuthorization → Context → Result AuthError Context
authorize_policy resolver policy ctx = elim policy.class [
  | procedure_public ↦ ok ctx
  | procedure_alt_auth ↦ ok ctx
  | procedure_permission_gated ↦ authorize_gated resolver policy.permission ctx
  | other_procedure_class ↦ err authorization_unavailable
]

-- The gate and the context are pointers that may be nil.
unfoldable pub authorize_context :
    Option AuthorizationGate → Option Context → Bytes → Result AuthError Context
authorize_context gate context procedure = do
  g ← require gate authorization_unavailable
  resolver ← require g.resolver authorization_unavailable
  policies ← require g.policies authorization_unavailable
  ctx ← require context authorization_unavailable
  policy ← require (policies procedure) permission_denied
  reject_if (not (valid_procedure_authorization procedure policy)) authorization_unavailable
  authorize_policy resolver policy ctx
