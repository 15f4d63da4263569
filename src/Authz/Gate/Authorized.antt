-- ===== src/Authz/Gate/Authorized.antt =====
-- What a context that passed the authorization gate carries (server/internal/auth/authorization.go).
use power_manage.Shared.{
  ◌≡◌, refl, ◌∙◌, ◌⊎◌, inl, inr, true, false, ◌&&◌, not, List, Option, none, some, ok, err, arith,
  any, Option-cases, if◌then◌else◌,
}
use power_manage.Shared.Bytes.{Bytes, bytes_eq, bytes_eq→eq, bytes_eq_refl}
use power_manage.Authz.Grants.{Grant, Reach, EffectiveAccess, find_reach, resolve}
use power_manage.Authz.Gate.{
  procedure_permission_gated, ProcedureAuthorization, AuthenticatedPrincipal, AuthorizationDecision,
  Context, AuthorizationGate, permission_denied, authorization_unavailable,
  valid_authorization_subject, valid_reach, decision_matches, decide, authorize_gated,
  authorize_policy, authorize_context, valid_procedure_authorization,
}
use power_manage.Authz.Gate.Built.{valid_reach-resolve}

-- A request context that may run a handler which needs the permission.
pub record Authorized (permission : Bytes) (before after : Context) : Type 0 where
  pub principal : AuthenticatedPrincipal
  pub authenticated : before.principal ≡ some principal
  pub kept : after.principal ≡ some principal
  pub subject_valid : valid_authorization_subject principal.subject ≡ true
  pub in_token_scope :
      principal.is_pat ≡ true → any (bytes_eq permission) principal.pat_scopes ≡ true
  pub decision : AuthorizationDecision
  pub decided : after.decision ≡ some decision
  pub subject : decision.subject ≡ principal.subject
  pub audit_identity : decision.audit_identity ≡ principal.audit_identity
  pub required : decision.required_permission ≡ permission
  pub reach : Reach
  pub permitted : find_reach decision.effective_access.permissions permission ≡ some reach
  pub reach_valid : valid_reach permission reach ≡ true

-- The two ways to a decision: one that the context carries, or a fresh one.
record Decided (principal : AuthenticatedPrincipal) (permission : Bytes) (d : AuthorizationDecision)
    : Type 0 where
  subject : d.subject ≡ principal.subject
  audit_identity : d.audit_identity ≡ principal.audit_identity
  required : d.required_permission ≡ permission
  reach : Reach
  permitted : find_reach d.effective_access.permissions permission ≡ some reach
  reach_valid : valid_reach permission reach ≡ true

decision_matches-Decided :
    (principal : AuthenticatedPrincipal) (permission : Bytes) (d : AuthorizationDecision)
    → decision_matches principal permission d ≡ true
    → Decided principal permission d
unfolding decision_matches
decision_matches-Decided principal permission d h =
    elim (Option-cases (find_reach d.effective_access.permissions permission)) [
      | inl e ↦ ground arith
      | inr (r, e) ↦ record {
        subject = bytes_eq→eq _ _ (ground arith);
        audit_identity = bytes_eq→eq _ _ (ground arith);
        required = bytes_eq→eq _ _ (ground arith);
        reach = r;
        permitted = e;
        reach_valid = ground arith;
      }
    ]

Decided-decision_matches :
    (principal : AuthenticatedPrincipal) (permission : Bytes) (d : AuthorizationDecision)
    → Decided principal permission d
    → decision_matches principal permission d ≡ true
unfolding decision_matches
Decided-decision_matches principal permission d h = ground (
  arith,
  h.subject,
  h.audit_identity,
  h.required,
  h.permitted,
  h.reach_valid,
  bytes_eq_refl d.subject,
  bytes_eq_refl d.audit_identity,
  bytes_eq_refl permission,
)

decide-Decided :
    (resolver : Bytes → Option EffectiveAccess) (principal : AuthenticatedPrincipal)
    (permission : Bytes) (before after : Context)
    → decide resolver principal permission before ≡ ok after
    → (d : AuthorizationDecision) × (after.decision ≡ some d)
      × (after.principal ≡ before.principal)
      × Decided principal permission d
unfolding decide
decide-Decided resolver principal permission before after h =
    elim (Option-cases (resolver principal.subject)) [
      | inl e ↦ ground arith
      | inr (eff, e) ↦ elim (Option-cases (find_reach eff.permissions permission)) [
        | inl k ↦ ground arith
        | inr (r, k) ↦ (
          record {
            subject = principal.subject;
            audit_identity = principal.audit_identity;
            required_permission = permission;
            effective_access = eff;
          },
          ground arith,
          ground arith,
          record {
            subject = refl;
            audit_identity = refl;
            required = refl;
            reach = r;
            permitted = k;
            reach_valid = ground arith;
          },
        )
      ]
    ]

module _ (resolver : Bytes → Option EffectiveAccess) (permission : Bytes)
    (before after : Context) where
  -- With a decision in the context, or without one.
  Decided-either_way :
      (principal : AuthenticatedPrincipal)
      → (elim before.decision [
        | some decision ↦
            if decision_matches principal permission decision
            then ok before
            else err authorization_unavailable
        | none ↦ decide resolver principal permission before
      ])
        ≡ ok after
      → (d : AuthorizationDecision) × (after.decision ≡ some d)
        × (after.principal ≡ before.principal)
        × Decided principal permission d
  Decided-either_way principal h = elim (Option-cases before.decision) [
    | inl e ↦ decide-Decided resolver principal permission before after (ground arith)
    | inr (d, e) ↦ (
      d,
      ground arith,
      ground arith,
      decision_matches-Decided principal permission d (ground arith),
    )
  ]

  authorize_gated-Authorized :
      authorize_gated resolver permission before ≡ ok after → Authorized permission before after
  unfolding authorize_gated
  authorize_gated-Authorized h = elim (Option-cases before.principal) [
    | inl e ↦ ground arith
    | inr (p, e) ↦
        let (d, decided, same, found) = Decided-either_way p (ground arith) in
        record {
          principal = p;
          authenticated = e;
          kept = same ∙ e;
          subject_valid = ground arith;
          in_token_scope = λ t. ground arith;
          decision = d;
          decided = decided;
          subject = found.subject;
          audit_identity = found.audit_identity;
          required = found.required;
          reach = found.reach;
          permitted = found.permitted;
          reach_valid = found.reach_valid;
        }
  ]

  Authorized-again :
      (other : Bytes → Option EffectiveAccess)
      → Authorized permission before after
      → authorize_gated other permission after ≡ ok after
  unfolding authorize_gated
  Authorized-again other a = ground (
    arith,
    a.kept,
    a.subject_valid,
    a.in_token_scope,
    a.decided,
    Decided-decision_matches a.principal permission a.decision (record {
      subject = a.subject;
      audit_identity = a.audit_identity;
      required = a.required;
      reach = a.reach;
      permitted = a.permitted;
      reach_valid = a.reach_valid;
    }),
  )

abbrev pub gate :
    (Bytes → Option EffectiveAccess)
    → (Bytes → Option ProcedureAuthorization)
    → Option AuthorizationGate
gate resolver policies = some (record { resolver = some resolver; policies = some policies })

-- When the gate lets a permission-gated procedure pass, the context carries an authenticated principal
-- with a valid subject, a token principal has the permission among its scopes, and the context handed on
-- carries a decision for that principal and permission whose access has a valid reach for it. The gate,
-- asked again with that context, passes it on unchanged whatever its resolver would answer.
pub authorize_context-Authorized :
    (resolver other : Bytes → Option EffectiveAccess)
    (policies : Bytes → Option ProcedureAuthorization) (before after : Context)
    (procedure permission : Bytes)
    → policies procedure
      ≡ some (record { class = procedure_permission_gated; permission = permission })
    → authorize_context (gate resolver policies) (some before) procedure ≡ ok after
    → Authorized permission before after
      × (authorize_context (gate other policies) (some after) procedure ≡ ok after)
unfolding authorize_context authorize_policy
authorize_context-Authorized resolver other policies before after procedure permission policy h =
    let a = authorize_gated-Authorized resolver permission before after (ground arith) in
    (a, ground (arith, Authorized-again resolver permission before after other a))

-- The resolver of a store whose grants are resolved on each call; a failure of `Resolve` is an error.
abbrev pub resolved : (Bytes → List Grant) → Bytes → Option EffectiveAccess
resolved grants_of subject = elim (resolve (grants_of subject)) [ ok eff ↦ some eff | err _ ↦ none ]

decide-resolved :
    (grants_of : Bytes → List Grant) (principal : AuthenticatedPrincipal) (permission : Bytes)
    (ctx : Context) (eff : EffectiveAccess)
    → resolve (grants_of principal.subject) ≡ ok eff
    → ((decide (resolved grants_of) principal permission ctx ≡ err permission_denied)
        × (find_reach eff.permissions permission ≡ none))
      ⊎ ((after : Context) × (decide (resolved grants_of) principal permission ctx ≡ ok after)
          × (r : Reach) × (find_reach eff.permissions permission ≡ some r))
unfolding decide
decide-resolved grants_of principal permission ctx eff h =
    elim (Option-cases (find_reach eff.permissions permission)) [
      | inl e ↦ inl (ground arith, e)
      | inr (r, e) ↦ inr (
        record ctx {
          decision = some (record {
            subject = principal.subject;
            audit_identity = principal.audit_identity;
            required_permission = permission;
            effective_access = eff;
          });
        },
        ground (arith, valid_reach-resolve (grants_of principal.subject) eff permission r h e),
        r,
        e,
      )
    ]

-- The gate over the resolver of `Resolve`: a context that carries no decision, of a principal with a
-- valid subject, not held back by the scopes of a token, whose grants resolve, asks for a procedure that
-- a valid policy gates by a permission. The answer is that permission is denied, and the access lacks the
-- permission; or the request passes, and the access has it. In particular it is not that authorization
-- is unavailable.
pub authorize_context-resolved :
    (grants_of : Bytes → List Grant) (policies : Bytes → Option ProcedureAuthorization)
    (before : Context) (procedure permission : Bytes) (principal : AuthenticatedPrincipal)
    (eff : EffectiveAccess)
    → policies procedure
      ≡ some (record { class = procedure_permission_gated; permission = permission })
    → valid_procedure_authorization procedure
        (record { class = procedure_permission_gated; permission = permission })
      ≡ true
    → before.principal ≡ some principal
    → before.decision ≡ none
    → valid_authorization_subject principal.subject ≡ true
    → (principal.is_pat && not (any (bytes_eq permission) principal.pat_scopes)) ≡ false
    → resolve (grants_of principal.subject) ≡ ok eff
    → ((authorize_context (gate (resolved grants_of) policies) (some before) procedure
          ≡ err permission_denied)
        × (find_reach eff.permissions permission ≡ none))
      ⊎ ((after : Context) × (authorize_context
              (gate (resolved grants_of) policies)
              (some before)
              procedure
            ≡ ok after)
          × (r : Reach) × (find_reach eff.permissions permission ≡ some r))
unfolding authorize_context authorize_policy authorize_gated
authorize_context-resolved grants_of policies before procedure permission principal eff policy valid
      authenticated fresh subject scope h =
    let same : authorize_context (gate (resolved grants_of) policies) (some before) procedure
        ≡ decide (resolved grants_of) principal permission before =
      ground (arith, policy, valid, authenticated, fresh, subject, scope) in
    elim (decide-resolved grants_of principal permission before eff h) [
      | inl (denied, lacks) ↦ inl (same ∙ denied, lacks)
      | inr (after, passed, reach, has) ↦ inr (after, same ∙ passed, reach, has)
    ]
