-- ===== src/Authz/Examples.antt =====
-- Runs of the resolver and of the gate on two grants of one user.
use power_manage.Shared.{
  ℕ, ◌≡◌, ◌⊎◌, ◌↔◌, refl, true, false, List, [], ◌∷◌, ◌++◌, Option, none, some, ok, err, All,
}
use power_manage.Shared.Bytes.{Bytes, codes, bytes_eq, trim_space}
use power_manage.Shared.Order.{sort, sort_by, insert_by, compact, lt_bytes}
use power_manage.Ulid.{ulid_path_id, is_canonical_ulid, to_upper, upper_byte, path_symbol, has_byte}
use power_manage.Ulid.Agreement.{path_grammar}
use power_manage.Authz.Catalog.{
  permission_catalog, lookup, find_entry, valid_permission_name, confinable, split, add_to_first,
}
use power_manage.Authz.Catalog.Validated.{
  IsSound, FoundIn, validate_catalog-IsSound, lookup-IsSound, permission_catalog-valid,
}
use power_manage.Authz.Grants.{
  Grant, EffectiveAccess, Reach, principal_user, scope_device_groups, resolve, normalize_all,
  normalize_grant, normalize_permissions, check_permissions, normalize_scope, normalize_principal,
  canonical_ulid, find_reach, resolve_grants, canonical_ids, normalize_group_scope, has_duplicate,
  normalize_plain_scope, extend_reach, is_stripped, resolve_permission, resolve_permissions,
  set_reach, union_strings,
}
use power_manage.Authz.Grants.Normal.{IsNormal, normalize_all-IsNormal}
use power_manage.Authz.Gate.{
  Context, AuthenticatedPrincipal, ProcedureAuthorization, procedure_permission_gated,
  authorize_context, decide, permission_denied, valid_reach, authorize_policy, authorize_gated,
  valid_authorization_subject, valid_procedure_authorization, valid_entry_reach, valid_reach_ids,
  is_sorted, reach_ids_from,
}
use power_manage.Authz.Gate.Built.{valid_reach-resolve}
use power_manage.Authz.Gate.Authorized.{
  Authorized, authorize_context-Authorized, authorize_context-resolved, resolved, gate,
}

abbrev id : ℕ → Bytes
id b = codes "01K0QJ3E5E8R4M0D8EV3Y4N6J" ++ b ∷ []

abbrev site_a : Grant
site_a = record {
  id = id b'7';
  principal_type = principal_user;
  principal_id = id b'1';
  role_id = id b'2';
  permissions = codes "devices.manage" ∷ [];
  scope = record { kind = scope_device_groups; ids = id b'3' ∷ [] };
}

path_grammar_example :
    ((ulid_path_id (codes "01k0qj3e5e8r4m0d8ev3y4n6j7") ≡ ok tt)
      ↔ (is_canonical_ulid (to_upper (codes "01k0qj3e5e8r4m0d8ev3y4n6j7")) ≡ true))
    × ((is_canonical_ulid (codes "01k0qj3e5e8r4m0d8ev3y4n6j7") ≡ true) ↔ (
        (ulid_path_id (codes "01k0qj3e5e8r4m0d8ev3y4n6j7") ≡ ok tt)
        × (to_upper (codes "01k0qj3e5e8r4m0d8ev3y4n6j7") ≡ codes "01k0qj3e5e8r4m0d8ev3y4n6j7")))
path_grammar_example = path_grammar (codes "01k0qj3e5e8r4m0d8ev3y4n6j7") refl

validate_catalog-IsSound_example :
    All (λ e. IsSound e × FoundIn permission_catalog e) permission_catalog
validate_catalog-IsSound_example =
    validate_catalog-IsSound permission_catalog permission_catalog-valid

abbrev access : EffectiveAccess
access = record {
  grants =
      record {
        grant_id = id b'7';
        active_permissions = codes "devices.manage" ∷ [];
        stripped_permissions = [];
      }
      ∷ [];
  permissions =
      (
        codes "devices.manage",
        record {
          global = false;
          device_group_ids = id b'3' ∷ [];
          user_group_ids = [];
          self = false;
        },
      )
      ∷ [];
}

resolved_site_a : resolve (site_a ∷ []) ≡ ok access
unfolding resolve extend_reach find_reach is_stripped resolve_grants resolve_permission
    resolve_permissions set_reach union_strings normalize_all normalize_grant canonical_ulid
    ulid_path_id normalize_principal normalize_permissions check_permissions sort sort_by lookup
    valid_permission_name bytes_eq find_entry permission_catalog normalize_scope
    normalize_group_scope canonical_ids add_to_first split has_duplicate normalize_plain_scope
    compact insert_by lt_bytes has_byte path_symbol upper_byte
resolved_site_a = refl

normalized_site_a : normalize_all (site_a ∷ []) ≡ ok (site_a ∷ [])
unfolding normalize_all normalize_grant canonical_ulid ulid_path_id normalize_principal
    normalize_permissions check_permissions sort sort_by lookup valid_permission_name bytes_eq
    find_entry permission_catalog normalize_scope normalize_group_scope canonical_ids add_to_first
    split has_duplicate normalize_plain_scope compact insert_by lt_bytes has_byte path_symbol
    upper_byte
normalized_site_a = refl

normalize_all-IsNormal_example : All IsNormal (site_a ∷ [])
normalize_all-IsNormal_example =
    normalize_all-IsNormal (site_a ∷ []) {ns = site_a ∷ []} normalized_site_a

abbrev site_a_reach : Reach
site_a_reach = record {
  global = false;
  device_group_ids = id b'3' ∷ [];
  user_group_ids = [];
  self = false;
}

reach_of_site_a : find_reach access.permissions (codes "devices.manage") ≡ some site_a_reach
unfolding find_reach bytes_eq
reach_of_site_a = refl

valid_reach-resolve_example : valid_reach (codes "devices.manage") site_a_reach ≡ true
valid_reach-resolve_example =
    valid_reach-resolve (site_a ∷ []) access (codes "devices.manage") site_a_reach resolved_site_a
      reach_of_site_a

lookup_devices :
    lookup (codes "devices.manage")
    ≡ some (record { name = codes "devices.manage"; class = confinable; rationale = [] })
unfolding lookup valid_permission_name bytes_eq find_entry permission_catalog split add_to_first
lookup_devices = refl

lookup-IsSound_example :
    IsSound (record { name = codes "devices.manage"; class = confinable; rationale = [] })
    × (codes "devices.manage" ≡ codes "devices.manage")
lookup-IsSound_example =
    lookup-IsSound (codes "devices.manage")
      {e = record { name = codes "devices.manage"; class = confinable; rationale = [] }}
      lookup_devices

abbrev alice : AuthenticatedPrincipal
alice = record { subject = id b'1'; audit_identity = id b'1'; pat_scopes = []; is_pat = false }

abbrev request : Context
request = record { principal = some alice; decision = none }

abbrev site_a_grants : Bytes → List Grant
site_a_grants _ = site_a ∷ []

abbrev policies : Bytes → Option ProcedureAuthorization
policies _ =
    some (record { class = procedure_permission_gated; permission = codes "devices.manage" })

procedure_valid :
    valid_procedure_authorization
      (codes "/pm.DeviceService/Delete")
      (record { class = procedure_permission_gated; permission = codes "devices.manage" })
    ≡ true
unfolding valid_procedure_authorization trim_space lookup valid_permission_name bytes_eq find_entry
    permission_catalog split add_to_first
procedure_valid = refl

alice_valid : valid_authorization_subject (id b'1') ≡ true
unfolding valid_authorization_subject ulid_path_id bytes_eq path_symbol has_byte upper_byte
alice_valid = refl

authorize_context-resolved_example :
    ((authorize_context
          (gate (resolved site_a_grants) policies)
          (some request)
          (codes "/pm.DeviceService/Delete")
        ≡ err permission_denied)
      × (find_reach access.permissions (codes "devices.manage") ≡ none))
    ⊎ ((after : Context) × (authorize_context
            (gate (resolved site_a_grants) policies)
            (some request)
            (codes "/pm.DeviceService/Delete")
          ≡ ok after)
        × (r : Reach) × (find_reach access.permissions (codes "devices.manage") ≡ some r))
authorize_context-resolved_example =
    authorize_context-resolved site_a_grants policies request (codes "/pm.DeviceService/Delete")
      (codes "devices.manage") alice access refl procedure_valid refl refl alice_valid refl
      resolved_site_a

abbrev answered : Context
answered = record request {
  decision = some (record {
    subject = id b'1';
    audit_identity = id b'1';
    required_permission = codes "devices.manage";
    effective_access = access;
  });
}

passed :
    authorize_context (gate (λ _. some access) policies) (some request) (codes "/api/Devices")
    ≡ ok answered
unfolding authorize_context authorize_policy authorize_gated decide valid_authorization_subject
    valid_procedure_authorization valid_reach valid_entry_reach valid_reach_ids is_sorted
    reach_ids_from find_reach lookup valid_permission_name bytes_eq find_entry permission_catalog
    split add_to_first ulid_path_id has_byte path_symbol upper_byte trim_space
passed = refl

authorize_context-Authorized_example :
    Authorized (codes "devices.manage") request answered
    × (authorize_context (gate (λ _. none) policies) (some answered) (codes "/api/Devices")
        ≡ ok answered)
authorize_context-Authorized_example =
    authorize_context-Authorized (λ _. some access) (λ _. none) policies request answered
      (codes "/api/Devices") (codes "devices.manage") refl passed
