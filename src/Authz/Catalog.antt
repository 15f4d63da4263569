-- ===== src/Authz/Catalog.antt =====
-- server/internal/authz/catalog.go: the permission catalog, its lookup and its validation.
pub mod Validated
use power_manage.Shared.{
  ℕ, Bool, true, false, ◌&&◌, ◌||◌, not, List, [], ◌∷◌, Option, none, some, Result, ok, err, ◌>>=◌,
  ◌>>◌, reject_if, ltb, leb, ◌==◌, if◌then◌else◌, length, all,
}
use power_manage.Shared.Bytes.{Bytes, codes, bytes_eq, trim_space}
use power_manage.Shared.Order.{lt_bytes}

-- `other_class` is any other string.
pub data ScopeClass : Type 0 where
  confinable global_only other_class : ScopeClass

pub record CatalogEntry : Type 0 where
  pub name : Bytes
  pub class : ScopeClass
  pub rationale : Bytes

abbrev scoped : Bytes → CatalogEntry
scoped name = record { name = name; class = confinable; rationale = [] }

abbrev global : Bytes → Bytes → CatalogEntry
global name rationale = record { name = name; class = global_only; rationale = rationale }

unfoldable pub permission_catalog : List CatalogEntry
permission_catalog =
    scoped (codes "action_sets.manage")
    ∷ scoped (codes "actions.manage")
    ∷ scoped (codes "audit.read")
    ∷ global (codes "audit_retention.manage")
        (codes "audit and retention policy changes affect the whole control plane")
    ∷ scoped (codes "devices.manage")
    ∷ scoped (codes "executions.read")
    ∷ global (codes "identity_providers.manage")
        (codes "identity-provider trust configuration controls global sign-in")
    ∷ scoped (codes "logs.read")
    ∷ global (codes "pki.manage")
        (codes "certificate-authority operations alter global machine trust")
    ∷ global (codes "roles.manage") (codes "role and grant definitions alter global authorization")
    ∷ global (codes "scim_configuration.manage")
        (codes "SCIM provisioning configuration controls global identity state")
    ∷ global (codes "server_settings.manage")
        (codes "server settings alter control-plane-wide behavior")
    ∷ global (codes "user_group_memberships.manage")
        (codes "membership changes can alter authorization reach across scopes")
    ∷ scoped (codes "user_groups.manage")
    ∷ scoped (codes "users.manage")
    ∷ []

-- `strings.Split(value, sep)` at a separator of one byte.
unfoldable pub add_to_first : ℕ → List Bytes → List Bytes
add_to_first c [] = (c ∷ []) ∷ []
add_to_first c (s ∷ ss) = (c ∷ s) ∷ ss

unfoldable pub split : ℕ → Bytes → List Bytes
unfolding add_to_first
split sep [] = [] ∷ []
split sep (c ∷ cs) = if c == sep then [] ∷ split sep cs else add_to_first c (split sep cs)

abbrev is_lower : ℕ → Bool
is_lower c = leb b'a' c && leb c b'z'

abbrev segment_byte : ℕ → Bool
segment_byte c = is_lower c || leb b'0' c && leb c b'9' || c == b'_'

valid_segment : Bytes → Bool
valid_segment [] = false
valid_segment (c ∷ cs) = is_lower c && all segment_byte cs

last_of : List Bytes → Bytes
last_of [] = []
last_of (s ∷ []) = s
last_of (s ∷ t ∷ ts) = last_of (t ∷ ts)

abbrev max_permission_name_bytes : ℕ
max_permission_name_bytes = 128

valid_segments : List Bytes → Bool
unfolding valid_segment last_of
valid_segments segments =
    if ltb (length segments) 2
    then false
    else (if bytes_eq (last_of segments) (codes "self")
          || bytes_eq (last_of segments) (codes "assigned")
        then false
        else all valid_segment segments)

unfoldable pub valid_permission_name : Bytes → Bool
unfolding valid_segments split
valid_permission_name value =
    if length value == 0 || ltb max_permission_name_bytes (length value)
    then false
    else valid_segments (split b'.' value)

-- The loop of `Lookup` over a catalog.
unfoldable pub find_entry : List CatalogEntry → Bytes → Option CatalogEntry
find_entry [] name = none
find_entry (e ∷ es) name = if bytes_eq e.name name then some e else find_entry es name

unfoldable pub lookup : Bytes → Option CatalogEntry
lookup name = if valid_permission_name name then find_entry permission_catalog name else none

pub data CatalogError : Type 0 where
  catalog_empty name_invalid order_invalid rationale_required class_invalid : CatalogError

-- `strings.TrimSpace(s) == ""`.
unfoldable pub is_blank : Bytes → Bool
is_blank s = length (trim_space s) == 0

check_class : CatalogEntry → ScopeClass → Result CatalogError (Unit {0})
check_class e confinable = ok tt
check_class e global_only = reject_if (is_blank e.rationale) rationale_required
check_class e other_class = err class_invalid

-- `index > 0 && entry.Name <= previous`; `none` stands for the first round.
not_after : Option Bytes → Bytes → Bool
not_after none name = false
not_after (some previous) name = not (lt_bytes previous name)

-- The loop of `validateCatalog`, with the name of the entry before.
unfoldable pub check_entries : Option Bytes → List CatalogEntry → Result CatalogError (Unit {0})
unfolding check_class not_after
check_entries previous [] = ok tt
check_entries previous (e ∷ es) = do
  reject_if (not (valid_permission_name e.name)) name_invalid
  reject_if (not_after previous e.name) order_invalid
  check_class e e.class
  check_entries (some e.name) es

unfoldable pub validate_catalog : List CatalogEntry → Result CatalogError (Unit {0})
validate_catalog [] = err catalog_empty
validate_catalog (e ∷ es) = check_entries none (e ∷ es)
