-- ===== src/Authz/Catalog/Validated.antt =====
-- A catalog that passes validation resolves every name to exactly its entry, and the built-in one does.
use power_manage.Shared.{
  ◌≡◌, refl, inl, inr, true, false, List, [], ◌∷◌, Option, none, some, ok, arith, All, ◌⊎◌, All-map,
  Bool-cases, All-and, subst,
}
use power_manage.Shared.Bytes.{Bytes, trim_space, bytes_eq, bytes_eq→eq, bytes_eq_refl}
use power_manage.Shared.Order.{lt_bytes, lt_bytes_irrefl, lt_bytes_trans}
use power_manage.Authz.Catalog.{
  CatalogEntry, confinable, global_only, is_blank, valid_permission_name, find_entry, check_entries,
  validate_catalog, permission_catalog, lookup,
}

-- A name that lies before all names of a list is not found in it.
abbrev After : Bytes → CatalogEntry → Type 0
After name e = lt_bytes name e.name ≡ true

find_entry_before :
    (name : Bytes) (es : List CatalogEntry) → All (After name) es → find_entry es name ≡ none
unfolding find_entry
find_entry_before name [] h = refl
find_entry_before name (e ∷ es) h =
    ground
      (arith, h.0, bytes_eq→eq e.name name, lt_bytes_irrefl name, find_entry_before name es h.1)

-- What validation establishes of one entry.
abbrev pub IsSound : CatalogEntry → Type 0
IsSound e =
    (valid_permission_name e.name ≡ true)
    × ((e.class ≡ confinable) ⊎ ((e.class ≡ global_only) × (is_blank e.rationale ≡ false)))

check_entries-first :
    (previous : Bytes) (es : List CatalogEntry)
    → check_entries (some previous) es ≡ ok tt
    → All (After previous) es
unfolding check_entries
check_entries-first previous [] h = tt
check_entries-first previous (e ∷ es) h =
    let above : lt_bytes previous e.name ≡ true = ground arith in
    let rest = check_entries-first e.name es (ground arith) in
    (
      above,
      All-map (After e.name) (After previous) es
          (λ x p. lt_bytes_trans previous e.name x.name above p) rest,
    )

check_entries-IsSound :
    (previous : Option Bytes) (es : List CatalogEntry)
    → check_entries previous es ≡ ok tt
    → All IsSound es
unfolding check_entries
check_entries-IsSound previous [] h = tt
check_entries-IsSound previous (e ∷ es) h =
    (ground arith, check_entries-IsSound (some e.name) es (ground arith))

-- An entry is found by its name.
abbrev pub FoundIn : List CatalogEntry → CatalogEntry → Type 0
FoundIn es e = find_entry es e.name ≡ some e

found_behind :
    (e x : CatalogEntry) (es : List CatalogEntry)
    → After e.name x
    → FoundIn es x
    → FoundIn (e ∷ es) x
unfolding find_entry
found_behind e x es a f = ground (arith, f, bytes_eq→eq e.name x.name, lt_bytes_irrefl e.name)

found_here : (e : CatalogEntry) (es : List CatalogEntry) → FoundIn (e ∷ es) e
unfolding find_entry
found_here e es = ground (arith, bytes_eq_refl e.name)

check_entries-FoundIn :
    (previous : Option Bytes) (es : List CatalogEntry)
    → check_entries previous es ≡ ok tt
    → All (FoundIn es) es
unfolding check_entries
check_entries-FoundIn previous [] h = tt
check_entries-FoundIn previous (e ∷ es) h =
    let rest : check_entries (some e.name) es ≡ ok tt = ground arith in
    let behind =
      All-and (After e.name) (FoundIn es) es (check_entries-first e.name es rest)
        (check_entries-FoundIn (some e.name) es rest) in
    (
      found_here e es,
      All-map (λ x. After e.name x × FoundIn es x) (FoundIn (e ∷ es)) es
          (λ x p. found_behind e x es p.0 p.1) behind,
    )

-- In a catalog that passes validation every name is well formed, every entry is confinable or
-- global-only with a rationale, and a lookup by an entry's name returns that very entry.
pub validate_catalog-IsSound :
    (es : List CatalogEntry) → validate_catalog es ≡ ok tt → All (λ e. IsSound e × FoundIn es e) es
unfolding validate_catalog
validate_catalog-IsSound [] h = tt
validate_catalog-IsSound (e ∷ es) h =
    All-and IsSound (FoundIn (e ∷ es)) (e ∷ es) (check_entries-IsSound none (e ∷ es) h)
      (check_entries-FoundIn none (e ∷ es) h)

-- The built-in catalog passes the loop, and so the validation.
permission_catalog-checked : check_entries none permission_catalog ≡ ok tt
unfolding permission_catalog check_entries valid_permission_name is_blank lt_bytes bytes_eq
    trim_space
permission_catalog-checked = refl

pub permission_catalog-valid : validate_catalog permission_catalog ≡ ok tt
unfolding validate_catalog permission_catalog
permission_catalog-valid = permission_catalog-checked

find_entry-IsSound :
    (es : List CatalogEntry) (name : Bytes) {e : CatalogEntry}
    → All IsSound es
    → find_entry es name ≡ some e
    → IsSound e × (e.name ≡ name)
unfolding find_entry
find_entry-IsSound [] name h f = cc
find_entry-IsSound (x ∷ es) name {e} h f = elim (Bool-cases (bytes_eq x.name name)) [
  | inl same ↦
      let here : x ≡ e = ground arith in
      (subst IsSound here h.0, ground (arith, bytes_eq→eq x.name name same))
  | inr other ↦ find_entry-IsSound es name h.1 (ground arith)
]

-- What `Lookup` returns is an entry of that name with one of the two classes.
pub lookup-IsSound :
    (name : Bytes) {e : CatalogEntry} → lookup name ≡ some e → IsSound e × (e.name ≡ name)
unfolding lookup
lookup-IsSound name h =
    find_entry-IsSound permission_catalog name
      (check_entries-IsSound none permission_catalog permission_catalog-checked) (ground arith)
