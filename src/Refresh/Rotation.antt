-- ===== src/Refresh/Rotation.antt =====
-- The rows before and after a rotation (server/internal/store/refresh_families.go
-- `projectRefreshTokenRotation`).
use power_manage.Shared.{
  ◌≡◌, ◌∙◌, refl, sym, ap, subst, inl, inr, true, false, not, List, ◌∷◌, Option, none, some, arith,
  if◌then◌else◌, if-true, if-false, Bool-cases,
}
use power_manage.Shared.Bytes.{Bytes, bytes_eq, bytes_eq→eq, bytes_eq_refl}
use power_manage.Refresh.{PersistedEvent, RefreshTokenRotatedPayload}
use power_manage.Refresh.Tables.{
  RefreshFamily, RefreshToken, get_refresh_family, get_refresh_token, update_where, rotates,
  rotated_to, supersedes, superseded_token,
}
use power_manage.Refresh.Lookups.{
  changed, get_refresh_family-update_where, get_refresh_token-update_where, get_refresh_family_key,
  get_refresh_token_key,
}
use power_manage.Refresh.Consistent.{TokenFits, FamilyFits}

-- The rotation of an active token, as the rows before and after it.
module _ (fs : List RefreshFamily) (ts : List RefreshToken) (event : PersistedEvent)
    (payload : RefreshTokenRotatedPayload) (f₀ : RefreshFamily) (new : RefreshToken)
    (tokens_fit : (hash : Bytes) → TokenFits fs hash (get_refresh_token ts hash))
    (families_fit : (id : Bytes) → FamilyFits ts id (get_refresh_family fs id))
    (found : get_refresh_family fs event.stream_id ≡ some f₀)
    (matches : rotates event payload f₀ ≡ true)
    (fresh : get_refresh_token ts payload.next_token_hash ≡ none)
    (new_hash : new.token_hash ≡ payload.next_token_hash)
    (new_family : new.family_id ≡ event.stream_id) (new_live : new.superseded ≡ false) where
  unfoldable pub families_after : List RefreshFamily
  families_after = update_where (rotates event payload) (rotated_to event payload) fs

  unfoldable pub tokens_after : List RefreshToken
  tokens_after =
      update_where (supersedes event.stream_id payload.previous_token_hash) superseded_token ts

  family_after :
      (id : Bytes) {f : RefreshFamily}
      → get_refresh_family fs id ≡ some f
      → get_refresh_family families_after id
        ≡ some (if rotates event payload f then rotated_to event payload f else f)
  unfolding families_after
  family_after id e =
      get_refresh_family-update_where (rotates event payload) (rotated_to event payload) (λ _. refl)
        fs id
      ∙ ap (changed (rotates event payload) (rotated_to event payload)) e

  -- After the rotation a token is live as before, or its family's active hash has moved on.
  live_after :
      (hash : Bytes) (t : RefreshToken) (f : RefreshFamily)
      → get_refresh_token ts hash ≡ some t
      → bytes_eq payload.next_token_hash hash ≡ false
      → get_refresh_family fs t.family_id ≡ some f
      → t.superseded ≡ not (bytes_eq hash f.active_token_hash)
      → (if supersedes event.stream_id payload.previous_token_hash t
          then superseded_token t
          else t).superseded
        ≡ not (
            bytes_eq hash
              (if rotates event payload f then rotated_to event payload f else f).active_token_hash)
  live_after hash t f e n at live =
      let key : f.family_id ≡ t.family_id = get_refresh_family_key fs t.family_id at in
      let is_hash : t.token_hash ≡ hash = get_refresh_token_key ts hash e in
      elim (Bool-cases (bytes_eq t.family_id event.stream_id)) [
        | inl b ↦
            let same : some f ≡ some f₀ =
              sym at
              ∙ ap (get_refresh_family fs) (bytes_eq→eq t.family_id event.stream_id b)
              ∙ found in
            let f_matches : rotates event payload f ≡ true =
              subst (λ g. rotates event payload g ≡ true) {x = f₀} {y = f} (ground (arith, same))
                matches in
            ground (
              arith,
              b,
              f_matches,
              is_hash,
              live,
              n,
              bytes_eq→eq hash payload.next_token_hash,
              bytes_eq_refl hash,
              bytes_eq→eq f.active_token_hash payload.previous_token_hash,
              bytes_eq_refl payload.previous_token_hash,
            )
        | inr b ↦ ground (arith, b, key, live)
      ]

  -- A token that was there keeps to its family.
  old-TokenFits :
      (hash : Bytes) (o : Option RefreshToken)
      → get_refresh_token ts hash ≡ o
      → bytes_eq payload.next_token_hash hash ≡ false
      → TokenFits fs hash o
      → TokenFits families_after hash
          (changed (supersedes event.stream_id payload.previous_token_hash) superseded_token o)
  unfolding TokenFits
  old-TokenFits hash none e n fit = tt
  old-TokenFits hash (some t) e n (f, at, live) = (
    (if rotates event payload f then rotated_to event payload f else f),
    elim (Bool-cases (supersedes event.stream_id payload.previous_token_hash t)) [
      | inl b ↦ rw b (family_after t.family_id at)
      | inr b ↦ rw b (family_after t.family_id at)
    ],
    live_after hash t f e n at live,
  )

  get_after :
      (hash : Bytes)
      → bytes_eq new.token_hash hash ≡ false
      → get_refresh_token (new ∷ tokens_after) hash
        ≡ changed
            (supersedes event.stream_id payload.previous_token_hash)
            superseded_token
            (get_refresh_token ts hash)
  unfolding get_refresh_token tokens_after
  get_after hash b =
      rw (b, get_refresh_token)
        (get_refresh_token-update_where (supersedes event.stream_id payload.previous_token_hash)
          superseded_token (λ _. refl) ts hash)

  pub TokenFits-after :
      (hash : Bytes) → TokenFits families_after hash (get_refresh_token (new ∷ tokens_after) hash)
  unfolding TokenFits get_refresh_token tokens_after
  TokenFits-after hash = elim (Bool-cases (bytes_eq new.token_hash hash)) [
    | inl b ↦
        rw (b, get_refresh_token)
          (
            rotated_to event payload f₀,
            rw new_family (family_after event.stream_id found ∙ ap some (if-true _ f₀ matches)),
            ground
                (arith, b, new_hash, new_live, bytes_eq→eq new.token_hash hash, bytes_eq_refl hash),
          )
    | inr b ↦ subst (TokenFits families_after hash) (sym (get_after hash b)) (
        old-TokenFits hash (get_refresh_token ts hash) refl (ground (arith, b, new_hash))
          (tokens_fit hash))
  ]

  pub FamilyFits-after :
      (id : Bytes) (o : Option RefreshFamily)
      → get_refresh_family fs id ≡ o
      → FamilyFits ts id o
      → FamilyFits
          (new ∷ tokens_after)
          id
          (changed (rotates event payload) (rotated_to event payload) o)
  unfolding FamilyFits get_refresh_token tokens_after
  FamilyFits-after id none e fit = tt
  FamilyFits-after id (some f) e (t, at, of) = elim (Bool-cases (bytes_eq id event.stream_id)) [
    | inl b ↦
        let same : some f ≡ some f₀ =
          sym e ∙ ap (get_refresh_family fs) (bytes_eq→eq id event.stream_id b) ∙ found in
        let f_matches : rotates event payload f ≡ true =
          subst (λ g. rotates event payload g ≡ true) {x = f₀} {y = f} (ground (arith, same))
            matches in
        (
          new,
          ground (arith, f_matches, new_hash, bytes_eq_refl payload.next_token_hash),
          cc (new_family, bytes_eq→eq id event.stream_id b),
        )
    | inr b ↦
        let key : f.family_id ≡ id = get_refresh_family_key fs id e in
        let untouched : rotates event payload f ≡ false = ground (arith, b, key) in
        let kept : supersedes event.stream_id payload.previous_token_hash t ≡ false =
          ground (arith, b, of) in
        let other : bytes_eq new.token_hash f.active_token_hash ≡ false =
          elim (Bool-cases (bytes_eq new.token_hash f.active_token_hash)) [
            | inl c ↦
                let clash : none ≡ some t =
                  sym fresh
                  ∙ ap (get_refresh_token ts)
                      (sym new_hash ∙ bytes_eq→eq new.token_hash f.active_token_hash c)
                  ∙ at in
                cc clash
            | inr c ↦ c
          ] in
        subst (λ g. FamilyFits (new ∷ tokens_after) id (some g))
          (sym (if-false (rotated_to event payload f) f untouched))
          (
            t,
            get_after f.active_token_hash other
                ∙ ap
                    (changed (supersedes event.stream_id payload.previous_token_hash)
                      superseded_token)
                    at
                ∙ ap some (if-false (superseded_token t) t kept),
            of,
          )
  ]
