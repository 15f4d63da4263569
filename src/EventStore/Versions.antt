-- ===== src/EventStore/Versions.antt =====
-- Optimistic concurrency in the event store (server/internal/store/store.go): the versions of a stream
-- over all appends, whoever makes them.
use power_manage.Shared.{
  ℕ, ◌+◌, ◌≤◌, ◌≡◌, refl, sym, ap₂, ◌∙◌, subst, ◌⊎◌, inl, inr, false, ◌&&◌, ◌∷◌, ok, err, arith,
  Result-cases, Bool-cases,
}
use power_manage.Shared.Int.{ℤ}
use power_manage.Shared.Bytes.{Bytes, bytes_eq, bytes_eq→eq, bytes_eq_refl}
use power_manage.Ulid.{to_upper}
use power_manage.EventStore.{
  Event, Persisted, version_conflict, Store, Target, current_stream_version, persisted,
  append_prepared, append_pinned, prepare_event, stored_id, ca_rotation_stream_type,
}

-- How the version of a stream moves when an event is appended to one stream: by one, or not at all.
abbrev pub Advance : ℕ → ℕ → Bytes → Bytes → ℕ → Bytes → Bytes → Type 0
Advance before after event_type event_id version type id =
    (event_type ≡ type) × (event_id ≡ id) × (before ≡ version) × (after ≡ version + 1)
    ⊎ ((bytes_eq event_type type && bytes_eq event_id id) ≡ false) × (after ≡ before)

module _ {P T E : Type 0} (target : Target P T E) where
  -- One committed append: a prepared event takes the version after the current one.
  pub data Step (s t : Store P T) : Type 0 where
    appended :
        (raw event : Event P) (version : ℕ) (now : ℤ)
        → prepare_event target raw ≡ ok event
        → current_stream_version s.log event.stream_type event.stream_id ≡ version
        → append_prepared target s event (version + 1) now ≡ ok t
        → Step s t

  pub data Reach (s : Store P T) : Store P T → Type 0 where
    here : Reach s s
    next : {t u : Store P T} → Reach s t → Step t u → Reach s u

  -- An event that the store prepares is of the target's stream type.
  pub prepare_event-stream_type :
      (raw : Event P) {event : Event P}
      → prepare_event target raw ≡ ok event
      → event.stream_type ≡ target.stream_type
  unfolding prepare_event
  prepare_event-stream_type raw {event = event} h =
      ground (arith, h, bytes_eq→eq raw.stream_type target.stream_type)

  -- Outside CA rotations the stored ID is the upper case of the given one.
  pub prepare_event-to_upper :
      (raw : Event P) {event : Event P}
      → bytes_eq raw.stream_type ca_rotation_stream_type ≡ false
      → prepare_event target raw ≡ ok event
      → event.stream_id ≡ to_upper raw.stream_id
  unfolding prepare_event stored_id
  prepare_event-to_upper raw {event = event} other h = ground (arith, other, h)

  pub append_prepared-eq-ok :
      (s : Store P T) (event : Event P) (version : ℕ) (now : ℤ) {t : Store P T}
      → append_prepared target s event version now ≡ ok t
      → (t.log ≡ persisted event version now ∷ s.log)
        × (target.project s.tables (persisted event version now) ≡ ok t.tables)
  unfolding append_prepared
  append_prepared-eq-ok s event version now {t = t} h =
      elim (Result-cases (target.project s.tables (persisted event version now))) [
        | inl (tables, e) ↦ ground (arith, e, h)
        | inr (x, e) ↦ ground (arith, e, h)
      ]

  head_version :
      (s : Store P T) (event : Event P) (version : ℕ) (now : ℤ) (type id : Bytes)
      → current_stream_version s.log event.stream_type event.stream_id ≡ version
      → Advance
          (current_stream_version s.log type id)
          (current_stream_version (persisted event (version + 1) now ∷ s.log) type id)
          event.stream_type
          event.stream_id
          version
          type
          id
  unfolding current_stream_version
  head_version s event version now type id c =
      elim (Bool-cases (bytes_eq event.stream_type type && bytes_eq event.stream_id id)) [
        | inr b ↦ inr (b, ground (arith, b))
        | inl b ↦
            let type_eq : event.stream_type ≡ type =
              ground (arith, b, bytes_eq→eq event.stream_type type) in
            let id_eq : event.stream_id ≡ id = ground (arith, b, bytes_eq→eq event.stream_id id) in
            let c' : current_stream_version s.log type id ≡ version =
              sym (ap₂ (current_stream_version s.log) type_eq id_eq) ∙ c in
            inl (type_eq, id_eq, c', ground (arith, b, c'))
      ]

  -- The version of a stream after an append, to it or to another one.
  pub version_after :
      (s : Store P T) (event : Event P) (version : ℕ) (now : ℤ) (type id : Bytes) {t : Store P T}
      → current_stream_version s.log event.stream_type event.stream_id ≡ version
      → append_prepared target s event (version + 1) now ≡ ok t
      → Advance
          (current_stream_version s.log type id)
          (current_stream_version t.log type id)
          event.stream_type
          event.stream_id
          version
          type
          id
  version_after s event version now type id {t = t} c h =
      let (log, _) = append_prepared-eq-ok s event (version + 1) now h in
      subst
        (λ rows.
          Advance (current_stream_version s.log type id) (current_stream_version rows type id)
            event.stream_type event.stream_id version type id)
        (sym log) (head_version s event version now type id c)

  pub version_after_own :
      (s : Store P T) (event : Event P) (version : ℕ) (now : ℤ) {t : Store P T}
      → current_stream_version s.log event.stream_type event.stream_id ≡ version
      → append_prepared target s event (version + 1) now ≡ ok t
      → current_stream_version t.log event.stream_type event.stream_id ≡ version + 1
  version_after_own s event version now c h =
      elim (version_after s event version now event.stream_type event.stream_id c h) [
        | inl (_, _, _, after) ↦ after
        | inr (other, _) ↦
            absurd (
              ground (arith, other, bytes_eq_refl event.stream_type, bytes_eq_refl event.stream_id))
      ]

  pub Step-le :
      {s t : Store P T} (type id : Bytes)
      → Step s t
      → current_stream_version s.log type id ≤ current_stream_version t.log type id
  Step-le {s} {t} type id (appended raw event version now made c h) =
      elim (version_after s event version now type id c h) [
        | inl (_, _, before, after) ↦ omega (arith, before, after)
        | inr (_, after) ↦ omega (arith, after)
      ]

  pub Reach-le :
      {s t : Store P T} (type id : Bytes)
      → Reach s t
      → current_stream_version s.log type id ≤ current_stream_version t.log type id
  Reach-le type id here = omega arith
  Reach-le type id (next r st) = omega (arith, Reach-le type id r, Step-le type id st)

  -- A pinned append needs the version that it was pinned to: once one has succeeded, every other one
  -- at that version is refused with a conflict, whatever was appended since and whatever it carries.
  pub append_pinned_once :
      (s t u : Store P T) (first second : Event P) (version : ℕ) (now later : ℤ)
      → append_pinned target s first version now ≡ ok t
      → Reach t u
      → second.stream_type ≡ first.stream_type
      → second.stream_id ≡ first.stream_id
      → append_pinned target u second version later ≡ err version_conflict
  unfolding append_pinned
  append_pinned_once s t u first second version now later h r type_eq id_eq =
      let current : current_stream_version s.log first.stream_type first.stream_id ≡ version =
        ground (arith, h) in
      let done : append_prepared target s first (version + 1) now ≡ ok t = ground (arith, h) in
      let least = Reach-le first.stream_type first.stream_id r in
      let after = version_after_own s first version now current done in
      ground (arith, after, least, type_eq, id_eq)

  -- A read of the tables that only the events of one stream change: while the version of that stream
  -- is as it was, the row is as it was, whatever other streams did.
  pub Reach-row :
      {R : Type 0} (row : T → R) (type id : Bytes)
      → ((tables tables' : T) (event : Persisted P)
          → event.stream_type ≡ target.stream_type
          → (bytes_eq event.stream_type type && bytes_eq event.stream_id id) ≡ false
          → target.project tables event ≡ ok tables'
          → row tables' ≡ row tables)
      → {s t : Store P T} → Reach s t
      → current_stream_version t.log type id ≡ current_stream_version s.log type id
      → row t.tables ≡ row s.tables
  Reach-row row type id local here e = refl
  Reach-row row type id local {s = s} (next {t = t} r (appended raw event version now made c h)) e =
      elim (version_after t event version now type id c h) [
        | inl (_, _, before, after) ↦ absurd (omega (arith, Reach-le type id r, before, after, e))
        | inr (other, after) ↦
            let (_, done) = append_prepared-eq-ok t event (version + 1) now h in
            local _ _ _ (prepare_event-stream_type raw made) other done
            ∙ Reach-row row type id local r (sym after ∙ e)
      ]
