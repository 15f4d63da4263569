-- ===== src/EventStore/Commits.antt =====
-- Every append of the event store (server/internal/store/store.go) that commits is a sequence of steps.
use power_manage.Shared.{
  ℕ, ◌+◌, ◌≡◌, refl, sym, ap₂, ◌∙◌, subst, inl, inr, List, [], ◌∷◌, ok, arith, Result-cases, All,
}
use power_manage.Shared.Int.{ℤ}
use power_manage.Shared.Bytes.{bytes_eq→eq}
use power_manage.EventStore.{
  Event, Store, Target, current_stream_version, append_prepared, append_pinned, prepare_event,
  prepare_batch, append_batch, append_events_with_version, append_event_with_version,
}
use power_manage.EventStore.Versions.{Step, appended, Reach, here, next, version_after_own}

module _ {P T E : Type 0} (target : Target P T E) where
  pub Reach-trans : {s t u : Store P T} → Reach target s t → Reach target t u → Reach target s u
  Reach-trans r here = r
  Reach-trans r (next r' st) = next (Reach-trans r r') st

  pub append_event_with_version-Step :
      (s : Store P T) (raw : Event P) (version : ℕ) (now : ℤ) {t : Store P T}
      → append_event_with_version target s raw version now ≡ ok t
      → Step target s t
  unfolding append_event_with_version append_pinned
  append_event_with_version-Step s raw version now {t = t} h =
      elim (Result-cases (prepare_event target raw)) [
        | inr (e, bad) ↦ absurd (ground (arith, bad, h))
        | inl (event, made) ↦
            appended raw event version now made (ground (arith, made, h)) (ground (arith, made, h))
      ]

  -- A prepared event, with what it was prepared from, of the stream of `first`.
  abbrev Prepared : Event P → Event P → Type 0
  Prepared first event =
      ((raw : Event P) × (prepare_event target raw ≡ ok event))
      × (event.stream_type ≡ first.stream_type)
      × (event.stream_id ≡ first.stream_id)

  prepare_batch-Prepared :
      (first : Event P) (events : List (Event P)) {prepared : List (Event P)}
      → prepare_batch target first events ≡ ok prepared
      → All (Prepared first) prepared
  unfolding prepare_batch
  prepare_batch-Prepared first [] {prepared = ps} h = let e : [] ≡ ps = cc in rw (← e) tt
  prepare_batch-Prepared first (raw ∷ events) {prepared = ps} h =
      elim (Result-cases (prepare_event target raw)) [
        | inr (x, bad) ↦ absurd (ground (arith, bad, h))
        | inl (p, made) ↦ elim (Result-cases (prepare_batch target first events)) [
          | inr (x, bad) ↦ absurd (ground (arith, made, bad, h))
          | inl (rest, more) ↦
              let e : p ∷ rest ≡ ps = ground (arith, made, more, h) in
              rw (← e) (
                (
                  (raw, made),
                  ground (arith, made, more, h, bytes_eq→eq p.stream_type first.stream_type),
                  ground (arith, made, more, h, bytes_eq→eq p.stream_id first.stream_id),
                ),
                prepare_batch-Prepared first events more,
              )
        ]
      ]

  append_batch-Reach :
      (s : Store P T) (first : Event P) (events : List (Event P)) (version : ℕ) (now : ℤ)
      {t : Store P T}
      → All (Prepared first) events
      → current_stream_version s.log first.stream_type first.stream_id ≡ version
      → append_batch target s events version now ≡ ok t
      → Reach target s t
  unfolding append_batch
  append_batch-Reach s first [] version now {t = t} ps c h =
      let e : s ≡ t = ground (arith, h) in subst (Reach target s) e here
  append_batch-Reach s first (event ∷ events) version now {t = t}
        (((raw, made), type_eq, id_eq), ps) c h =
      elim (Result-cases (append_prepared target s event (version + 1) now)) [
        | inr (x, bad) ↦ absurd (ground (arith, bad, h))
        | inl (u, done) ↦
            let current : current_stream_version s.log event.stream_type event.stream_id ≡ version =
              ap₂ (current_stream_version s.log) type_eq id_eq ∙ c in
            let after : current_stream_version u.log first.stream_type first.stream_id
                ≡ version + 1 =
              sym (ap₂ (current_stream_version u.log) type_eq id_eq)
              ∙ version_after_own target s event version now current done in
            Reach-trans (next here (appended raw event version now made current done)) (
              append_batch-Reach u first events (version + 1) now ps after
                (ground (arith, done, h)))
      ]

  pub append_events_with_version-Reach :
      (s : Store P T) (events : List (Event P)) (version : ℕ) (now : ℤ) {t : Store P T}
      → append_events_with_version target s events version now ≡ ok t
      → Reach target s t
  unfolding append_events_with_version
  append_events_with_version-Reach s [] version now {t = t} h =
      let e : s ≡ t = ground (arith, h) in subst (Reach target s) e here
  append_events_with_version-Reach s (raw ∷ events) version now {t = t} h =
      elim (Result-cases (prepare_event target raw)) [
        | inr (x, bad) ↦ absurd (ground (arith, bad, h))
        | inl (first, made) ↦ elim (Result-cases (prepare_batch target first events)) [
          | inr (x, bad) ↦ absurd (ground (arith, made, bad, h))
          | inl (rest, more) ↦
              append_batch-Reach s first (first ∷ rest) version now
                (((raw, made), refl, refl), prepare_batch-Prepared first events more)
                (ground (arith, made, more, h)) (ground (arith, made, more, h))
        ]
      ]
