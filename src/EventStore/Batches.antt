-- ===== src/EventStore/Batches.antt =====
-- Batches of the event store (server/internal/store/store.go `AppendEventsWithVersion`) against single
-- appends.
use power_manage.Shared.{
  ℕ, ◌+◌, ◌^◌, ◌<◌, ◌≡◌, refl, sym, ap₂, ◌∙◌, inl, inr, false, List, [], ◌∷◌, Result, ok, err,
  ◌>>=◌, ◌==◌, length, arith, Result-cases, Bool-cases, All,
}
use power_manage.Shared.Int.{ℤ}
use power_manage.Shared.Bytes.{bytes_eq→eq}
use power_manage.EventStore.{
  Event, StoreError, version_conflict, Store, Target, current_stream_version, append_prepared,
  append_pinned, prepare_event, prepare_batch, append_batch, append_events_with_version,
}
use power_manage.EventStore.Versions.{version_after_own}

module _ {P T E : Type 0} (target : Target P T E) where
  abbrev InStream : Event P → Event P → Type 0
  InStream first event =
      (event.stream_type ≡ first.stream_type) × (event.stream_id ≡ first.stream_id)

  -- Successive pinned appends, each at the version that the one before left.
  unfoldable pub append_one_by_one :
      Store P T → List (Event P) → ℕ → ℤ → Result (StoreError E) (Store P T)
  append_one_by_one s [] version now = ok s
  append_one_by_one s (event ∷ events) version now = do
    stepped ← append_pinned target s event version now
    append_one_by_one stepped events (version + 1) now

  append_batch-append_one_by_one :
      (s : Store P T) (first : Event P) (events : List (Event P)) (version : ℕ) (now : ℤ)
      → All (InStream first) events
      → current_stream_version s.log first.stream_type first.stream_id ≡ version
      → append_batch target s events version now ≡ append_one_by_one s events version now
  unfolding append_batch append_one_by_one append_pinned
  append_batch-append_one_by_one s first [] version now h c = refl
  append_batch-append_one_by_one s first (event ∷ events) version now (same, rest) c =
      let current : current_stream_version s.log event.stream_type event.stream_id ≡ version =
        ap₂ (current_stream_version s.log) same.0 same.1 ∙ c in
      elim (Result-cases (append_prepared target s event (version + 1) now)) [
        | inr (e, bad) ↦ ground (arith, bad, current)
        | inl (t, done) ↦
            let after : current_stream_version t.log first.stream_type first.stream_id
                ≡ version + 1 =
              sym (ap₂ (current_stream_version t.log) same.0 same.1)
              ∙ version_after_own target s event version now current done in
            ground (
              arith,
              done,
              current,
              append_batch-append_one_by_one t first events (version + 1) now rest after,
            )
      ]

  prepare_batch-InStream :
      (first : Event P) (events : List (Event P)) {prepared : List (Event P)}
      → prepare_batch target first events ≡ ok prepared
      → All (InStream first) prepared
  unfolding prepare_batch
  prepare_batch-InStream first [] {prepared = ps} h = let e : [] ≡ ps = cc in rw (← e) tt
  prepare_batch-InStream first (event ∷ events) {prepared = ps} h =
      elim (Result-cases (prepare_event target event)) [
        | inr (x, bad) ↦ absurd (ground (arith, bad, h))
        | inl (p, made) ↦ elim (Result-cases (prepare_batch target first events)) [
          | inr (x, bad) ↦ absurd (ground (arith, made, bad, h))
          | inl (rest, more) ↦
              let e : p ∷ rest ≡ ps = ground (arith, made, more, h) in
              rw (← e) (
                (
                  ground (arith, made, more, h, bytes_eq→eq p.stream_type first.stream_type),
                  ground (arith, made, more, h, bytes_eq→eq p.stream_id first.stream_id),
                ),
                prepare_batch-InStream first events more,
              )
        ]
      ]

  conflict_first :
      (s : Store P T) (first : Event P) (rest : List (Event P)) (version : ℕ) (now : ℤ)
      → (current_stream_version s.log first.stream_type first.stream_id == version) ≡ false
      → append_one_by_one s (first ∷ rest) version now ≡ err version_conflict
  unfolding append_one_by_one append_pinned
  conflict_first s first rest version now c = ground (arith, c)

  -- A batch that is prepared and not too long does what the single pinned appends of its events do one
  -- after the other: the same final store, or the error of the append that fails.
  pub append_events_with_version-append_one_by_one :
      (s : Store P T) (event first : Event P) (events rest : List (Event P)) (version : ℕ) (now : ℤ)
      → length (event ∷ events) + version < 2 ^ 63
      → prepare_event target event ≡ ok first
      → prepare_batch target first events ≡ ok rest
      → append_events_with_version target s (event ∷ events) version now
        ≡ append_one_by_one s (first ∷ rest) version now
  unfolding append_events_with_version
  append_events_with_version-append_one_by_one s event first events rest version now fits made
        more =
      elim (Bool-cases
        (current_stream_version s.log first.stream_type first.stream_id == version)) [
          | inl c ↦
              let same =
                append_batch-append_one_by_one s first (first ∷ rest) version now
                  ((refl, refl), prepare_batch-InStream first events more) (ground (arith, c)) in
              ground (arith, fits, made, more, c, same)
          | inr c ↦ ground (arith, fits, made, more, c, conflict_first s first rest version now c)
        ]
