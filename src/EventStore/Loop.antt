-- ===== src/EventStore/Loop.antt =====
-- The retry loop of `AppendEvent` (server/internal/store/store.go).
use power_manage.Shared.{ℕ, ◌+◌, ◌≡◌, ◌⊎◌, some, Option, ◌∷◌, ok, err, Result}
use power_manage.Shared.Int.{ℤ}
use power_manage.EventStore.{
  Event, Persisted, StoreError, projection_failed, Store, Target, AppendRound,
  current_stream_version, persisted,
}

module _ {P T E : Type 0} (target : Target P T E) (empty : T) where
  -- The version of the stream of an event.
  abbrev version_at : Store P T → Event P → ℕ
  version_at s event = current_stream_version s.log event.stream_type event.stream_id

  -- The row that a pass of `AppendEvent` which nobody disturbs inserts.
  abbrev pub row_after : Store P T → Event P → ℤ → Persisted P
  row_after s event now = persisted event (version_at s event + 1) now

  -- The event is stored after the current version, with the tables that its projector made.
  abbrev pub IsStored : Store P T → Event P → ℤ → Store P T → Type 0
  IsStored s event now t =
      (t.log ≡ row_after s event now ∷ s.log)
      × (target.project s.tables (row_after s event now) ≡ ok t.tables)

  -- How `AppendEvent` ends when its context lives: in a pass the event was stored in the store that it
  -- met, or its projector refused it there.
  abbrev pub EndsIn :
      AppendRound P T → Event P → Option (Result (StoreError E) (Store P T)) → Type 0
  EndsIn round event outcome =
      ((t : Store P T) × (outcome ≡ some (ok t))
        × IsStored round.current event round.committed_at t)
      ⊎ ((x : E) × (outcome ≡ some (err (projection_failed x)))
          × (target.project round.current.tables (row_after round.current event round.committed_at)
              ≡ err x))
