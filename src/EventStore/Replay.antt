-- ===== src/EventStore/Replay.antt =====
-- What the log and the tables of the event store keep (server/internal/store/store.go), from an empty
-- store over all appends.
use power_manage.Shared.{
  ℕ, ◌+◌, ◌≡◌, ◌≢◌, refl, ap, ◌∙◌, inl, inr, false, ◌&&◌, [], ◌∷◌, ok, err, leb, arith,
  Result-cases,
}
use power_manage.Shared.Int.{ℤ}
use power_manage.Shared.Bytes.{Bytes, bytes_eq_refl}
use power_manage.EventStore.{
  Event, version_conflict, projection_failed, Store, Target, current_stream_version, version_taken,
  persisted, append_prepared, append_pinned, replay, prepare_event, append_event_with_version,
}
use power_manage.EventStore.Versions.{
  appended, Reach, here, next, append_prepared-eq-ok, version_after,
}

abbrev pub empty_store : {P T : Type 0} → T → Store P T
empty_store empty = record { log = []; tables = empty }

module _ {P T E : Type 0} (target : Target P T E) (empty : T) where
  -- In every store that appends lead to, the tables are what the log means: the projectors, applied to
  -- the rows of the log in the order in which they were appended, give them, and none of them fails.
  pub replay-Reach :
      (s : Store P T) → Reach target (empty_store empty) s → replay target empty s.log ≡ ok s.tables
  unfolding replay
  replay-Reach s here = refl
  replay-Reach s (next {t = t} r (appended raw event version now made c h)) =
      let (log, done) = append_prepared-eq-ok target t event (version + 1) now h in
      let before = replay-Reach t r in ap (replay target empty) log ∙ rw before done

  -- The versions of a stream that are taken are those from 1 to its current version, without a gap.
  pub version_taken-Reach :
      (s : Store P T) (type id : Bytes) (version : ℕ)
      → Reach target (empty_store empty) s
      → version_taken s.log type id version
        ≡ (leb 1 version && leb version (current_stream_version s.log type id))
  unfolding version_taken current_stream_version
  version_taken-Reach s type id v here = ground arith
  version_taken-Reach s type id v (next {t = t} r (appended raw event version now made c h)) =
      let (log, _) = append_prepared-eq-ok target t event (version + 1) now h in
      let before = version_taken-Reach t type id v r in
      let after = version_after target t event version now type id c h in
      ap (λ rows. version_taken rows type id v) log ∙ elim after [
        | inl (type_eq, id_eq, old, new) ↦
            ground (arith, type_eq, id_eq, bytes_eq_refl type, bytes_eq_refl id, before, old, new)
        | inr (other, same) ↦ ground (arith, other, before, same)
      ]

  pub append_prepared-succeeds :
      (s : Store P T) (event : Event P) (version : ℕ) (now : ℤ) (tables : T)
      → version_taken s.log event.stream_type event.stream_id version ≡ false
      → target.project s.tables (persisted event version now) ≡ ok tables
      → append_prepared target s event version now
        ≡ ok (record { log = persisted event version now ∷ s.log; tables = tables })
  unfolding append_prepared
  append_prepared-succeeds s event version now tables free e = ground (arith, free, e)

  pub append_prepared-fails :
      (s : Store P T) (event : Event P) (version : ℕ) (now : ℤ) (x : E)
      → version_taken s.log event.stream_type event.stream_id version ≡ false
      → target.project s.tables (persisted event version now) ≡ err x
      → append_prepared target s event version now ≡ err (projection_failed x)
  unfolding append_prepared
  append_prepared-fails s event version now x free e = ground (arith, free, e)

  -- A pinned append that is refused with a conflict was pinned to another version than the current one.
  pub append_event_with_version-version_conflict :
      (s : Store P T) (event : Event P) (expected : ℕ) (now : ℤ)
      → Reach target (empty_store empty) s
      → append_event_with_version target s event expected now ≡ err version_conflict
      → (prepared : Event P) × (prepare_event target event ≡ ok prepared)
        × (current_stream_version s.log prepared.stream_type prepared.stream_id ≢ expected)
  unfolding append_event_with_version append_pinned prepare_event
  append_event_with_version-version_conflict s event expected now r h =
      elim (Result-cases (prepare_event target event)) [
        | inr (x, bad) ↦ absurd (ground (arith, bad, h))
        | inl (prepared, made) ↦ (
          prepared,
          made,
          λ is.
              let free : version_taken s.log prepared.stream_type prepared.stream_id (expected + 1)
                  ≡ false =
                ground (
                  arith,
                  version_taken-Reach s prepared.stream_type prepared.stream_id (expected + 1) r,
                  is,
                ) in
              elim (Result-cases
                (target.project s.tables (persisted prepared (expected + 1) now))) [
                  | inl (tables, e) ↦ absurd (
                      ground (
                        arith,
                        made,
                        is,
                        h,
                        append_prepared-succeeds s prepared (expected + 1) now tables free e,
                      ))
                  | inr (x, e) ↦ absurd (
                      ground (
                        arith,
                        made,
                        is,
                        h,
                        append_prepared-fails s prepared (expected + 1) now x free e,
                      ))
                ],
        )
      ]
