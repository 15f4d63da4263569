-- ===== src/EventStore.antt =====
-- The append path of the event store (server/internal/store/store.go), over one rebuild target with one
-- stream type: its events with their decoded payloads, and its tables with their projector.
pub mod Versions
pub mod Replay
pub mod Batches
pub mod Commits
pub mod Loop
use power_manage.Shared.{
  ℕ, zero, suc, ◌+◌, ◌-◌, ◌^◌, Bool, true, false, ◌&&◌, ◌||◌, not, List, [], ◌∷◌, Option, none,
  some, Result, ok, err, ◌>>=◌, ◌>>◌, reject_if, ltb, leb, ◌==◌, if◌then◌else◌, length, any,
}
use power_manage.Shared.Int.{ℤ}
use power_manage.Shared.Bytes.{Bytes, bytes_eq, codes, trim_space}
use power_manage.Ulid.{ulid_path_id, to_upper}

-- `EventType`, `PayloadVersion` and `Payload` are one value, which the strict decoder returned.
pub record Event (P : Type 0) : Type 0 where
  pub stream_type : Bytes
  pub stream_id : Bytes
  pub payload : P

pub record Persisted (P : Type 0) : Type 0 where
  pub stream_type : Bytes
  pub stream_id : Bytes
  pub payload : P
  pub stream_version : ℕ
  pub created_at : ℤ

pub data StoreError (E : Type 0) : Type 0 where
  empty_stream_type invalid_stream_id outside_target : StoreError E
  version_conflict version_overflow mixed_streams append_wait_failed : StoreError E
  projection_failed : E → StoreError E

-- The `events` table, newest row first, and the tables of the target.
pub record Store (P T : Type 0) : Type 0 where
  pub log : List (Persisted P)
  pub tables : T

-- One pass of `AppendEvent`: the store when it reads the version, the one that its insert meets, its
-- time, and whether the wait after a conflict ends before the context does.
pub record AppendRound (P T : Type 0) : Type 0 where
  pub seen : Store P T
  pub current : Store P T
  pub committed_at : ℤ
  pub waited : Bool

-- What a rebuild target registers: its stream type and its projector.
pub record Target (P T E : Type 0) : Type 0 where
  pub stream_type : Bytes
  pub project : T → Persisted P → Result E T

abbrev larger : ℕ → ℕ → ℕ
larger a b = if ltb a b then b else a

abbrev pub valid_id : Bytes → Bool
valid_id id = elim (ulid_path_id id) [ ok _ ↦ true | err _ ↦ false ]

abbrev pub max_int64 : ℕ
max_int64 = 2 ^ 63 - 1

-- `isStreamVersionConflict`.
abbrev pub is_conflict : {E : Type 0} → StoreError E → Bool
is_conflict version_conflict = true
is_conflict _ = false

-- The streams of CA rotations are named by a certificate class, in lower case.
abbrev pub ca_rotation_stream_type : Bytes
ca_rotation_stream_type = codes "ca-rotation"

module _ {P : Type 0} where
  unfoldable pub rotation_class_id : Event P → Bool
  rotation_class_id event =
      bytes_eq event.stream_type ca_rotation_stream_type
      && (bytes_eq event.stream_id (codes "agent") || bytes_eq event.stream_id (codes "gateway"))

  unfoldable pub stored_id : Event P → Bytes
  stored_id event =
      if bytes_eq event.stream_type ca_rotation_stream_type
      then event.stream_id
      else to_upper event.stream_id

  abbrev pub in_stream : Bytes → Bytes → Persisted P → Bool
  in_stream type id row = bytes_eq row.stream_type type && bytes_eq row.stream_id id

  -- `CurrentStreamVersion`: `COALESCE(MAX(stream_version), 0)`.
  unfoldable pub current_stream_version : List (Persisted P) → Bytes → Bytes → ℕ
  current_stream_version [] type id = 0
  current_stream_version (row ∷ rows) type id =
      let rest = current_stream_version rows type id in
      if in_stream type id row then larger row.stream_version rest else rest

  -- The UNIQUE constraint of the table.
  unfoldable pub version_taken : List (Persisted P) → Bytes → Bytes → ℕ → Bool
  version_taken rows type id version =
      any (λ row. in_stream type id row && row.stream_version == version) rows

  abbrev pub persisted : Event P → ℕ → ℤ → Persisted P
  persisted event version now = record {
    stream_type = event.stream_type;
    stream_id = event.stream_id;
    payload = event.payload;
    stream_version = version;
    created_at = now;
  }

abbrev pub projected : {T E : Type 0} → Result E T → Result (StoreError E) T
projected (ok t) = ok t
projected (err e) = err (projection_failed e)

module _ {P T E : Type 0} where
  -- `validateEvent` and `prepareEvent`. Its type, payload version and payload are those of the decoded
  -- value, so the checks of them have passed.
  unfoldable pub prepare_event : Target P T E → Event P → Result (StoreError E) (Event P)
  prepare_event target event = do
    reject_if (length (trim_space event.stream_type) == 0) empty_stream_type
    reject_if (not (valid_id event.stream_id) && not (rotation_class_id event)) invalid_stream_id
    reject_if (not (bytes_eq event.stream_type target.stream_type)) outside_target
    ok (record event { stream_id = stored_id event })

  -- `appendPrepared` of an event that does not touch administrators; `now` is the transaction's time.
  unfoldable pub append_prepared :
      Target P T E → Store P T → Event P → ℕ → ℤ → Result (StoreError E) (Store P T)
  append_prepared target s event version now = do
    reject_if (version_taken s.log event.stream_type event.stream_id version) version_conflict
    tables ← projected (target.project s.tables (persisted event version now))
    ok (record { log = persisted event version now ∷ s.log; tables = tables })

  -- `AppendEventWithVersion` of a canonical event, in its transaction.
  unfoldable pub append_pinned :
      Target P T E → Store P T → Event P → ℕ → ℤ → Result (StoreError E) (Store P T)
  append_pinned target s event expected now = do
    reject_if (not (current_stream_version s.log event.stream_type event.stream_id == expected))
        version_conflict
    append_prepared target s event (expected + 1) now

  unfoldable pub append_event_with_version :
      Target P T E → Store P T → Event P → ℕ → ℤ → Result (StoreError E) (Store P T)
  append_event_with_version target s event expected now = do
    prepared ← prepare_event target event
    append_pinned target s prepared expected now

  -- One transaction of `AppendEvent`: it reads the version in `seen`, and inserts at the one after it
  -- into `current`, which other transactions may have changed since.
  unfoldable pub append_auto_once :
      Target P T E → Store P T → Store P T → Event P → ℤ → Result (StoreError E) (Store P T)
  append_auto_once target seen current event now =
      append_prepared target current event
        (current_stream_version seen.log event.stream_type event.stream_id + 1) now

  -- The loop of `AppendEvent`, which has no bound of its own: `none` when the rounds that it is given
  -- are used up.
  unfoldable pub append_loop :
      Target P T E
      → Event P
      → (ℕ → AppendRound P T)
      → ℕ
      → ℕ
      → Option (Result (StoreError E) (Store P T))
  append_loop target event rounds attempt zero = none
  append_loop target event rounds attempt (suc left) =
      let again = append_loop target event rounds (suc attempt) left in
      let round = rounds attempt in
      elim (append_auto_once target round.seen round.current event round.committed_at) [
        | ok t ↦ some (ok t)
        | err e ↦
            if is_conflict e
            then (if round.waited then again else some (err append_wait_failed))
            else some (err e)
      ]

  -- `AppendEvent`, for a number of rounds.
  unfoldable pub append_event :
      Target P T E
      → (ℕ → AppendRound P T)
      → Event P
      → ℕ
      → Option (Result (StoreError E) (Store P T))
  append_event target rounds event fuel = elim (prepare_event target event) [
    | err e ↦ some (err e)
    | ok prepared ↦ append_loop target prepared rounds 0 fuel
  ]

  -- The first loop of `AppendEventsWithVersion`, with the first prepared event of the batch.
  unfoldable pub prepare_batch :
      Target P T E → Event P → List (Event P) → Result (StoreError E) (List (Event P))
  prepare_batch target first [] = ok []
  prepare_batch target first (event ∷ events) = do
    prepared ← prepare_event target event
    reject_if
        (not (bytes_eq prepared.stream_type first.stream_type)
          || not (bytes_eq prepared.stream_id first.stream_id))
        mixed_streams
    rest ← prepare_batch target first events
    ok (prepared ∷ rest)

  -- The second loop.
  unfoldable pub append_batch :
      Target P T E → Store P T → List (Event P) → ℕ → ℤ → Result (StoreError E) (Store P T)
  append_batch target s [] version now = ok s
  append_batch target s (event ∷ events) version now = do
    next ← append_prepared target s event (version + 1) now
    append_batch target next events (version + 1) now

  -- `AppendEventsWithVersion`.
  unfoldable pub append_events_with_version :
      Target P T E → Store P T → List (Event P) → ℕ → ℤ → Result (StoreError E) (Store P T)
  append_events_with_version target s [] expected now = ok s
  append_events_with_version target s (event ∷ events) expected now = do
    reject_if (ltb (max_int64 - expected) (length (event ∷ events))) version_overflow
    first ← prepare_event target event
    rest ← prepare_batch target first events
    reject_if (not (current_stream_version s.log first.stream_type first.stream_id == expected))
        version_conflict
    append_batch target s (first ∷ rest) expected now

  -- What the log means: the projectors over it, from the oldest row on.
  unfoldable pub replay : Target P T E → T → List (Persisted P) → Result E T
  replay target empty [] = ok empty
  replay target empty (row ∷ rows) = do before ← replay target empty rows; target.project before row
