-- ===== src/Lib.antt =====
-- Verification library of Power Manage: models of the parts of the repository that decide trust, access
-- and sessions, with the theorems that make them correct.
--
-- The parts and their files:
--   - Ulid: the two ULID grammars (contract/identity/identity.go `IsCanonicalULID`,
--     sdk/validate/names.go `ULIDPathID`), which all other parts use for their identifiers.
--   - Sign: the signed envelopes of contract/sign. Sign/Frame is the length-prefixed framing, Sign/Keys
--     the key validation, Sign/Command `CommandPreimage`, `SignCommand` and `VerifyCommand`,
--     Sign/Envelope the same for device results, Sign/TrustState the CA-continuity claims; Sign/Domains
--     is about their domain-separation strings.
--   - Authz: Authz/Catalog and Authz/Grants are server/internal/authz/catalog.go and grants.go;
--     Authz/Gate is `AuthorizeContext` of server/internal/auth/authorization.go, which asks a resolver
--     for the access that `Resolve` of Authz/Grants computes.
--   - RateLimit: `FailureLadder` of server/internal/auth/ratelimit.go. `allow` takes the ladder and
--     returns the new one with the answer; the ladder's mutex makes each call one step.
--   - Refresh: server/internal/store/refresh_families.go. Refresh/Tables holds the two tables with the
--     constraints of their migration and the SQL statements, Refresh/Project the projectors; a failed
--     projection is a rolled-back transaction, so it returns an error and no tables.
--   - EventStore: the append paths of server/internal/store/store.go over one rebuild target, which is a
--     parameter: `AppendEvent`, `AppendEventWithVersion` and `AppendEventsWithVersion`. A store is the
--     `events` table with the tables of the target. EventStore/Versions has the steps that committed
--     appends make, `Step` and `Reach`: an interleaving of transactions is a sequence of them.
--     EventStore/Loop is about the retry loop of `AppendEvent`; the other files are about the log,
--     batches and commits.
--   - Registration: registration tokens. Registration.antt has the payloads, validation and events of
--     server/internal/store/registration_tokens.go, Registration/Tables the table and its statements,
--     Registration/Project the projectors, which are the target that the event store gets;
--     Registration/Service and Registration/Mint are server/internal/pki/registration_tokens.go, which
--     reads that table and appends at the version it read. Effect, Life, Local, Counted, Invariant and
--     Steps are about one token over all appends, Registration/Metadata has the reads for management;
--     Claims, Loop, Consume, Progress, Granted, Refused, Fresh and Minted are about the service.
--     Ulid/Encode is its ULID encoder.
--   - Shared: tests, lists, results, integers, byte strings, byte order and UTF-8.
-- Each module `Examples` holds runs at concrete inputs.
--
-- How the code is represented: strings and byte slices are lists of byte values; instants are
-- nanoseconds from Go's zero time, as unbounded integers, and `Time.Sub` saturates as in Go; pairs
-- of a value and an error are the sum `Result`, with one constructor per error of the source; nil
-- pointers are `none`; maps are association lists; `strings.TrimSpace` and `strings.ToUpper` are
-- modelled on ASCII text (the upper-casing is of text that `ULIDPathID` accepted); sorting is
-- insertion sort, which is stable. Loops over lists are structural recursion. The retry loop of
-- the token service is recursion on the attempts that are left, 1024 at first as in the source;
-- what each pass finds (the store that it reads, the store that its append meets, the clock, the
-- ends of its waits) is an argument, a `Round` for each attempt. The retry loop of `AppendEvent`
-- has no bound but its context: it is recursion on fuel over an `AppendRound` for each pass, and
-- any fuel above the number of a pass that no other append disturbs is enough. The inner loop of
-- the ULID encoder has as many rounds as it has bits, and takes five bits a round. Unsigned 64-bit
-- and 32-bit encodings write out their wrap-around.
--
-- What is a parameter: the cryptographic primitives of Go's standard library (record `Primitives`, with
-- calls that may fail or panic), SHA-256, base64, `net.ParseIP`, and the protobuf runtime's conversion of
-- a timestamp. PostgreSQL is modelled as far as the statements and constraints say; committed
-- transactions are taken one after the other. A `timestamptz` keeps microseconds: the model keeps a time
-- as it is, and so the times of payloads stand for whole microseconds. The counts of a payload are the
-- numbers of a decoded `int32`.
--
-- What is not modelled: the JSON encoding of event payloads; `AppendEvents` over several streams and the
-- last-administrator guard of the event store, and the rebuild's order by stream; the lengths of waits;
-- the refresh service, the other projections, the client-IP resolver, the agent and gateway processes,
-- and all network and operating-system I/O.
pub mod Shared
pub mod Ulid
pub mod Sign
pub mod Authz
pub mod RateLimit
pub mod Refresh
pub mod EventStore
pub mod Registration
