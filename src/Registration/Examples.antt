-- ===== src/Registration/Examples.antt =====
-- Registration tokens at concrete inputs (server/internal/store/registration_tokens.go and
-- server/internal/pki/registration_tokens.go), over the event store (server/internal/store/store.go).
mod Minting
mod Log
mod Service
mod Lifetime
use power_manage.Shared.{
  ℕ, zero, suc, ◌≡◌, refl, Bool, true, false, ◌&&◌, ◌||◌, List, [], ◌∷◌, ◌++◌, Option, some, ok,
  all, leb, ◌==◌,
}
use power_manage.Shared.Int.{ℤ, pos}
use power_manage.Shared.Bytes.{Bytes, codes, bytes_eq, trim_space}
use power_manage.Shared.Utf8.{valid_utf8}
use power_manage.Ulid.{ulid_path_id, is_canonical_ulid}
use power_manage.EventStore.{
  stored_id, Event, append_event_with_version, append_pinned, append_prepared, prepare_event,
  current_stream_version, version_taken, persisted, Target,
}
use power_manage.EventStore.Versions.{Reach, here, next}
use power_manage.EventStore.Commits.{append_event_with_version-Step}
use power_manage.EventStore.Replay.{empty_store}
use power_manage.Registration.{
  RegistrationPayload, RegistrationError, token_minted, token_consumed, token_disabled, agent,
  event_of, validate_registration_token_metadata, validate_registration_token_owner,
  validate_registration_token_purpose,
}
use power_manage.Registration.Tables.{
  TokenRow, get_registration_token, remove_row, update_token, project_token_consume,
  project_token_disable, upsert_registration_token, hash_taken,
}
use power_manage.Registration.Project.{
  registration_token_target, validate_projection_result, project_token_mint, project_token_event,
  project_token_consumed, project_token_disabled,
}
use power_manage.Registration.Invariant.{TokenStore}
use power_manage.Registration.Service.{
  Round, parse_registration_token, split_at, RegistrationTokenGrant, ParsedToken,
}

abbrev token : Bytes
token = codes "01K0QJ3E5E8R4M0D8EV3Y4N6J7"

-- Stand-ins for the parameters: a name of digits and dots is an address, the digest of a text is the
-- text, and 43 characters decode to their first 32.
abbrev is_ip : Bytes → Bool
is_ip s = all (λ c. leb b'0' c && leb c b'9' || c == b'.') s

abbrev digest : Bytes → Bytes
digest s = s

abbrev decode : Bytes → Option Bytes
decode s = some ((split_at 32 s).0)

abbrev repeated : ℕ → ℕ → Bytes
repeated zero b = []
repeated (suc n) b = b ∷ repeated n b

abbrev secret : Bytes
secret = repeated 32 b'A'

abbrev wire : Bytes
wire = token ++ (b'.' ∷ repeated 43 b'A')

abbrev the_target : Target RegistrationPayload (List TokenRow) RegistrationError
the_target = registration_token_target is_ip

abbrev mint_raw : Event RegistrationPayload
mint_raw = event_of token (
    token_minted
      (record { token_hash = secret; max_uses = 1; expires_at = pos 100; owner = codes "alice" }))

abbrev row : ℕ → ℕ → Bool → ℤ → TokenRow
row version uses disabled now = record {
  token_id = token;
  projection_version = version;
  token_hash = secret;
  purpose = agent;
  dns_names = [];
  max_uses = 1;
  uses = uses;
  expires_at = pos 100;
  owner = codes "alice";
  disabled = disabled;
  updated_at = now;
}

abbrev minted : TokenStore
minted = record { log = persisted mint_raw 1 (pos 1) ∷ []; tables = row 1 0 false (pos 1) ∷ [] }

abbrev use_event : Event RegistrationPayload
use_event = event_of token token_consumed

abbrev off_event : Event RegistrationPayload
off_event = event_of token token_disabled

abbrev used : TokenStore
used = record {
  log = persisted use_event 2 (pos 2) ∷ minted.log;
  tables = row 2 1 false (pos 2) ∷ [];
}

abbrev off : TokenStore
off = record {
  log = persisted off_event 2 (pos 2) ∷ minted.log;
  tables = row 2 0 true (pos 2) ∷ [];
}

mints : append_event_with_version the_target (empty_store []) mint_raw 0 (pos 1) ≡ ok minted
unfolding append_event_with_version append_pinned append_prepared prepare_event stored_id trim_space
    bytes_eq ulid_path_id current_stream_version version_taken project_token_event
    project_token_mint project_token_consumed project_token_disabled project_token_consume
    project_token_disable upsert_registration_token get_registration_token is_canonical_ulid
    hash_taken remove_row update_token validate_projection_result
    validate_registration_token_metadata validate_registration_token_owner
    validate_registration_token_purpose valid_utf8
mints = refl

uses : append_event_with_version the_target minted use_event 1 (pos 2) ≡ ok used
unfolding append_event_with_version append_pinned append_prepared prepare_event stored_id trim_space
    bytes_eq ulid_path_id current_stream_version version_taken project_token_event
    project_token_mint project_token_consumed project_token_disabled project_token_consume
    project_token_disable upsert_registration_token get_registration_token is_canonical_ulid
    hash_taken remove_row update_token validate_projection_result
    validate_registration_token_metadata validate_registration_token_owner
    validate_registration_token_purpose valid_utf8
uses = refl

turns_off : append_event_with_version the_target minted off_event 1 (pos 2) ≡ ok off
unfolding append_event_with_version append_pinned append_prepared prepare_event stored_id trim_space
    bytes_eq ulid_path_id current_stream_version version_taken project_token_event
    project_token_mint project_token_consumed project_token_disabled project_token_consume
    project_token_disable upsert_registration_token get_registration_token is_canonical_ulid
    hash_taken remove_row update_token validate_projection_result
    validate_registration_token_metadata validate_registration_token_owner
    validate_registration_token_purpose valid_utf8
turns_off = refl

Reach-minted : Reach the_target (empty_store []) minted
Reach-minted =
    next here (append_event_with_version-Step the_target (empty_store []) mint_raw 0 (pos 1) mints)

Reach-used : Reach the_target (empty_store []) used
Reach-used =
    next Reach-minted (append_event_with_version-Step the_target minted use_event 1 (pos 2) uses)

Reach-off : Reach the_target minted off
Reach-off =
    next here (append_event_with_version-Step the_target minted off_event 1 (pos 2) turns_off)

abbrev round : TokenStore → TokenStore → Round
round seen current = record {
  seen = seen;
  current = current;
  checked_at = pos 2;
  committed_at = pos 2;
  live = true;
  waited = true;
}

abbrev quiet : ℕ → Round
quiet n = round minted minted

-- Another use of the token is stored between every read and its append.
abbrev busy : ℕ → Round
busy n = round minted used

abbrev grant : RegistrationTokenGrant
grant = record { token_id = token; owner = codes "alice"; purpose = agent; dns_names = [] }

abbrev parsed : ParsedToken
parsed = parse_registration_token is_ip digest decode wire
