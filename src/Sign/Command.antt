-- ===== src/Sign/Command.antt =====
-- contract/sign/sign.go: the SignedCommand envelope, its preimage, `SignCommand`, `VerifyCommand`.
pub mod Window
pub mod Covered
pub mod Accept
use power_manage.Shared.{
  ℕ, Bool, true, false, ◌&&◌, ◌||◌, not, List, [], ◌∷◌, Option, none, some, Result, ok, err, ◌>>=◌,
  ◌>>◌, reject_if, require, ltb, ◌==◌, if◌then◌else◌, length, ◌^◌, ◌-◌, ◌*◌,
}
use power_manage.Shared.Int.{ℤ, pos, negsuc, ltb_ℤ, ◌-ℤ◌}
use power_manage.Shared.Bytes.{Bytes, codes, bytes_eq}
use power_manage.Ulid.{is_canonical_ulid}
use power_manage.Sign.Frame.{Timestamp, ts_bytes, lp_all}
use power_manage.Sign.Keys.{
  Key, KeyError, Primitives, validate_signing_key, check_signature, SignatureCheck, valid_signature,
  invalid_signature, unsupported_verifying_key,
}

pub record SignedCommand : Type 0 where
  pub command_type : Bytes
  pub target_device_id : Bytes
  pub issued_at : Option Timestamp
  pub expires_at : Option Timestamp
  pub payload : Bytes
  pub signature : Bytes

pub data CommandError : Type 0 where
  key_rejected : KeyError → CommandError
  unknown_command_type empty_payload missing_timestamp target_not_ulid : CommandError
  signing_failed now_unset wrong_device bad_signature unsupported_key : CommandError
  issued_after_expires issued_in_future expired instant_window terminal_window : CommandError

abbrev terminal_grant_type : Bytes
terminal_grant_type = codes "terminal-grant"

-- `commandDomains`, in the order of the source.
unfoldable pub command_domains : List (Bytes × Bytes)
command_domains =
    (codes "action", codes "power-manage:cmd:action:v1")
    ∷ (codes "osquery", codes "power-manage:cmd:osquery:v1")
    ∷ (codes "logquery", codes "power-manage:cmd:logquery:v1")
    ∷ (codes "inventory", codes "power-manage:cmd:inventory:v1")
    ∷ (codes "luks-revoke", codes "power-manage:cmd:luks-revoke:v1")
    ∷ (codes "lps-pubkey", codes "power-manage:cmd:lps-pubkey:v1")
    ∷ (codes "terminal-grant", codes "power-manage:cmd:terminal-grant:v1")
    ∷ (codes "sync-manifest", codes "power-manage:cmd:sync-manifest:v1")
    ∷ []

-- A read of a Go map of strings.
unfoldable pub lookup_domain : List (Bytes × Bytes) → Bytes → Option Bytes
lookup_domain [] k = none
lookup_domain ((j, v) ∷ m) k = if bytes_eq j k then some v else lookup_domain m k

unfoldable pub command_domain : Bytes → Result CommandError Bytes
command_domain t = elim (lookup_domain command_domains t) [
  | none ↦ err unknown_command_type
  | some d ↦ ok d
]

unfoldable pub command_preimage : SignedCommand → Result CommandError Bytes
command_preimage cmd = do
  domain ← command_domain cmd.command_type
  reject_if (length cmd.payload == 0) empty_payload
  issued ← require cmd.issued_at missing_timestamp
  expires ← require cmd.expires_at missing_timestamp
  reject_if (not (is_canonical_ulid cmd.target_device_id)) target_not_ulid
  ok (
      lp_all (
        domain
        ∷ cmd.command_type
        ∷ cmd.target_device_id
        ∷ ts_bytes issued
        ∷ ts_bytes expires
        ∷ cmd.payload
        ∷ []))

abbrev pub checked : {A : Type 0} → Result KeyError A → Result CommandError A
checked (ok a) = ok a
checked (err e) = err (key_rejected e)

unfoldable pub sign_command : Primitives → Key → SignedCommand → Result CommandError SignedCommand
sign_command c key cmd = do
  checked (validate_signing_key c key)
  preimage ← command_preimage cmd
  sig ← require (c.sign key (c.sha256 preimage)) signing_failed
  ok (record cmd { signature = sig })

-- Instants are nanoseconds from Go's zero time, January 1 of the year 1.
pub record VerifyOptions : Type 0 where
  pub device_id : Bytes
  pub now : ℤ
  pub instant : Bool

abbrev second : ℕ
second = 1000000000

abbrev pub max_instant_window : ℤ
max_instant_window = pos (15 * 60 * second)

abbrev pub max_terminal_grant_window : ℤ
max_terminal_grant_window = pos (60 * second)

abbrev pub max_future_clock_skew : ℤ
max_future_clock_skew = pos (5 * 60 * second)

abbrev is_zero_time : ℤ → Bool
is_zero_time (pos n) = n == 0
is_zero_time (negsuc n) = false

abbrev max_duration : ℕ
max_duration = 2 ^ 63 - 1

-- `Time.Sub`: the difference, held to the range of an int64.
unfoldable pub time_sub : ℤ → ℤ → ℤ
unfolding ◌-ℤ◌
time_sub t u =
    let d = t -ℤ u in
    if ltb_ℤ (pos max_duration) d
    then pos max_duration
    else (if ltb_ℤ d (negsuc max_duration) then negsuc max_duration else d)

-- The timestamp checks of `VerifyCommand`, after the signature check.
unfoldable pub check_window : ℤ → ℤ → Bytes → VerifyOptions → Result CommandError (Unit {0})
unfolding time_sub
check_window issued expires command_type opts = do
  reject_if (ltb_ℤ expires issued) issued_after_expires
  reject_if (ltb_ℤ opts.now issued && ltb_ℤ max_future_clock_skew (time_sub issued opts.now))
      issued_in_future
  reject_if (ltb_ℤ expires opts.now) expired
  let window = time_sub expires issued
  reject_if (opts.instant && ltb_ℤ max_instant_window window) instant_window
  reject_if (bytes_eq command_type terminal_grant_type && ltb_ℤ max_terminal_grant_window window)
      terminal_window
  ok tt

abbrev pub signature_outcome : SignatureCheck → Result CommandError (Unit {0})
signature_outcome valid_signature = ok tt
signature_outcome invalid_signature = err bad_signature
signature_outcome unsupported_verifying_key = err unsupported_key

-- `as_time` is the protobuf runtime's `Timestamp.AsTime`, on the pointer.
unfoldable pub verify_command :
    Primitives
    → (Option Timestamp → ℤ)
    → Key
    → SignedCommand
    → VerifyOptions
    → Result CommandError Bytes
verify_command c as_time key cmd opts = do
  reject_if (is_zero_time opts.now) now_unset
  checked (validate_signing_key c key)
  preimage ← command_preimage cmd
  reject_if (not (bytes_eq cmd.target_device_id opts.device_id)) wrong_device
  signature_outcome (check_signature c key (c.sha256 preimage) cmd.signature)
  check_window (as_time cmd.issued_at) (as_time cmd.expires_at) cmd.command_type opts
  ok cmd.payload
