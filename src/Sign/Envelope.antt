-- ===== src/Sign/Envelope.antt =====
-- contract/sign/result.go: the DeviceSigned result envelope, `SignResult` and `VerifyResult`.
pub mod Properties
use power_manage.Shared.{
  ℕ, Bool, true, false, ◌&&◌, ◌||◌, not, List, [], ◌∷◌, Option, none, some, Result, ok, err, ◌>>=◌,
  ◌>>◌, reject_if, require, leb, ◌==◌, length, all,
}
use power_manage.Shared.Bytes.{Bytes, codes, bytes_eq}
use power_manage.Ulid.{is_canonical_ulid}
use power_manage.Sign.Frame.{Timestamp, ts_bytes, lp_all}
use power_manage.Sign.Keys.{
  Key, KeyError, Primitives, validate_signing_key, check_signature, SignatureCheck, valid_signature,
  invalid_signature, unsupported_verifying_key,
}
use power_manage.Sign.Command.{lookup_domain}

pub record DeviceSigned : Type 0 where
  pub result_type : Bytes
  pub device_id : Bytes
  pub issued_at : Option Timestamp
  pub payload : Bytes
  pub signature : Bytes

pub data ResultError : Type 0 where
  key_rejected : KeyError → ResultError
  bad_grammar unknown_result_type empty_payload missing_issued_at device_not_ulid : ResultError
  signing_failed wrong_reporter bad_signature unsupported_key : ResultError

-- `resultDomains`, in the order of the source.
unfoldable pub result_domains : List (Bytes × Bytes)
result_domains =
    (codes "execution", codes "power-manage:result:execution:v1")
    ∷ (codes "compliance", codes "power-manage:result:compliance:v1")
    ∷ (codes "inventory", codes "power-manage:result:inventory:v1")
    ∷ (codes "alert", codes "power-manage:result:alert:v1")
    ∷ (codes "osquery", codes "power-manage:result:osquery:v1")
    ∷ (codes "logquery", codes "power-manage:result:logquery:v1")
    ∷ []

abbrev result_type_byte : ℕ → Bool
result_type_byte c = leb b'a' c && leb c b'z' || leb b'0' c && leb c b'9' || c == b'-'

-- A non-empty token of lower-case letters, digits and dashes.
unfoldable pub is_result_type : Bytes → Bool
is_result_type [] = false
is_result_type (c ∷ cs) = all result_type_byte (c ∷ cs)

unfoldable pub result_domain : Bytes → Result ResultError Bytes
result_domain t = do
  reject_if (not (is_result_type t)) bad_grammar
  require (lookup_domain result_domains t) unknown_result_type

unfoldable pub result_preimage : DeviceSigned → Result ResultError Bytes
result_preimage env = do
  domain ← result_domain env.result_type
  reject_if (length env.payload == 0) empty_payload
  issued ← require env.issued_at missing_issued_at
  reject_if (not (is_canonical_ulid env.device_id)) device_not_ulid
  ok (lp_all (domain ∷ env.result_type ∷ env.device_id ∷ ts_bytes issued ∷ env.payload ∷ []))

abbrev pub checked : {A : Type 0} → Result KeyError A → Result ResultError A
checked (ok a) = ok a
checked (err e) = err (key_rejected e)

unfoldable pub sign_result : Primitives → Key → DeviceSigned → Result ResultError DeviceSigned
sign_result c key env = do
  checked (validate_signing_key c key)
  preimage ← result_preimage env
  sig ← require (c.sign key (c.sha256 preimage)) signing_failed
  ok (record env { signature = sig })

abbrev pub signature_outcome : SignatureCheck → Result ResultError (Unit {0})
signature_outcome valid_signature = ok tt
signature_outcome invalid_signature = err bad_signature
signature_outcome unsupported_verifying_key = err unsupported_key

-- `expected` is `ResultVerifyOptions.DeviceID`.
unfoldable pub verify_result : Primitives → Key → DeviceSigned → Bytes → Result ResultError Bytes
verify_result c key env expected = do
  checked (validate_signing_key c key)
  preimage ← result_preimage env
  reject_if (not (bytes_eq env.device_id expected)) wrong_reporter
  signature_outcome (check_signature c key (c.sha256 preimage) env.signature)
  ok env.payload
