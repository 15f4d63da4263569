-- ===== src/Sign/TrustState.antt =====
-- contract/sign/trust_state.go: CA-continuity claims, their validation, signing and verification.
pub mod Valid
pub mod Framing
use power_manage.Shared.{
  ℕ, zero, suc, Bool, true, false, ◌&&◌, ◌||◌, not, List, [], ◌∷◌, ◌++◌, Option, none, some, Result,
  ok, err, ◌>>=◌, ◌>>◌, reject_if, require, ltb, ◌==◌, length, any, if◌then◌else◌,
}
use power_manage.Shared.Int.{ℤ}
use power_manage.Shared.Bytes.{Bytes, codes, bytes_eq}
use power_manage.Sign.Frame.{uint64_bytes, lp_all}
use power_manage.Sign.Keys.{
  Key, KeyError, Primitives, validate_signing_key, check_signature, SignatureCheck, valid_signature,
  invalid_signature, unsupported_verifying_key, ecdsa_public,
}

abbrev pub trust_state_domain : Bytes
trust_state_domain = codes "power-manage:trust-state:v1"

abbrev pub fingerprint_size : ℕ
fingerprint_size = 32

abbrev pub agent_class : Bytes
agent_class = codes "agent"

abbrev pub gateway_class : Bytes
gateway_class = codes "gateway"

pub record TrustStateClaim : Type 0 where
  pub reporter_class : Bytes
  pub claimed_class : Bytes
  pub reporter_certificate_fingerprint : Bytes
  pub generation : ℕ  -- uint64
  pub revision : ℕ  -- uint64
  pub root_fingerprints : List Bytes
  pub crl_issuer_fingerprint : Bytes
  pub crl_sequence : ℕ  -- uint64

pub data TrustError : Type 0 where
  key_rejected : KeyError → TrustError
  bad_reporter_class bad_claimed_class bad_reporter_fingerprint zero_generation : TrustError
  zero_revision bad_root_count bad_root_fingerprint duplicate_root : TrustError
  malformed_receipt missing_receipt forbidden_receipt signing_failed : TrustError
  empty_signature malformed_signature bad_signature unsupported_key : TrustError

-- One of the two machine classes.
unfoldable pub is_machine_class : Bytes → Bool
is_machine_class s = bytes_eq s agent_class || bytes_eq s gateway_class

-- The loop over the fingerprints; `earlier` holds those before the current index.
unfoldable pub check_roots : List Bytes → List Bytes → Result TrustError (Unit {0})
check_roots earlier [] = ok tt
check_roots earlier (f ∷ fs) =
    let rest = check_roots (earlier ++ f ∷ []) fs in
    if not (length f == fingerprint_size)
    then err bad_root_fingerprint
    else (if any (bytes_eq f) earlier then err duplicate_root else rest)

unfoldable pub requires_receipt : TrustStateClaim → Bool
requires_receipt claim =
    bytes_eq claim.reporter_class gateway_class && bytes_eq claim.claimed_class agent_class

unfoldable pub has_issuer : TrustStateClaim → Bool
has_issuer claim = not (length claim.crl_issuer_fingerprint == 0)

-- The checks on the CRL receipt, the last part of `validateTrustStateClaim`.
unfoldable pub check_receipt : TrustStateClaim → Bool → Result TrustError (Unit {0})
unfolding requires_receipt has_issuer
check_receipt claim reject_forbidden = do
  let has_sequence = not (claim.crl_sequence == 0)
  reject_if
      ((if has_issuer claim then not has_sequence else has_sequence)
        || has_issuer claim && not (length claim.crl_issuer_fingerprint == fingerprint_size))
      malformed_receipt
  reject_if (requires_receipt claim && not (has_issuer claim)) missing_receipt
  reject_if (reject_forbidden && not (requires_receipt claim) && has_issuer claim) forbidden_receipt
  ok tt

unfoldable pub validate_trust_state_claim : TrustStateClaim → Bool → Result TrustError (Unit {0})
validate_trust_state_claim claim reject_forbidden = do
  reject_if (not (is_machine_class claim.reporter_class)) bad_reporter_class
  reject_if (not (is_machine_class claim.claimed_class)) bad_claimed_class
  reject_if (not (length claim.reporter_certificate_fingerprint == fingerprint_size))
      bad_reporter_fingerprint
  reject_if (claim.generation == 0) zero_generation
  reject_if (claim.revision == 0) zero_revision
  reject_if (ltb (length claim.root_fingerprints) 1 || ltb 2 (length claim.root_fingerprints))
      bad_root_count
  check_roots [] claim.root_fingerprints
  check_receipt claim reject_forbidden

-- The fields that are framed, in the order of the writes.
unfoldable pub trust_state_fields : TrustStateClaim → List Bytes
trust_state_fields claim =
    trust_state_domain
    ∷ claim.reporter_class
    ∷ claim.claimed_class
    ∷ claim.reporter_certificate_fingerprint
    ∷ uint64_bytes claim.generation
    ∷ uint64_bytes claim.revision
    ∷ uint64_bytes (length claim.root_fingerprints)
    ∷ (claim.root_fingerprints
        ++ claim.crl_issuer_fingerprint ∷ uint64_bytes claim.crl_sequence ∷ [])

unfoldable pub raw_preimage : TrustStateClaim → Bytes
unfolding trust_state_fields
raw_preimage claim = lp_all (trust_state_fields claim)

unfoldable pub trust_state_preimage : TrustStateClaim → Result TrustError Bytes
trust_state_preimage claim = do validate_trust_state_claim claim true; ok (raw_preimage claim)

abbrev pub checked : {A : Type 0} → Result KeyError A → Result TrustError A
checked (ok a) = ok a
checked (err e) = err (key_rejected e)

unfoldable pub sign_trust_state : Primitives → Key → TrustStateClaim → Result TrustError Bytes
sign_trust_state c key claim = do
  checked (validate_signing_key c key)
  preimage ← trust_state_preimage claim
  require (c.sign key (c.sha256 preimage)) signing_failed

-- `asn1.Unmarshal` into the pair R, S: it succeeds, leaves nothing, and both pointers are set.
unfoldable pub well_formed_pair : Option (Option ℤ × Option ℤ × Bytes) → Bool
well_formed_pair (some (some r, some s, [])) = true
well_formed_pair _ = false

-- The type switch of `VerifyTrustState`; an ECDSA signature is parsed first.
unfoldable pub check_trust_signature :
    Primitives → Key → Bytes → Bytes → Result TrustError (Unit {0})
check_trust_signature c (ecdsa_public (some k)) digest sig = do
  reject_if (not (well_formed_pair (c.asn1_unmarshal_pair sig))) malformed_signature
  reject_if (not (c.ecdsa_verify_asn1 k digest sig)) bad_signature
  ok tt
check_trust_signature c key digest sig = elim (check_signature c key digest sig) [
  | valid_signature ↦ ok tt
  | invalid_signature ↦ err bad_signature
  | unsupported_verifying_key ↦ err unsupported_key
]

unfoldable pub verify_trust_state :
    Primitives → Key → TrustStateClaim → Bytes → Result TrustError (Unit {0})
verify_trust_state c key claim sig = do
  checked (validate_signing_key c key)
  reject_if (length sig == 0) empty_signature
  validate_trust_state_claim claim false
  check_trust_signature c key (c.sha256 (raw_preimage claim)) sig
  validate_trust_state_claim claim true
