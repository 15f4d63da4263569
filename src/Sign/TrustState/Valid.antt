-- ===== src/Sign/TrustState/Valid.antt =====
-- What `validateTrustStateClaim` and `VerifyTrustState` of contract/sign/trust_state.go admit.
pub mod Roots
use power_manage.Shared.{
  ℕ, ◌+◌, ◌≤◌, ◌<◌, ◌≡◌, refl, sym, ◌≢◌, ◌↔◌, ◌⊎◌, inl, inr, Bool, true, false, List, [], ◌∷◌, ok,
  err, arith, length, All, Bool-cases, ◌>>=◌,
}
use power_manage.Shared.Bytes.{Bytes, bytes_eq, bytes_eq_iff}
use power_manage.Sign.Keys.{Key, Primitives, validate_signing_key}
use power_manage.Sign.TrustState.{
  TrustStateClaim, agent_class, gateway_class, is_machine_class, check_roots, check_receipt,
  validate_trust_state_claim, check_trust_signature, raw_preimage, verify_trust_state,
}
use Roots.{AllDistinct, check_roots-distinct, check_roots-All}

abbrev IsMachineClass : Bytes → Type 0
IsMachineClass s = (s ≡ agent_class) ⊎ (s ≡ gateway_class)

-- A receipt names the CRL issuer by its SHA-256 fingerprint, with a sequence number.
abbrev HasReceipt : TrustStateClaim → Type 0
HasReceipt claim = (length claim.crl_issuer_fingerprint ≡ 32) × (0 < claim.crl_sequence)

abbrev NoReceipt : TrustStateClaim → Type 0
NoReceipt claim = (length claim.crl_issuer_fingerprint ≡ 0) × (claim.crl_sequence ≡ 0)

-- A claim as the documentation of the type has it.
pub record WellFormed (claim : TrustStateClaim) : Type 0 where
  pub reporter : IsMachineClass claim.reporter_class
  pub claimed : IsMachineClass claim.claimed_class
  pub reporter_fingerprint : length claim.reporter_certificate_fingerprint ≡ 32
  pub generation : 0 < claim.generation
  pub revision : 0 < claim.revision
  pub some_root : 1 ≤ length claim.root_fingerprints
  pub two_roots : length claim.root_fingerprints ≤ 2
  pub root_sizes : All (λ f. length f ≡ 32) claim.root_fingerprints
  pub distinct_roots : AllDistinct claim.root_fingerprints
  pub receipt :
      (claim.reporter_class ≡ gateway_class)
        × (claim.claimed_class ≡ agent_class)
        × HasReceipt claim
      ⊎ ¬ ((claim.reporter_class ≡ gateway_class) × (claim.claimed_class ≡ agent_class))
        × NoReceipt claim

is_machine_class_iff : (s : Bytes) → (is_machine_class s ≡ true) ↔ IsMachineClass s
unfolding is_machine_class
is_machine_class_iff s = ground (arith, bytes_eq_iff s agent_class, bytes_eq_iff s gateway_class)

module _ (claim : TrustStateClaim) where
  receipt_checked :
      check_receipt claim true ≡ ok tt
      → (claim.reporter_class ≡ gateway_class)
          × (claim.claimed_class ≡ agent_class)
          × HasReceipt claim
        ⊎ ¬ ((claim.reporter_class ≡ gateway_class) × (claim.claimed_class ≡ agent_class))
          × NoReceipt claim
  unfolding check_receipt
  receipt_checked h = ground (
    arith,
    bytes_eq_iff claim.reporter_class gateway_class,
    bytes_eq_iff claim.claimed_class agent_class,
  )

  checked_receipt : WellFormed claim → check_receipt claim true ≡ ok tt
  unfolding check_receipt
  checked_receipt w = ground (
    arith,
    w.receipt,
    bytes_eq_iff claim.reporter_class gateway_class,
    bytes_eq_iff claim.claimed_class agent_class,
  )

  validate-WellFormed : validate_trust_state_claim claim true ≡ ok tt → WellFormed claim
  unfolding validate_trust_state_claim
  validate-WellFormed h =
      let roots : check_roots [] claim.root_fingerprints ≡ ok tt = ground arith in
      let (sizes, _, distinct) = check_roots-distinct [] claim.root_fingerprints roots in
      record {
        reporter = (is_machine_class_iff claim.reporter_class).0 (ground arith);
        claimed = (is_machine_class_iff claim.claimed_class).0 (ground arith);
        reporter_fingerprint = ground arith;
        generation = ground arith;
        revision = ground arith;
        some_root = ground arith;
        two_roots = ground arith;
        root_sizes = sizes;
        distinct_roots = distinct;
        receipt = receipt_checked (ground arith);
      }

  WellFormed-validate : WellFormed claim → validate_trust_state_claim claim true ≡ ok tt
  unfolding validate_trust_state_claim
  WellFormed-validate w = ground (
    arith,
    (is_machine_class_iff claim.reporter_class).1 w.reporter,
    (is_machine_class_iff claim.claimed_class).1 w.claimed,
    w.reporter_fingerprint,
    w.generation,
    w.revision,
    w.some_root,
    w.two_roots,
    check_roots-All claim.root_fingerprints w.root_sizes w.distinct_roots,
    checked_receipt w,
  )

  check_receipt-lax : check_receipt claim true ≡ ok tt → check_receipt claim false ≡ ok tt
  unfolding check_receipt
  check_receipt-lax h = ground arith

  validate-lax :
      validate_trust_state_claim claim true ≡ ok tt → validate_trust_state_claim claim false ≡ ok tt
  unfolding validate_trust_state_claim
  validate-lax h = ground (arith, check_receipt-lax)

-- A claim passes the strict validation exactly when it is well formed: both classes are machine
-- classes, the fingerprints have 32 bytes, the counters are positive, there are one or two distinct
-- roots, and a CRL receipt is there exactly when a gateway confirms agent trust.
pub validate_trust_state_claim_iff :
    (claim : TrustStateClaim) → (validate_trust_state_claim claim true ≡ ok tt) ↔ WellFormed claim
validate_trust_state_claim_iff claim = (validate-WellFormed claim, WellFormed-validate claim)

-- A verification succeeds exactly when the key is acceptable, the signature is not empty and checks
-- over the digest of the claim's framing, and the claim is well formed.
pub verify_trust_state_iff :
    (c : Primitives) (key : Key) (claim : TrustStateClaim) (sig : Bytes)
    → (verify_trust_state c key claim sig ≡ ok tt) ↔ (
        (validate_signing_key c key ≡ ok tt)
        × (0 < length sig)
        × WellFormed claim
        × (check_trust_signature c key (c.sha256 (raw_preimage claim)) sig ≡ ok tt))
unfolding verify_trust_state
verify_trust_state_iff c key claim sig = (
  λ h. (ground arith, ground arith, validate-WellFormed claim (ground arith), ground arith),
  λ a. ground (arith, a.0, a.1, a.3, WellFormed-validate claim a.2, validate-lax claim),
)
