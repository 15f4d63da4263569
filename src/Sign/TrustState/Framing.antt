-- ===== src/Sign/TrustState/Framing.antt =====
-- The preimage of a trust-state claim determines the claim (contract/sign/trust_state.go).
use power_manage.Shared.{◌<◌, ◌^◌, ◌≡◌, [], ◌∷◌, arith, length, All, append_inj, All-append}
use power_manage.Sign.Frame.{uint64_bytes}
use power_manage.Sign.Frame.Injective.{Fits, lp_all_inj, uint64_bytes_inj, uint64_bytes-Fits}
use power_manage.Sign.TrustState.{TrustStateClaim, trust_state_fields, raw_preimage}

-- The sizes that Go's types guarantee: byte slices shorter than 2^64 and uint64 counters.
pub record Encodable (claim : TrustStateClaim) : Type 0 where
  pub reporter_class : Fits claim.reporter_class
  pub claimed_class : Fits claim.claimed_class
  pub reporter_fingerprint : Fits claim.reporter_certificate_fingerprint
  pub generation : claim.generation < 2 ^ 64
  pub revision : claim.revision < 2 ^ 64
  pub root_count : length claim.root_fingerprints < 2 ^ 64
  pub roots : All Fits claim.root_fingerprints
  pub issuer : Fits claim.crl_issuer_fingerprint
  pub sequence : claim.crl_sequence < 2 ^ 64

fields-Fits : (claim : TrustStateClaim) → Encodable claim → All Fits (trust_state_fields claim)
unfolding trust_state_fields
fields-Fits claim e =
    let rest =
      All-append Fits claim.root_fingerprints
        (claim.crl_issuer_fingerprint ∷ uint64_bytes claim.crl_sequence ∷ []) e.roots
        (e.issuer, (uint64_bytes-Fits claim.crl_sequence, tt)) in
    (
      omega arith,
      (
        e.reporter_class,
        (
          e.claimed_class,
          (
            e.reporter_fingerprint,
            (
              uint64_bytes-Fits claim.generation,
              (
                uint64_bytes-Fits claim.revision,
                (uint64_bytes-Fits (length claim.root_fingerprints), rest),
              ),
            ),
          ),
        ),
      ),
    )

-- Two claims of Go-representable sizes with the same preimage are the same claim.
pub raw_preimage_inj :
    (c d : TrustStateClaim) → Encodable c → Encodable d → raw_preimage c ≡ raw_preimage d → c ≡ d
unfolding raw_preimage
raw_preimage_inj c d ec ed h =
    let same =
      lp_all_inj (trust_state_fields c) (trust_state_fields d) (fields-Fits c ec) (fields-Fits d ed)
        h in
    let count =
      uint64_bytes_inj (length c.root_fingerprints) (length d.root_fingerprints) ec.root_count
        ed.root_count (cc (same)) in
    let split =
      append_inj c.root_fingerprints d.root_fingerprints
        {u = c.crl_issuer_fingerprint ∷ uint64_bytes c.crl_sequence ∷ []}
        {v = d.crl_issuer_fingerprint ∷ uint64_bytes d.crl_sequence ∷ []} count (cc (same)) in
    ground (
      arith,
      same,
      split.0,
      split.1,
      uint64_bytes_inj c.generation d.generation ec.generation ed.generation (cc (same)),
      uint64_bytes_inj c.revision d.revision ec.revision ed.revision (cc (same)),
      uint64_bytes_inj c.crl_sequence d.crl_sequence ec.sequence ed.sequence (cc (split.1)),
    )
