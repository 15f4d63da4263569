-- ===== src/Sign/Envelope/Properties.antt =====
-- When `VerifyResult` accepts, and what the preimage of a result covers (contract/sign/result.go).
use power_manage.Shared.{
  ◌<◌, ◌≡◌, ◌↔◌, inl, inr, true, List, [], ◌∷◌, some, ok, arith, length, All, Result-cases,
  Option-cases,
}
use power_manage.Shared.Bytes.{Bytes, bytes_eq_iff}
use power_manage.Ulid.{is_canonical_ulid}
use power_manage.Sign.Frame.{Timestamp, ts_bytes, lp_all}
use power_manage.Sign.Frame.Injective.{Fits, InRange, lp_all_inj, ts_bytes_inj, ts_bytes-Fits}
use power_manage.Sign.Keys.{Key, Primitives, validate_signing_key, check_signature, valid_signature}
use power_manage.Sign.Command.{lookup_domain}
use power_manage.Sign.Envelope.{
  DeviceSigned, result_domain, result_domains, result_preimage, verify_result,
}

abbrev pub fields : Bytes → DeviceSigned → Timestamp → List Bytes
fields domain env issued =
    domain ∷ env.result_type ∷ env.device_id ∷ ts_bytes issued ∷ env.payload ∷ []

-- What a preimage that was built says of its envelope.
pub record Framed (env : DeviceSigned) (p : Bytes) : Type 0 where
  pub domain : Bytes
  pub issued : Timestamp
  pub registered : result_domain env.result_type ≡ ok domain
  pub has_issued : env.issued_at ≡ some issued
  pub has_payload : 0 < length env.payload
  pub addressed : is_canonical_ulid env.device_id ≡ true
  pub framing : p ≡ lp_all (fields domain env issued)

pub result_preimage-Framed :
    (env : DeviceSigned) (p : Bytes) → result_preimage env ≡ ok p → Framed env p
unfolding result_preimage
result_preimage-Framed env p h = elim (Result-cases (result_domain env.result_type)) [
  | inr (e, he) ↦ cc (h, he)
  | inl (d, hd) ↦ elim (Option-cases env.issued_at) [
    | inl hi ↦ ground arith
    | inr (i, hi) ↦ record {
      domain = d;
      issued = i;
      registered = hd;
      has_issued = hi;
      has_payload = ground arith;
      addressed = ground arith;
      framing = ground arith;
    }
  ]
]

-- The sizes that Go's types guarantee.
pub record Encodable (env : DeviceSigned) : Type 0 where
  pub type_fits : Fits env.result_type
  pub device_fits : Fits env.device_id
  pub payload_fits : Fits env.payload
  pub issued_in_range : (t : Timestamp) → env.issued_at ≡ some t → InRange t

domain-Fits : (t d : Bytes) → result_domain t ≡ ok d → Fits d
unfolding result_domain result_domains lookup_domain
domain-Fits t d h = ground arith

fields-Fits :
    {env : DeviceSigned} {p : Bytes} (f : Framed env p)
    → Encodable env
    → All Fits (fields f.domain env f.issued)
fields-Fits {env} f e = omega (
  arith,
  domain-Fits env.result_type f.domain f.registered,
  e.type_fits,
  e.device_fits,
  ts_bytes-Fits f.issued,
  e.payload_fits,
)

-- Two envelopes agree on every covered field.
pub record SameCovered (c d : DeviceSigned) : Type 0 where
  pub result_type : c.result_type ≡ d.result_type
  pub device_id : c.device_id ≡ d.device_id
  pub issued_at : c.issued_at ≡ d.issued_at
  pub payload : c.payload ≡ d.payload

-- Two envelopes of Go-representable sizes with the same preimage have the same result type, device,
-- timestamp and payload.
pub result_preimage_inj :
    (c d : DeviceSigned) (p : Bytes)
    → Encodable c
    → Encodable d
    → result_preimage c ≡ ok p
    → result_preimage d ≡ ok p
    → SameCovered c d
result_preimage_inj c d p ec ed hc hd =
    let f = result_preimage-Framed c p hc in
    let g = result_preimage-Framed d p hd in
    let same =
      lp_all_inj (fields f.domain c f.issued) (fields g.domain d g.issued) (fields-Fits f ec)
        (fields-Fits g ed) (cc (f.framing, g.framing)) in
    let issued =
      ts_bytes_inj f.issued g.issued (ec.issued_in_range f.issued f.has_issued)
        (ed.issued_in_range g.issued g.has_issued) (cc (same)) in
    record {
      result_type = cc (same);
      device_id = cc (same);
      issued_at = cc (f.has_issued, g.has_issued, issued);
      payload = cc (same);
    }

-- Every condition under which control records a result.
pub record Accepted (c : Primitives) (key : Key) (env : DeviceSigned) (expected payload : Bytes)
    : Type 0 where
  pub key_valid : validate_signing_key c key ≡ ok tt
  pub preimage : Bytes
  pub framed : result_preimage env ≡ ok preimage
  pub addressed : env.device_id ≡ expected
  pub signed : check_signature c key (c.sha256 preimage) env.signature ≡ valid_signature
  pub exact : payload ≡ env.payload

-- A verification returns a payload exactly when the key is acceptable, the preimage can be built, the
-- reporter is the expected device and the signature holds over the digest of the preimage; the payload
-- is then the envelope's.
pub verify_result_iff :
    (c : Primitives) (key : Key) (env : DeviceSigned) (expected payload : Bytes)
    → (verify_result c key env expected ≡ ok payload) ↔ Accepted c key env expected payload
unfolding verify_result
verify_result_iff c key env expected payload = (
  λ h. elim (Result-cases (result_preimage env)) [
    | inr (e, he) ↦ ground arith
    | inl (p, hp) ↦ record {
      key_valid = ground arith;
      preimage = p;
      framed = hp;
      addressed = ground (arith, bytes_eq_iff env.device_id expected);
      signed = ground arith;
      exact = ground arith;
    }
  ],
  λ a. ground (
    arith,
    a.key_valid,
    a.framed,
    a.addressed,
    a.signed,
    a.exact,
    bytes_eq_iff env.device_id expected,
  ),
)
