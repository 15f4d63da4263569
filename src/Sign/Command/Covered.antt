-- ===== src/Sign/Command/Covered.antt =====
-- The preimage of a command determines every covered field (contract/sign/sign.go `CommandPreimage`).
use power_manage.Shared.{
  ◌<◌, ◌≡◌, inl, inr, true, List, [], ◌∷◌, some, ok, arith, length, All, Result-cases, Option-cases,
}
use power_manage.Shared.Bytes.{Bytes}
use power_manage.Ulid.{is_canonical_ulid}
use power_manage.Sign.Frame.{Timestamp, ts_bytes, lp_all}
use power_manage.Sign.Frame.Injective.{Fits, InRange, lp_all_inj, ts_bytes_inj, ts_bytes-Fits}
use power_manage.Sign.Command.{
  SignedCommand, command_domain, command_domains, lookup_domain, command_preimage,
}

-- The fields of a command that its signature covers.
abbrev pub fields : Bytes → SignedCommand → Timestamp → Timestamp → List Bytes
fields domain cmd issued expires =
    domain
    ∷ cmd.command_type
    ∷ cmd.target_device_id
    ∷ ts_bytes issued
    ∷ ts_bytes expires
    ∷ cmd.payload
    ∷ []

-- What a preimage that was built says of its command.
pub record Framed (cmd : SignedCommand) (p : Bytes) : Type 0 where
  pub domain : Bytes
  pub issued : Timestamp
  pub expires : Timestamp
  pub registered : command_domain cmd.command_type ≡ ok domain
  pub has_issued : cmd.issued_at ≡ some issued
  pub has_expires : cmd.expires_at ≡ some expires
  pub has_payload : 0 < length cmd.payload
  pub addressed : is_canonical_ulid cmd.target_device_id ≡ true
  pub framing : p ≡ lp_all (fields domain cmd issued expires)

pub command_preimage-Framed :
    (cmd : SignedCommand) (p : Bytes) → command_preimage cmd ≡ ok p → Framed cmd p
unfolding command_preimage
command_preimage-Framed cmd p h = elim (Result-cases (command_domain cmd.command_type)) [
  | inr (e, he) ↦ cc (h, he)
  | inl (d, hd) ↦ elim (Option-cases cmd.issued_at) [
    | inl hi ↦ ground arith
    | inr (i, hi) ↦ elim (Option-cases cmd.expires_at) [
      | inl hx ↦ ground arith
      | inr (x, hx) ↦ record {
        domain = d;
        issued = i;
        expires = x;
        registered = hd;
        has_issued = hi;
        has_expires = hx;
        has_payload = ground arith;
        addressed = ground arith;
        framing = ground arith;
      }
    ]
  ]
]

-- The sizes that Go's types guarantee: byte slices shorter than 2^64, int64 seconds, int32 nanos.
pub record Encodable (cmd : SignedCommand) : Type 0 where
  pub type_fits : Fits cmd.command_type
  pub target_fits : Fits cmd.target_device_id
  pub payload_fits : Fits cmd.payload
  pub issued_in_range : (t : Timestamp) → cmd.issued_at ≡ some t → InRange t
  pub expires_in_range : (t : Timestamp) → cmd.expires_at ≡ some t → InRange t

domain-Fits : (t d : Bytes) → command_domain t ≡ ok d → Fits d
unfolding command_domain command_domains lookup_domain
domain-Fits t d h = ground arith

fields-Fits :
    {cmd : SignedCommand} {p : Bytes} (f : Framed cmd p)
    → Encodable cmd
    → All Fits (fields f.domain cmd f.issued f.expires)
fields-Fits {cmd} f e = omega (
  arith,
  domain-Fits cmd.command_type f.domain f.registered,
  e.type_fits,
  e.target_fits,
  ts_bytes-Fits f.issued,
  ts_bytes-Fits f.expires,
  e.payload_fits,
)

-- Two commands agree on every covered field.
pub record SameCovered (c d : SignedCommand) : Type 0 where
  pub command_type : c.command_type ≡ d.command_type
  pub target_device_id : c.target_device_id ≡ d.target_device_id
  pub issued_at : c.issued_at ≡ d.issued_at
  pub expires_at : c.expires_at ≡ d.expires_at
  pub payload : c.payload ≡ d.payload

-- Two commands of Go-representable sizes with the same preimage have the same command type, target
-- device, timestamps and payload.
pub command_preimage_inj :
    (c d : SignedCommand) (p : Bytes)
    → Encodable c
    → Encodable d
    → command_preimage c ≡ ok p
    → command_preimage d ≡ ok p
    → SameCovered c d
command_preimage_inj c d p ec ed hc hd =
    let f = command_preimage-Framed c p hc in
    let g = command_preimage-Framed d p hd in
    let same =
      lp_all_inj (fields f.domain c f.issued f.expires) (fields g.domain d g.issued g.expires)
        (fields-Fits f ec) (fields-Fits g ed) (cc (f.framing, g.framing)) in
    let issued =
      ts_bytes_inj f.issued g.issued (ec.issued_in_range f.issued f.has_issued)
        (ed.issued_in_range g.issued g.has_issued) (cc (same)) in
    let expires =
      ts_bytes_inj f.expires g.expires (ec.expires_in_range f.expires f.has_expires)
        (ed.expires_in_range g.expires g.has_expires) (cc (same)) in
    record {
      command_type = cc (same);
      target_device_id = cc (same);
      issued_at = cc (f.has_issued, g.has_issued, issued);
      expires_at = cc (f.has_expires, g.has_expires, expires);
      payload = cc (same);
    }
