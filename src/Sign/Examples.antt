-- ===== src/Sign/Examples.antt =====
-- Runs of the envelopes at concrete keys, commands, results and claims.
use power_manage.Shared.{
  ℕ, zero, suc, length, ◌≡◌, ◌≢◌, ◌↔◌, refl, true, false, [], ◌∷◌, Option, none, some, ok, err,
  arith, ◌*◌, ◌<◌,
}
use power_manage.Shared.Int.{ℤ, pos, negsuc, ◌+ℤ◌}
use power_manage.Shared.Bytes.{Bytes, codes, bytes_eq, bytes_eq_refl}
use power_manage.Ulid.{is_canonical_ulid}
use power_manage.Sign.Frame.{Timestamp, ts_bytes, lp_all, big_endian}
use power_manage.Sign.Frame.Injective.{InRange}
use power_manage.Sign.Keys.{
  Primitives, EcdsaPublicKey, EcdsaPrivateKey, p256, ecdsa_public, ecdsa_private, returned, failed,
  validate_signing_key, check_signature, valid_signature, public_of,
}
use power_manage.Sign.Command.{
  SignedCommand, VerifyOptions, command_domain, command_domains, lookup_domain, command_preimage,
  sign_command, verify_command, check_window, time_sub, expired,
}
use power_manage.Sign.Command.Window.{InWindow}
use power_manage.Sign.Command.Accept
use power_manage.Sign.Command.Covered
use power_manage.Sign.Domains.{preimages_disjoint}
use power_manage.Sign.Envelope.{
  DeviceSigned, result_preimage, result_domain, result_domains, is_result_type, verify_result,
}
use power_manage.Sign.Envelope.Properties
use power_manage.Sign.TrustState.{
  TrustStateClaim, agent_class, gateway_class, raw_preimage, verify_trust_state,
  validate_trust_state_claim, is_machine_class, check_roots, check_receipt, requires_receipt,
  has_issuer, check_trust_signature,
}
use power_manage.Sign.TrustState.Valid
use power_manage.Sign.TrustState.Framing

abbrev public_key : EcdsaPublicKey
public_key = record { curve = p256; x = some (pos 3); y = some (pos 5) }

abbrev private_key : EcdsaPrivateKey
private_key = record { public_key = public_key; d = some (pos 7) }

-- A toy scheme: the digest is the message, and the signature is the digest.
abbrev toy : Primitives
toy = record {
  ecdsa_public_bytes = λ _. returned [];
  ecdsa_private_bytes = λ _. returned [];
  parse_raw_private_key = λ _ _. returned private_key;
  ecdsa_public_equal = λ _ _. true;
  rsa_validate = λ _. failed;
  sha256 = λ m. m;
  sign = λ _ digest. some digest;
  ecdsa_verify_asn1 = λ _ digest sig. bytes_eq digest sig;
  rsa_verify_pkcs1v15 = λ _ _ _. false;
  asn1_unmarshal_pair = λ _. some (some (pos 1), some (pos 2), []);
}

abbrev device : Bytes
device = codes "01K0QJ3E5E8R4M0D8EV3Y4N6J7"

abbrev nanoseconds : Option Timestamp → ℤ
nanoseconds none = pos 0
nanoseconds (some t) = elim t.seconds [ pos s ↦ pos (s * 1000000000) | negsuc _ ↦ pos 0 ]

abbrev at_second : ℕ → Timestamp
at_second s = record { seconds = pos s; nanos = pos 0 }

abbrev reboot : SignedCommand
reboot = record {
  command_type = codes "action";
  target_device_id = device;
  issued_at = some (at_second 1000);
  expires_at = some (at_second 1600);
  payload = codes "reboot";
  signature = [];
}

abbrev options : ℕ → VerifyOptions
options s = record { device_id = device; now = pos (s * 1000000000); instant = true }

abbrev reboot_preimage : Bytes
reboot_preimage = lp_all (
    codes "power-manage:cmd:action:v1"
    ∷ reboot.command_type
    ∷ device
    ∷ ts_bytes (at_second 1000)
    ∷ ts_bytes (at_second 1600)
    ∷ reboot.payload
    ∷ [])

abbrev reboot_signed : SignedCommand
reboot_signed = record reboot { signature = reboot_preimage }

reboot_framed : command_preimage reboot ≡ ok reboot_preimage
unfolding command_preimage command_domain command_domains lookup_domain bytes_eq is_canonical_ulid
reboot_framed = refl

sign_reboot : sign_command toy (ecdsa_private (some private_key)) reboot ≡ ok reboot_signed
unfolding sign_command validate_signing_key command_preimage command_domain command_domains
    lookup_domain bytes_eq is_canonical_ulid
sign_reboot = refl

reboot-InWindow :
    InWindow (pos (1000 * 1000000000)) (pos (1600 * 1000000000)) (codes "action") (options 1200)
unfolding ◌+ℤ◌
reboot-InWindow = record {
  ordered = omega arith;
  not_future = omega arith;
  fresh = omega arith;
  instant = λ _. omega arith;
  terminal = λ e. ground (arith, e);
}

verify_command_iff_example :
    (verify_command toy nanoseconds (ecdsa_public (some public_key)) reboot_signed (options 1200)
      ≡ ok (codes "reboot"))
    ↔ Accept.Accepted toy nanoseconds
        (ecdsa_public (some public_key))
        reboot_signed
        (options 1200)
        (codes "reboot")
verify_command_iff_example =
    Accept.verify_command_iff toy nanoseconds (ecdsa_public (some public_key)) reboot_signed
      (options 1200) (codes "reboot")

toy_verifies :
    (digest sig : Bytes)
    → some digest ≡ some sig
    → check_signature toy (ecdsa_public (some public_key)) digest sig ≡ valid_signature
unfolding check_signature
toy_verifies digest sig h =
    let same : bytes_eq digest sig ≡ true = ground (arith, h, bytes_eq_refl digest) in rw same refl

verify_command-sign_command_example :
    verify_command toy nanoseconds (ecdsa_public (some public_key)) reboot_signed (options 1200)
    ≡ ok (codes "reboot")
unfolding public_of
verify_command-sign_command_example =
    Accept.verify_command-sign_command toy nanoseconds (ecdsa_private (some private_key)) reboot
      reboot_signed (options 1200) toy_verifies sign_reboot (ground arith) refl reboot-InWindow

too_late :
    verify_command toy nanoseconds (ecdsa_public (some public_key)) reboot_signed (options 1601)
    ≡ err expired
unfolding verify_command validate_signing_key command_preimage command_domain command_domains
    lookup_domain bytes_eq is_canonical_ulid check_signature check_window time_sub lp_all big_endian
    ts_bytes
too_late = refl

small_instant : (s : ℕ) (t : Timestamp) → s < 10000 → some (at_second s) ≡ some t → InRange t
small_instant s t b h = record {
  seconds_high = ground (arith, h, b);
  seconds_low = ground (arith, h, b);
  nanos_high = ground (arith, h, b);
  nanos_low = ground (arith, h, b);
}

reboot-Encodable : (sig : Bytes) → Covered.Encodable (record reboot { signature = sig })
reboot-Encodable sig = record {
  type_fits = omega arith;
  target_fits = omega arith;
  payload_fits = omega arith;
  issued_in_range = λ t e. small_instant 1000 t (omega arith) e;
  expires_in_range = λ t e. small_instant 1600 t (omega arith) e;
}

reboot_signed_framed : command_preimage reboot_signed ≡ ok reboot_preimage
unfolding command_preimage command_domain command_domains lookup_domain bytes_eq is_canonical_ulid
reboot_signed_framed = refl

command_preimage_inj_example : Covered.SameCovered reboot reboot_signed
command_preimage_inj_example =
    Covered.command_preimage_inj reboot reboot_signed reboot_preimage (reboot-Encodable [])
      (reboot-Encodable reboot_preimage) reboot_framed reboot_signed_framed

abbrev inventory : DeviceSigned
inventory = record {
  result_type = codes "inventory";
  device_id = device;
  issued_at = some (at_second 1200);
  payload = codes "disk full";
  signature = [];
}

abbrev inventory_preimage : Bytes
inventory_preimage = lp_all (
    codes "power-manage:result:inventory:v1"
    ∷ inventory.result_type
    ∷ device
    ∷ ts_bytes (at_second 1200)
    ∷ inventory.payload
    ∷ [])

abbrev inventory_signed : DeviceSigned
inventory_signed = record inventory { signature = inventory_preimage }

inventory_framed : result_preimage inventory ≡ ok inventory_preimage
unfolding result_preimage result_domain result_domains is_result_type lookup_domain bytes_eq
    is_canonical_ulid
inventory_framed = refl

inventory_signed_framed : result_preimage inventory_signed ≡ ok inventory_preimage
unfolding result_preimage result_domain result_domains is_result_type lookup_domain bytes_eq
    is_canonical_ulid
inventory_signed_framed = refl

inventory-Encodable : (sig : Bytes) → Properties.Encodable (record inventory { signature = sig })
inventory-Encodable sig = record {
  type_fits = omega arith;
  device_fits = omega arith;
  payload_fits = omega arith;
  issued_in_range = λ t e. small_instant 1200 t (omega arith) e;
}

result_preimage_inj_example : Properties.SameCovered inventory inventory_signed
result_preimage_inj_example =
    Properties.result_preimage_inj inventory inventory_signed inventory_preimage
      (inventory-Encodable []) (inventory-Encodable inventory_preimage) inventory_framed
      inventory_signed_framed

verify_result_iff_example :
    (verify_result toy (ecdsa_public (some public_key)) inventory_signed device
      ≡ ok (codes "disk full"))
    ↔ Properties.Accepted toy
        (ecdsa_public (some public_key))
        inventory_signed
        device
        (codes "disk full")
verify_result_iff_example =
    Properties.verify_result_iff toy (ecdsa_public (some public_key)) inventory_signed device
      (codes "disk full")

abbrev bytes_of : ℕ → ℕ → Bytes
bytes_of zero b = []
bytes_of (suc n) b = b ∷ bytes_of n b

-- A gateway confirms agent trust, with a receipt.
abbrev continuity : TrustStateClaim
continuity = record {
  reporter_class = gateway_class;
  claimed_class = agent_class;
  reporter_certificate_fingerprint = bytes_of 32 1;
  generation = 2;
  revision = 3;
  root_fingerprints = bytes_of 32 4 ∷ bytes_of 32 5 ∷ [];
  crl_issuer_fingerprint = bytes_of 32 4;
  crl_sequence = 9;
}

preimages_disjoint_example :
    (reboot_preimage ≢ inventory_preimage)
    × (reboot_preimage ≢ raw_preimage continuity)
    × (inventory_preimage ≢ raw_preimage continuity)
preimages_disjoint_example =
    preimages_disjoint reboot inventory continuity reboot_preimage inventory_preimage reboot_framed
      inventory_framed

validate_trust_state_claim_iff_example :
    (validate_trust_state_claim continuity true ≡ ok tt) ↔ Valid.WellFormed continuity
validate_trust_state_claim_iff_example = Valid.validate_trust_state_claim_iff continuity

continuity_valid : validate_trust_state_claim continuity true ≡ ok tt
unfolding validate_trust_state_claim is_machine_class check_roots check_receipt bytes_eq
    requires_receipt has_issuer
continuity_valid = refl

verify_trust_state_iff_example :
    (verify_trust_state toy (ecdsa_public (some public_key)) continuity (raw_preimage continuity)
      ≡ ok tt)
    ↔ ((validate_signing_key toy (ecdsa_public (some public_key)) ≡ ok tt)
        × (0 < length (raw_preimage continuity))
        × Valid.WellFormed continuity
        × (check_trust_signature toy
              (ecdsa_public (some public_key))
              (raw_preimage continuity)
              (raw_preimage continuity)
            ≡ ok tt))
verify_trust_state_iff_example =
    Valid.verify_trust_state_iff toy (ecdsa_public (some public_key)) continuity
      (raw_preimage continuity)

continuity-Encodable : Framing.Encodable continuity
continuity-Encodable = record {
  reporter_class = omega arith;
  claimed_class = omega arith;
  reporter_fingerprint = omega arith;
  generation = omega arith;
  revision = omega arith;
  root_count = omega arith;
  roots = omega arith;
  issuer = omega arith;
  sequence = omega arith;
}

raw_preimage_inj_example : continuity ≡ continuity
raw_preimage_inj_example =
    Framing.raw_preimage_inj continuity continuity continuity-Encodable continuity-Encodable refl
