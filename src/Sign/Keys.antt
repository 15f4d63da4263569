-- ===== src/Sign/Keys.antt =====
-- contract/sign/sign.go `ValidateSigningKey` and the private validators with their `recover`.
use power_manage.Shared.{
  zero, suc, ◌^◌, ◌%◌, Bool, true, false, ◌||◌, not, List, Option, none, some, Result, ok, err,
  ◌>>=◌, ◌>>◌, reject_if, ltb, ◌==◌,
}
use power_manage.Shared.Int.{ℤ, pos, negsuc}
use power_manage.Shared.Bytes.{Bytes}

-- `elliptic.P224()` and its kin; `other_curve` is any other implementation of the interface, or nil.
pub data Curve : Type 0 where
  p224 p256 p384 p521 other_curve : Curve

-- A coordinate or a modulus is a pointer to a big integer, which may be nil.
pub record EcdsaPublicKey : Type 0 where
  pub curve : Curve
  pub x : Option ℤ
  pub y : Option ℤ

pub record EcdsaPrivateKey : Type 0 where
  pub public_key : EcdsaPublicKey
  pub d : Option ℤ

pub record RsaPublicKey : Type 0 where
  pub n : Option ℤ
  pub e : ℤ

pub record RsaPrivateKey : Type 0 where
  pub public_key : RsaPublicKey
  pub d : Option ℤ
  pub primes : List ℤ

-- The dynamic types that the type switch tells apart; `none` is a typed nil pointer. `signer` is a
-- `crypto.Signer` of another type, with its `Public()`.
pub data Key : Type 0 where
  nil_key : Key
  ecdsa_private : Option EcdsaPrivateKey → Key
  rsa_private : Option RsaPrivateKey → Key
  ecdsa_public : Option EcdsaPublicKey → Key
  rsa_public : Option RsaPublicKey → Key
  ed25519_public ed25519_private : Key
  nil_signer : Key
  signer : Key → Key
  other_key : Key

-- A call of a standard-library function that may return an error or panic.
pub data Call (A : Type 0) : Type 0 where
  returned : A → Call A
  failed panicked : Call A

-- The cryptographic primitives of Go's standard library, and the protobuf runtime's conversion of a
-- timestamp to an instant. `sign` is one call: its draw from `rand.Reader` is part of the function.
pub record Primitives : Type 0 where
  pub ecdsa_public_bytes : EcdsaPublicKey → Call Bytes
  pub ecdsa_private_bytes : EcdsaPrivateKey → Call Bytes
  pub parse_raw_private_key : Curve → Bytes → Call EcdsaPrivateKey
  pub ecdsa_public_equal : EcdsaPublicKey → EcdsaPublicKey → Bool
  pub rsa_validate : RsaPrivateKey → Call (Unit {0})
  pub sha256 : Bytes → Bytes
  pub sign : Key → Bytes → Option Bytes
  pub ecdsa_verify_asn1 : EcdsaPublicKey → Bytes → Bytes → Bool
  pub rsa_verify_pkcs1v15 : RsaPublicKey → Bytes → Bytes → Bool
  pub asn1_unmarshal_pair : Bytes → Option (Option ℤ × Option ℤ × Bytes)

pub data KeyError : Type 0 where
  nil_key_material unsupported_curve invalid_ecdsa_public malformed_coordinates : KeyError
  invalid_rsa_public invalid_ecdsa_private malformed_scalar scalar_mismatch : KeyError
  invalid_rsa_private malformed_components ed25519_refused unsupported_key_type : KeyError

-- `defer func() { if recover() != nil { err = ... } }()` around a call.
abbrev recover : {A : Type 0} → Call A → KeyError → KeyError → Result KeyError A
recover (returned a) on_error on_panic = ok a
recover failed on_error on_panic = err on_error
recover panicked on_error on_panic = err on_panic

abbrev supported_curve : Curve → Bool
supported_curve p256 = true
supported_curve p384 = true
supported_curve p521 = true
supported_curve _ = false

-- N is nil, not positive, shorter than 2048 bits, or even.
abbrev bad_modulus : Option ℤ → Bool
bad_modulus none = true
bad_modulus (some (pos zero)) = true
bad_modulus (some (negsuc n)) = true
bad_modulus (some (pos (suc n))) = ltb (suc n) (2 ^ 2047) || suc n % 2 == 0

-- E is below 3 or even; an even exponent below 3 is refused already.
abbrev bad_exponent : ℤ → Bool
bad_exponent (pos e) = ltb e 3 || e % 2 == 0
bad_exponent (negsuc e) = true

module _ (c : Primitives) where
  validate_ecdsa_point : EcdsaPublicKey → Result KeyError (Unit {0})
  validate_ecdsa_point k = do
    _ ← recover (c.ecdsa_public_bytes k) invalid_ecdsa_public malformed_coordinates
    ok tt

  validate_ecdsa_private_key : EcdsaPrivateKey → Result KeyError (Unit {0})
  validate_ecdsa_private_key k = do
    raw ← recover (c.ecdsa_private_bytes k) invalid_ecdsa_private malformed_scalar
    parsed ←
        recover (c.parse_raw_private_key k.public_key.curve raw) invalid_ecdsa_private
          malformed_scalar
    reject_if (not (c.ecdsa_public_equal parsed.public_key k.public_key)) scalar_mismatch
    ok tt

  validate_rsa_private_key : RsaPrivateKey → Result KeyError (Unit {0})
  validate_rsa_private_key k = recover (c.rsa_validate k) invalid_rsa_private malformed_components

  -- The cases `*ecdsa.PublicKey` and `*rsa.PublicKey` of the switch.
  validate_ecdsa_public : EcdsaPublicKey → Result KeyError (Unit {0})
  unfolding validate_ecdsa_point
  validate_ecdsa_public k = do
    reject_if (not (supported_curve k.curve)) unsupported_curve
    validate_ecdsa_point k

  validate_rsa_public : RsaPublicKey → Result KeyError (Unit {0})
  validate_rsa_public k = do
    reject_if (bad_modulus k.n || bad_exponent k.e) invalid_rsa_public
    ok tt

  unfoldable pub validate_signing_key : Key → Result KeyError (Unit {0})
  unfolding validate_ecdsa_public validate_rsa_public validate_ecdsa_private_key
      validate_rsa_private_key
  validate_signing_key nil_key = err nil_key_material
  validate_signing_key (ecdsa_private none) = err nil_key_material
  validate_signing_key (ecdsa_private (some k)) = do
    validate_ecdsa_public k.public_key
    validate_ecdsa_private_key k
  validate_signing_key (rsa_private none) = err nil_key_material
  validate_signing_key (rsa_private (some k)) = do
    validate_rsa_public k.public_key
    validate_rsa_private_key k
  validate_signing_key (ecdsa_public none) = err nil_key_material
  validate_signing_key (ecdsa_public (some k)) = validate_ecdsa_public k
  validate_signing_key (rsa_public none) = err nil_key_material
  validate_signing_key (rsa_public (some k)) = validate_rsa_public k
  validate_signing_key ed25519_public = err ed25519_refused
  validate_signing_key ed25519_private = err ed25519_refused
  validate_signing_key nil_signer = err nil_key_material
  validate_signing_key (signer p) = validate_signing_key p
  validate_signing_key other_key = err unsupported_key_type

-- How a signature check by the type switch of the verifiers ends.
pub data SignatureCheck : Type 0 where
  valid_signature invalid_signature unsupported_verifying_key : SignatureCheck

abbrev check_of : Bool → SignatureCheck
check_of true = valid_signature
check_of false = invalid_signature

-- `ecdsa.VerifyASN1` or `rsa.VerifyPKCS1v15` by the key's dynamic type. The other types end in the
-- `default` case; so do the typed nils here, which `ValidateSigningKey` has refused before.
unfoldable pub check_signature : Primitives → Key → Bytes → Bytes → SignatureCheck
check_signature c (ecdsa_public (some k)) digest sig = check_of (c.ecdsa_verify_asn1 k digest sig)
check_signature c (rsa_public (some k)) digest sig = check_of (c.rsa_verify_pkcs1v15 k digest sig)
check_signature _ _ _ _ = unsupported_verifying_key

-- The verifying half of a signing key.
unfoldable pub public_of : Key → Key
public_of (ecdsa_private (some k)) = ecdsa_public (some k.public_key)
public_of (rsa_private (some k)) = rsa_public (some k.public_key)
public_of (signer p) = p
public_of k = k
