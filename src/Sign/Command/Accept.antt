-- ===== src/Sign/Command/Accept.antt =====
-- When `VerifyCommand` accepts (contract/sign/sign.go), and that it accepts what `SignCommand` signs.
use power_manage.Shared.{
  ◌≡◌, refl, ◌∙◌, ◌≢◌, ◌↔◌, inl, inr, Option, none, some, ok, arith, Result-cases, Option-cases,
}
use power_manage.Shared.Int.{ℤ, pos}
use power_manage.Shared.Bytes.{Bytes, bytes_eq_iff}
use power_manage.Sign.Frame.{Timestamp}
use power_manage.Sign.Keys.{
  Key, Primitives, validate_signing_key, check_signature, valid_signature, public_of, ecdsa_private,
  rsa_private, signer,
}
use power_manage.Sign.Command.{
  SignedCommand, VerifyOptions, command_preimage, sign_command, verify_command,
}
use power_manage.Sign.Command.Window.{InWindow, check_window-InWindow, InWindow-check_window}

-- Every condition under which a command may run, and the payload that is handed on.
pub record Accepted (c : Primitives) (as_time : Option Timestamp → ℤ) (key : Key)
    (cmd : SignedCommand) (opts : VerifyOptions) (payload : Bytes) : Type 0 where
  pub clock_set : opts.now ≢ pos 0
  pub key_valid : validate_signing_key c key ≡ ok tt
  pub preimage : Bytes
  pub framed : command_preimage cmd ≡ ok preimage
  pub addressed : cmd.target_device_id ≡ opts.device_id
  pub signed : check_signature c key (c.sha256 preimage) cmd.signature ≡ valid_signature
  pub timely : InWindow (as_time cmd.issued_at) (as_time cmd.expires_at) cmd.command_type opts
  pub exact : payload ≡ cmd.payload

module _ (c : Primitives) (as_time : Option Timestamp → ℤ) (key : Key) (cmd : SignedCommand)
    (opts : VerifyOptions) (payload : Bytes) where
  verify_command-Accepted :
      verify_command c as_time key cmd opts ≡ ok payload → Accepted c as_time key cmd opts payload
  unfolding verify_command
  verify_command-Accepted h = elim (Result-cases (command_preimage cmd)) [
    | inr (e, he) ↦ ground arith
    | inl (p, hp) ↦ record {
      clock_set = ground arith;
      key_valid = ground arith;
      preimage = p;
      framed = hp;
      addressed = ground (arith, bytes_eq_iff cmd.target_device_id opts.device_id);
      signed = ground arith;
      timely = check_window-InWindow _ _ _ _ (ground arith);
      exact = ground arith;
    }
  ]

  Accepted-verify_command :
      Accepted c as_time key cmd opts payload → verify_command c as_time key cmd opts ≡ ok payload
  unfolding verify_command
  Accepted-verify_command a = ground (
    arith,
    a.clock_set,
    bytes_eq_iff cmd.target_device_id opts.device_id,
    InWindow-check_window (as_time cmd.issued_at) (as_time cmd.expires_at) cmd.command_type opts
        a.timely,
  )

  -- A verification returns a payload exactly when the clock is set, the key is an acceptable one, the
  -- preimage can be built, the command is addressed to the verifying device, the signature holds over
  -- the digest of the preimage and the validity window is met; the payload is then the command's.
  pub verify_command_iff :
      (verify_command c as_time key cmd opts ≡ ok payload) ↔ Accepted c as_time key cmd opts payload
  verify_command_iff = (verify_command-Accepted, Accepted-verify_command)

-- A key that may sign has a public half that may verify.
public_of-valid :
    (c : Primitives) (key : Key)
    → validate_signing_key c key ≡ ok tt
    → validate_signing_key c (public_of key) ≡ ok tt
unfolding validate_signing_key public_of
public_of-valid c (ecdsa_private none) h = cc
public_of-valid c (ecdsa_private (some k)) h = ground arith
public_of-valid c (rsa_private none) h = cc
public_of-valid c (rsa_private (some k)) h = ground arith
public_of-valid c (signer p) h = h
public_of-valid c k h = h

-- What a call of `SignCommand` that returned no error did.
record Signed (c : Primitives) (key : Key) (cmd signed : SignedCommand) : Type 0 where
  key_valid : validate_signing_key c key ≡ ok tt
  preimage : Bytes
  framed : command_preimage cmd ≡ ok preimage
  sig : Bytes
  produced : c.sign key (c.sha256 preimage) ≡ some sig
  result : signed ≡ record cmd { signature = sig }

sign_command-Signed :
    (c : Primitives) (key : Key) (cmd signed : SignedCommand)
    → sign_command c key cmd ≡ ok signed
    → Signed c key cmd signed
unfolding sign_command
sign_command-Signed c key cmd signed h = elim (Result-cases (command_preimage cmd)) [
  | inr (e, he) ↦ ground arith
  | inl (p, hp) ↦ elim (Option-cases (c.sign key (c.sha256 p))) [
    | inl hs ↦ ground arith
    | inr (sig, hs) ↦ record {
      key_valid = ground arith;
      preimage = p;
      framed = hp;
      sig = sig;
      produced = hs;
      result = ground arith;
    }
  ]
]

-- The signature is no covered field.
command_preimage-signature :
    (cmd : SignedCommand) (sig : Bytes)
    → command_preimage (record cmd { signature = sig }) ≡ command_preimage cmd
unfolding command_preimage
command_preimage-signature cmd sig = refl

-- Where the primitives' signatures verify under the signing key's public half, a command that was
-- signed passes verification on the addressed device inside its window, with the payload that was
-- signed.
pub verify_command-sign_command :
    (c : Primitives) (as_time : Option Timestamp → ℤ) (key : Key) (cmd signed : SignedCommand)
    (opts : VerifyOptions)
    → ((digest sig : Bytes)
        → c.sign key digest ≡ some sig
        → check_signature c (public_of key) digest sig ≡ valid_signature)
    → sign_command c key cmd ≡ ok signed
    → opts.now ≢ pos 0
    → cmd.target_device_id ≡ opts.device_id
    → InWindow (as_time cmd.issued_at) (as_time cmd.expires_at) cmd.command_type opts
    → verify_command c as_time (public_of key) signed opts ≡ ok cmd.payload
verify_command-sign_command c as_time key cmd signed opts verifies h clock target window =
    let s = sign_command-Signed c key cmd signed h in
    rw s.result (
      Accepted-verify_command c as_time (public_of key) (record cmd { signature = s.sig }) opts
        cmd.payload
        (record {
          clock_set = clock;
          key_valid = public_of-valid c key s.key_valid;
          preimage = s.preimage;
          framed = command_preimage-signature cmd s.sig ∙ s.framed;
          addressed = target;
          signed = verifies (c.sha256 s.preimage) s.sig s.produced;
          timely = window;
          exact = refl;
        }))
