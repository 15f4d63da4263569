-- ===== src/Registration/Minted.antt =====
-- A token that was minted can be used (server/internal/pki/registration_tokens.go `Mint`, `Consume`).
use power_manage.Shared.{
  ℕ, zero, suc, ◌+◌, ◌-◌, ◌/◌, ◌%◌, ◌^◌, ◌≤◌, ◌≡◌, ◌⊎◌, inl, inr, refl, sym, ap, ◌∙◌, Bool, true,
  [], ◌∷◌, ◌++◌, Option, some, ok, length, arith, Result-cases, length-append,
}
use power_manage.Shared.Int.{ℤ, ltb_ℤ, pos_part}
use power_manage.Shared.Bytes.{Bytes, bytes_eq_refl}
use power_manage.Ulid.{is_canonical_ulid}
use power_manage.Ulid.Encode.{encode_ulid, encode_ulid-is_canonical_ulid}
use power_manage.EventStore.{Event, append_event_with_version}
use power_manage.Registration.{RegistrationTokenPurpose, agent, gateway, RegistrationPayload}
use power_manage.Registration.Project.{registration_token_target}
use power_manage.Registration.Invariant.{TokenStore}
use power_manage.Registration.Service.{
  dummy_registration_token_id, zero_bytes, split_at, ParsedToken, parse_registration_token,
}
use power_manage.Ulid.Agreement.{is_canonical_ulid-ulid_path_id}
use power_manage.EventStore.Versions.{Reach, Reach-row, next}
use power_manage.EventStore.Replay.{empty_store}
use power_manage.EventStore.Commits.{append_event_with_version-Step, Reach-trans}
use power_manage.Registration.{purpose_eq, registration_token_stream_type}
use power_manage.Registration.Steps.{version_of}
use power_manage.Registration.Local.{project_token_event-Same}
use power_manage.Registration.Tables.{get_registration_token}
use power_manage.Registration.Counted.{target}
use power_manage.Registration.Granted.{consume-granted}
use power_manage.Registration.Service.{Round, RegistrationTokenGrant, consume}
use power_manage.Registration.Mint.{
  RegistrationTokenOptions, MintedRegistrationToken, entropy_bytes, unix_epoch,
  new_registration_token_id, mint_event, minted_by, mint,
}
use power_manage.Registration.Fresh.{append-IsFresh, mint_event-IsMintOf}

pub split_at-append : (xs ys : Bytes) → split_at (length xs) (xs ++ ys) ≡ (xs, ys)
unfolding split_at
split_at-append [] ys = refl
split_at-append (x ∷ xs) ys = ap (λ (r : Bytes × Bytes). (x ∷ r.0, r.1)) (split_at-append xs ys)

-- An ID that is made is canonical.
new_registration_token_id-is_canonical_ulid :
    (now : ℤ) (entropy : Bytes) {id : Bytes}
    → new_registration_token_id now entropy ≡ ok id
    → is_canonical_ulid id ≡ true
unfolding new_registration_token_id
new_registration_token_id-is_canonical_ulid now entropy {id = id} h =
    let ms = (pos_part now - unix_epoch) / 1000000 in
    let values =
      ms / 2 ^ 32 % 256
      ∷ ms / 2 ^ 24 % 256
      ∷ ms / 2 ^ 16 % 256
      ∷ ms / 2 ^ 8 % 256
      ∷ ms % 256
      ∷ entropy in
    let n : length entropy ≡ 10 = ground (arith, h) in
    let e : encode_ulid (ms / 2 ^ 40 % 256 ∷ values) ≡ id = ground (arith, h) in
    sym (ap is_canonical_ulid e)
    ∙ encode_ulid-is_canonical_ulid (ms / 2 ^ 40 % 256) values (omega arith) (omega (arith, n))

-- What the documentation of `encoding/base64` says of 32 bytes: 43 characters that decode to them.
abbrev pub IsBase64 : (Bytes → Bytes) → (Bytes → Option Bytes) → Type 0
IsBase64 encode decode =
    (s : Bytes) → length s ≡ 32 → (length (encode s) ≡ 43) × (decode (encode s) ≡ some s)

length-split_at : (n : ℕ) (s : Bytes) → n ≤ length s → length ((split_at n s).1) + n ≡ length s
unfolding split_at
length-split_at zero s h = omega arith
length-split_at (suc n) [] h = absurd (omega (arith, h))
length-split_at (suc n) (c ∷ s) h = omega (arith, length-split_at n s (omega (arith, h)))

right_purpose :
    (p expected : RegistrationTokenPurpose)
    → p ≡ expected
    → (expected ≡ agent) ⊎ (expected ≡ gateway)
    → purpose_eq p expected ≡ true
right_purpose p expected e (inl a) = ground (arith, e, a)
right_purpose p expected e (inr g) = ground (arith, e, g)

canonical-length : (id : Bytes) → is_canonical_ulid id ≡ true → length id ≡ 26
unfolding is_canonical_ulid
canonical-length [] h = cc
canonical-length (c ∷ cs) h = ground (arith, h)

module _ (is_ip : Bytes → Bool) where
  module _ (sha256 encode_base64 : Bytes → Bytes) where
    minted_by-eq-ok :
        (s : TokenStore) (event : Event RegistrationPayload) (at : ℤ) (token_id secret : Bytes)
        {after : TokenStore} {m : MintedRegistrationToken}
        → minted_by is_ip encode_base64 s event at token_id secret ≡ ok (after, m)
        → (append_event_with_version (target is_ip) s event 0 at ≡ ok after)
          × (m.token_id ≡ token_id)
          × (m.token ≡ token_id ++ (b'.' ∷ encode_base64 secret))
    unfolding minted_by
    minted_by-eq-ok s event at token_id secret {after = after} {m = m} h =
        elim (Result-cases (append_event_with_version (target is_ip) s event 0 at)) [
          | inr (x, bad) ↦ absurd (ground (arith, bad, h))
          | inl (t, done) ↦
              (ground (arith, done, h), ground (arith, done, h), ground (arith, done, h))
        ]

    mint-eq-ok :
        (s : TokenStore) (options : RegistrationTokenOptions) (now at : ℤ) (material : Bytes)
        {after : TokenStore} {m : MintedRegistrationToken}
        → mint is_ip sha256 encode_base64 s options now at (some material) ≡ ok (after, m)
        → (event : Event RegistrationPayload) × (new_registration_token_id now
              ((split_at entropy_bytes material).0)
            ≡ ok m.token_id)
          × (mint_event is_ip m.token_id (sha256 ((split_at entropy_bytes material).1)) options
              ≡ ok event)
          × (append_event_with_version (target is_ip) s event 0 at ≡ ok after)
          × (m.token ≡ m.token_id ++ (b'.' ∷ encode_base64 ((split_at entropy_bytes material).1)))
    unfolding mint
    mint-eq-ok s options now at material {after = after} {m = m} h =
        let secret = (split_at entropy_bytes material).1 in
        elim (Result-cases (mint_event is_ip dummy_registration_token_id (zero_bytes 32) options)) [
          | inr (x, bad) ↦ absurd (ground (arith, bad, h))
          | inl (trial, fine) ↦
              elim (Result-cases
                (new_registration_token_id now ((split_at entropy_bytes material).0))) [
                  | inr (x, bad) ↦ absurd (ground (arith, fine, bad, h))
                  | inl (id, made_id) ↦
                      elim (Result-cases (mint_event is_ip id (sha256 secret) options)) [
                        | inr (x, bad) ↦ absurd (ground (arith, fine, made_id, bad, h))
                        | inl (event, built) ↦
                            let (stored, is, wire) =
                              minted_by-eq-ok s event at id secret
                                (ground (arith, fine, made_id, built, h)) in
                            (
                              event,
                              made_id ∙ ap ok (sym is),
                              ap (λ i. mint_event is_ip i (sha256 secret) options) is ∙ built,
                              stored,
                              wire ∙ ap (λ i. i ++ (b'.' ∷ encode_base64 secret)) (sym is),
                            )
                      ]
                ]
        ]

    module _ (decode_base64 : Bytes → Option Bytes) where
      -- The wire form of an ID and a secret reads back as both.
      parse_wire :
          (id secret : Bytes)
          → IsBase64 encode_base64 decode_base64
          → length secret ≡ 32
          → is_canonical_ulid id ≡ true
          → parse_registration_token is_ip sha256 decode_base64
              (id ++ (b'.' ∷ encode_base64 secret))
            ≡ record { token_id = id; secret = secret; well_formed = true }
      unfolding parse_registration_token
      parse_wire id secret base64 n canonical =
          let (size, back) = base64 secret n in
          let id_len : length id ≡ 26 = canonical-length id canonical in
          let halves : split_at 26 (id ++ (b'.' ∷ encode_base64 secret))
              ≡ (id, b'.' ∷ encode_base64 secret) =
            ap (λ k. split_at k (id ++ (b'.' ∷ encode_base64 secret))) (sym id_len)
            ∙ split_at-append id (b'.' ∷ encode_base64 secret) in
          let total : length (id ++ (b'.' ∷ encode_base64 secret)) ≡ 70 =
            omega (arith, length-append id (b'.' ∷ encode_base64 secret), size, id_len) in
          ground (arith, halves, total, back, n, canonical)

      -- A token that was minted is granted when it is sent back before it expires, for its purpose, and no
      -- append to the token's own stream comes between the mint and the pass, and none at all between
      -- the read of the pass and its append. Reading the wire form gives back the ID and the secret. The
      -- random source gave 42 bytes, base64 is as documented, the minting store is reachable, and the
      -- expiry is a whole number of microseconds, which is what the column keeps.
      pub consume-mint :
          (s : TokenStore) (options : RegistrationTokenOptions) (now at : ℤ) (material : Bytes)
          {after : TokenStore} {m : MintedRegistrationToken} (rounds : ℕ → Round)
          → IsBase64 encode_base64 decode_base64
          → length material ≡ 42
          → pos_part options.expires_at % 1000 ≡ 0
          → Reach (registration_token_target is_ip) (empty_store []) s
          → mint is_ip sha256 encode_base64 s options now at (some material) ≡ ok (after, m)
          → Reach (registration_token_target is_ip) after (rounds 0).seen
          → version_of (rounds 0).seen m.token_id ≡ version_of after m.token_id
          → (rounds 0).current ≡ (rounds 0).seen
          → ltb_ℤ (rounds 0).checked_at options.expires_at ≡ true
          → (parse_registration_token is_ip sha256 decode_base64 m.token ≡ record {
            token_id = m.token_id;
            secret = (split_at entropy_bytes material).1;
            well_formed = true;
          })
            × (used : TokenStore) × (grant : RegistrationTokenGrant) × (consume is_ip sha256
                  decode_base64 rounds m.token options.purpose
                ≡ ok (used, grant))
      consume-mint s options now at material {after = after} {m = m} rounds base64 n whole r h later
            unused current time =
          let secret = (split_at entropy_bytes material).1 in
          let (event, made_id, built, stored, wire) = mint-eq-ok s options now at material h in
          let canonical =
            new_registration_token_id-is_canonical_ulid now ((split_at entropy_bytes material).0)
              made_id in
          let up = (((is_canonical_ulid-ulid_path_id m.token_id).1).0 canonical).1 in
          let size : length secret ≡ 32 =
            omega (arith, length-split_at entropy_bytes material (omega (arith, n)), n) in
          let reads =
            ap (parse_registration_token is_ip sha256 decode_base64) wire
            ∙ parse_wire m.token_id secret base64 size canonical in
          let (minted, known) =
            mint_event-IsMintOf is_ip m.token_id (sha256 secret) options built in
          let (row, got, hash, purpose, on, fresh, bound, positive, expires) =
            append-IsFresh is_ip s event m.token_id (sha256 secret) options at r up minted stored in
          let reached =
            next r (append_event_with_version-Step (target is_ip) s event 0 at stored) in
          let seen = (rounds 0).seen in
          let kept =
            Reach-row (target is_ip) (λ tables. get_registration_token tables m.token_id)
              registration_token_stream_type m.token_id
              (λ tables tables' e type other done.
                project_token_event-Same is_ip tables tables' e m.token_id
                  (ground (arith, type, other, bytes_eq_refl registration_token_stream_type)) done)
              later unused in
          let (used, grant, granted) =
            consume-granted is_ip sha256 decode_base64 rounds m.token options.purpose row
              (Reach-trans (target is_ip) reached later) current known
              (ap (λ (p : ParsedToken). get_registration_token seen.tables p.token_id) reads
                ∙ kept
                ∙ got)
              (
                ap (λ p. p.well_formed) reads,
                ap (λ p. sha256 p.secret) reads ∙ sym hash,
                on,
                ground (arith, time, expires),
                omega (arith, fresh, bound, positive),
                right_purpose row.purpose options.purpose purpose known,
              ) in
          (reads, used, grant, granted)
