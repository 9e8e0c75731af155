-- ===== src/Crypto/Sealed.antt =====
-- go/crypto/envelope.go: what `Decrypt` returns.
use ivorycom_governance.Common.{String, ◌≡◌, ◌↔◌, refl, length, ◌==◌, nat_eq, string_eq, arith}
use ivorycom_governance.Common.Result.{ok, >>=-eq-ok, wrap->>=-eq-ok, require->>=-eq-ok}
use ivorycom_governance.Crypto.{
  Bytes, Envelope, Primitives, Kms, bad_key_size, bad_nonce_size, gcm_of, decrypt, key_arn_of,
}

-- The envelope names the ARN, its data key unwraps under that ARN to 32 bytes, and its ciphertext is
-- the seal of the text under them, with the envelope's nonce, of the size that the cipher asks for,
-- and the ARN as additional data.
pub record IsSealed {Block Gcm : Type 0} (x : Primitives Block Gcm) (kms : Kms) (env : Envelope)
    (key_arn : String) (plaintext : Bytes) : Type 0 where
  pub dk : Bytes
  pub gcm : Gcm
  pub names : env.key_arn ≡ key_arn
  pub unwraps : kms.decrypt key_arn env.data_key ≡ ok dk
  pub size : length dk ≡ 32
  pub keys : gcm_of x kms dk ≡ ok gcm
  pub fits : length env.nonce ≡ x.nonce_size gcm
  pub seals : env.cipher ≡ x.seal gcm env.nonce plaintext key_arn

module _ {Block Gcm : Type 0} (x : Primitives Block Gcm) (kms : Kms) where
  gcm_of-length : (dk : Bytes) (gcm : Gcm) → gcm_of x kms dk ≡ ok gcm → length dk ≡ 32
  unfolding gcm_of
  gcm_of-length dk gcm h =
      let (sized, h') = require->>=-eq-ok (length dk == 32) (bad_key_size (length dk)) _ h in
      (nat_eq.equal_iff (length dk) 32).0 sized

  -- the steps of `Decrypt` on an envelope that decodes to this one, up to its result
  abbrev pub IsOpened : Envelope → Bytes → Type 0
  IsOpened env plaintext =
      (dk : Bytes) × (gcm : Gcm) × (kms.decrypt env.key_arn env.data_key ≡ ok dk)
      × (gcm_of x kms dk ≡ ok gcm)
      × (length env.nonce ≡ x.nonce_size gcm)
      × (x.unseal gcm env.nonce env.cipher env.key_arn ≡ ok plaintext)

  pub decrypt-IsOpened :
      (envelope plaintext : Bytes) (env : Envelope)
      → x.unmarshal envelope ≡ ok env
      → decrypt x kms envelope ≡ ok plaintext
      → IsOpened env plaintext
  unfolding decrypt
  decrypt-IsOpened envelope plaintext env decodes h =
      let (dk, unwraps, h1) =
        wrap->>=-eq-ok _ (kms.decrypt env.key_arn env.data_key) _ (rw decodes at h) in
      let (gcm, keys, h2) = >>=-eq-ok (gcm_of x kms dk) _ h1 in
      let (sized, h3) =
        require->>=-eq-ok (length env.nonce == x.nonce_size gcm) (bad_nonce_size (length env.nonce))
          _ h2 in
      let opens : x.unseal gcm env.nonce env.cipher env.key_arn ≡ ok plaintext = ground arith in
      (
        dk,
        gcm,
        unwraps,
        keys,
        (nat_eq.equal_iff (length env.nonce) (x.nonce_size gcm)).0 sized,
        opens,
      )

  -- Suppose that AES-GCM, at a nonce of its size, opens a ciphertext to a text only where the
  -- ciphertext is the seal of that text. If `Decrypt` returns a plaintext, then `KeyARNOf` returns an
  -- ARN, and the envelope decodes to one whose ciphertext is the seal of that plaintext, with this ARN
  -- as additional data, under a key of 32 bytes that KMS unwraps for this ARN.
  pub decrypt-IsSealed :
      ((gcm : Gcm) (nonce cipher text : Bytes) (ad : String)
        → length nonce ≡ x.nonce_size gcm
        → x.unseal gcm nonce cipher ad ≡ ok text
        → cipher ≡ x.seal gcm nonce text ad)
      → (plaintext envelope : Bytes) → decrypt x kms envelope ≡ ok plaintext
      → (key_arn : String) × (env : Envelope) × (key_arn_of x kms envelope ≡ ok key_arn)
        × (x.unmarshal envelope ≡ ok env)
        × IsSealed x kms env key_arn plaintext
  unfolding decrypt key_arn_of
  decrypt-IsSealed authentic plaintext envelope h =
      let (env, decodes, h1) = wrap->>=-eq-ok _ (x.unmarshal envelope) _ h in
      let (dk, gcm, unwraps, keys, fits, opens) =
        decrypt-IsOpened envelope plaintext env decodes h in
      (
        env.key_arn,
        env,
        rw decodes refl,
        decodes,
        record {
          dk = dk;
          gcm = gcm;
          names = refl;
          unwraps = unwraps;
          size = gcm_of-length dk gcm keys;
          keys = keys;
          fits = fits;
          seals = authentic gcm env.nonce env.cipher plaintext env.key_arn fits opens;
        },
      )

  abbrev Exact : Type 0
  Exact =
      (gcm : Gcm) (nonce cipher text : Bytes) (ad : String)
      → length nonce ≡ x.nonce_size gcm
      → (x.unseal gcm nonce cipher ad ≡ ok text) ↔ (cipher ≡ x.seal gcm nonce text ad)

  IsSealed-decrypt :
      Exact
      → (plaintext envelope : Bytes) (key_arn : String) (env : Envelope)
      → x.unmarshal envelope ≡ ok env
      → IsSealed x kms env key_arn plaintext
      → decrypt x kms envelope ≡ ok plaintext
  unfolding decrypt
  IsSealed-decrypt exact plaintext envelope key_arn env decodes sealed =
      let unwraps : kms.decrypt env.key_arn env.data_key ≡ ok sealed.dk =
        rw sealed.names sealed.unwraps in
      let seals : env.cipher ≡ x.seal sealed.gcm env.nonce plaintext env.key_arn =
        rw sealed.names sealed.seals in
      let opens =
        (exact sealed.gcm env.nonce env.cipher plaintext env.key_arn sealed.fits).1 seals in
      rw (decodes, unwraps, sealed.keys, (nat_eq.equal_iff _ _).1 sealed.fits, opens) refl

  -- Suppose that AES-GCM, at a nonce of its size, opens a ciphertext to a text exactly where the
  -- ciphertext is the seal of that text under the same key, nonce and additional data. Then `Decrypt`
  -- returns a plaintext exactly when `KeyARNOf` returns an ARN and the envelope decodes to one whose
  -- ciphertext is the seal of that plaintext, with this ARN as additional data and the envelope's
  -- nonce, of the cipher's size, under a key of 32 bytes that KMS unwraps for this ARN.
  pub decrypt-IsSealed_iff :
      ((gcm : Gcm) (nonce cipher text : Bytes) (ad : String)
        → length nonce ≡ x.nonce_size gcm
        → (x.unseal gcm nonce cipher ad ≡ ok text) ↔ (cipher ≡ x.seal gcm nonce text ad))
      → (plaintext envelope : Bytes)
      → (decrypt x kms envelope ≡ ok plaintext) ↔ (
          (key_arn : String) × (env : Envelope) × (key_arn_of x kms envelope ≡ ok key_arn)
          × (x.unmarshal envelope ≡ ok env)
          × IsSealed x kms env key_arn plaintext)
  decrypt-IsSealed_iff exact plaintext envelope = (
    λ h.
        decrypt-IsSealed (λ gcm nonce cipher text ad fits. (exact gcm nonce cipher text ad fits).0)
          plaintext envelope h,
    λ (key_arn, env, _, decodes, sealed).
        IsSealed-decrypt exact plaintext envelope key_arn env decodes sealed,
  )
