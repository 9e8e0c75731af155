-- ===== src/Crypto/Tampered.antt =====
-- go/crypto/envelope.go: what `Decrypt` makes of an envelope whose ARN was exchanged.
mod Tests
use ivorycom_governance.Common.{ℕ, String, ◌≡◌, ◌≢◌, sym, ap, ◌∙◌, inl, inr, length, arith}
use ivorycom_governance.Common.Result.{Result, ok, err, Result-cases}
use ivorycom_governance.Crypto.{
  Bytes, CryptoError, Envelope, Primitives, Kms, gcm_of, encrypt, decrypt,
}
use ivorycom_governance.Crypto.RoundTrip.{gcm_of-eq, encrypt-Encrypts}
use ivorycom_governance.Crypto.Sealed.{decrypt-IsOpened}

-- Suppose that decoding an encoded envelope restores it, that KMS unwraps a key that it generated to
-- no other bytes under any ARN, and that AES-GCM, at a nonce of its size, opens what was sealed under
-- some additional data only with the same additional data. Then `Decrypt` returns an error for every
-- envelope that differs from what `Encrypt` returned in the ARN alone, even where KMS unwraps the
-- data key under that ARN.
pub decrypt-swapped_arn :
    {Block Gcm : Type 0} (x : Primitives Block Gcm) (kms : Kms) (random : ℕ → Result String Bytes)
    → ((env : Envelope) (text : Bytes) → x.marshal env ≡ ok text → x.unmarshal text ≡ ok env)
    → ((arn other : String) (dk dk' wrapped : Bytes)
        → kms.generate_data_key arn ≡ ok (dk, wrapped)
        → kms.decrypt other wrapped ≡ ok dk'
        → dk ≡ dk')
    → ((gcm : Gcm) (nonce text text' : Bytes) (ad ad' : String)
        → length nonce ≡ x.nonce_size gcm
        → x.unseal gcm nonce (x.seal gcm nonce text ad) ad' ≡ ok text'
        → ad ≡ ad')
    → (key_arn other : String) (plaintext envelope tampered : Bytes) (env : Envelope)
    → encrypt x kms random key_arn plaintext ≡ ok envelope
    → x.unmarshal envelope ≡ ok env
    → x.unmarshal tampered ≡ ok (record env { key_arn = other })
    → other ≢ key_arn
    → (e : CryptoError) × (decrypt x kms tampered ≡ err e)
decrypt-swapped_arn x kms random restores one_key one_ad key_arn other plaintext envelope tampered
      env sealed decodes changed swapped =
    elim (Result-cases (decrypt x kms tampered)) [
      | inr failed ↦ failed
      | inl (text, h) ↦
          let e = encrypt-Encrypts x kms random key_arn plaintext envelope sealed in
          let (dk, gcm, unwraps, keys, fits, opens) =
            decrypt-IsOpened x kms tampered text (record env { key_arn = other }) changed h in
          let env_lem : env ≡ record {
            key_arn = key_arn;
            data_key = e.wrapped;
            nonce = e.nonce;
            cipher = x.seal e.gcm e.nonce plaintext key_arn;
          } =
            let decoded = restores _ envelope e.marshals in cc in
          let key = one_key key_arn other e.dk dk e.wrapped e.generates (rw env_lem at unwraps) in
          let keyed = gcm_of-eq x kms e.dk e.block e.gcm e.size e.ciphers e.modes in
          let mode : gcm ≡ e.gcm = cc in
          let fits' : length e.nonce ≡ x.nonce_size e.gcm = rw (env_lem, mode) at fits in
          absurd (
            swapped (
              sym (
                one_ad e.gcm e.nonce plaintext text key_arn other fits'
                  (rw (env_lem, mode) at opens))))
    ]
