-- ===== src/Crypto/RoundTrip.antt =====
-- go/crypto/envelope.go: `Decrypt` on what `Encrypt` returns.
use ivorycom_governance.Common.{
  ℕ, String, ◌≡◌, ◌≢◌, ◌↔◌, eq_iff, refl, true, not, length, ◌==◌, nat_eq, string_eq, arith,
}
use ivorycom_governance.Common.Result.{Result, ok, >>=-eq-ok, wrap->>=-eq-ok, require->>=-eq-ok}
use ivorycom_governance.Crypto.{
  Bytes, Envelope, Primitives, Kms, key_arn_required, bad_key_size, aes_failed, gcm_of, encrypt,
  decrypt, key_arn_of,
}

-- Every step of `Encrypt` goes well: an ARN is given, KMS generates a key of 32 bytes for it, AES-GCM
-- takes the key, the random source gives a nonce, and the envelope can be encoded.
pub record Encrypts {Block Gcm : Type 0} (x : Primitives Block Gcm) (kms : Kms)
    (random : ℕ → Result String Bytes) (key_arn : String) (plaintext envelope : Bytes)
    : Type 0 where
  pub given : key_arn ≢ ""
  pub dk : Bytes
  pub wrapped : Bytes
  pub block : Block
  pub gcm : Gcm
  pub nonce : Bytes
  pub generates : kms.generate_data_key key_arn ≡ ok (dk, wrapped)
  pub size : length dk ≡ 32
  pub ciphers : x.new_cipher dk ≡ ok block
  pub modes : x.new_gcm block ≡ ok gcm
  pub draws : random (x.nonce_size gcm) ≡ ok nonce
  pub marshals :
      x.marshal (record {
        key_arn = key_arn;
        data_key = wrapped;
        nonce = nonce;
        cipher = x.seal gcm nonce plaintext key_arn;
      })
      ≡ ok envelope

given_iff : (key_arn : String) → (not (key_arn == "") ≡ true) ↔ (key_arn ≢ "")
given_iff key_arn = ground (arith, eq_iff key_arn "")

module _ {Block Gcm : Type 0} (x : Primitives Block Gcm) (kms : Kms) where
  pub gcm_of-eq :
      (dk : Bytes) (block : Block) (gcm : Gcm)
      → length dk ≡ 32
      → x.new_cipher dk ≡ ok block
      → x.new_gcm block ≡ ok gcm
      → gcm_of x kms dk ≡ ok gcm
  unfolding gcm_of
  gcm_of-eq dk block gcm size ciphers modes =
      rw ((nat_eq.equal_iff (length dk) 32).1 size, ciphers, modes) refl

  gcm_of-cases :
      (dk : Bytes) (gcm : Gcm)
      → gcm_of x kms dk ≡ ok gcm
      → (block : Block) × (length dk ≡ 32)
        × (x.new_cipher dk ≡ ok block)
        × (x.new_gcm block ≡ ok gcm)
  unfolding gcm_of
  gcm_of-cases dk gcm h =
      let (sized, h') = require->>=-eq-ok (length dk == 32) (bad_key_size (length dk)) _ h in
      let (block, ciphers, h'') = wrap->>=-eq-ok aes_failed (x.new_cipher dk) _ h' in
      (block, (nat_eq.equal_iff (length dk) 32).0 sized, ciphers, ground arith)

  pub encrypt-Encrypts :
      (random : ℕ → Result String Bytes) (key_arn : String) (plaintext envelope : Bytes)
      → encrypt x kms random key_arn plaintext ≡ ok envelope
      → Encrypts x kms random key_arn plaintext envelope
  unfolding encrypt
  encrypt-Encrypts random key_arn plaintext envelope h =
      let (given, h1) = require->>=-eq-ok (not (key_arn == "")) key_arn_required _ h in
      let (keys, generates, h2) = wrap->>=-eq-ok _ (kms.generate_data_key key_arn) _ h1 in
      let (gcm, keyed, h3) = >>=-eq-ok (gcm_of x kms keys.0) _ h2 in
      let (nonce, draws, h4) = wrap->>=-eq-ok _ (random (x.nonce_size gcm)) _ h3 in
      let (block, size, ciphers, modes) = gcm_of-cases keys.0 gcm keyed in
      record {
        given = (given_iff key_arn).0 given;
        dk = keys.0;
        wrapped = keys.1;
        block = block;
        gcm = gcm;
        nonce = nonce;
        generates = generates;
        size = size;
        ciphers = ciphers;
        modes = modes;
        draws = draws;
        marshals = ground arith;
      }

  Encrypts-encrypt :
      (random : ℕ → Result String Bytes) (key_arn : String) (plaintext envelope : Bytes)
      → Encrypts x kms random key_arn plaintext envelope
      → encrypt x kms random key_arn plaintext ≡ ok envelope
  unfolding encrypt
  Encrypts-encrypt random key_arn plaintext envelope e =
      rw
        (
          (given_iff key_arn).1 e.given,
          e.generates,
          gcm_of-eq e.dk e.block e.gcm e.size e.ciphers e.modes,
          e.draws,
          e.marshals,
        )
        refl

-- Suppose that decoding an encoded envelope restores it, that KMS unwraps a key it wrapped, that
-- the random source gives as many bytes as are asked for, and that AES-GCM, at a nonce of its size,
-- opens what it seals under the same nonce and additional data. Then `Encrypt` returns an envelope
-- exactly when an ARN is given, KMS generates a key of 32 bytes for it, AES-GCM takes the key, the
-- random source gives a nonce, and the envelope is the encoding of what is sealed; and then `Decrypt`
-- returns the plaintext from it, and `KeyARNOf` the ARN of the key.
pub decrypt-encrypt :
    {Block Gcm : Type 0} (x : Primitives Block Gcm) (kms : Kms) (random : ℕ → Result String Bytes)
    → ((env : Envelope) (text : Bytes) → x.marshal env ≡ ok text → x.unmarshal text ≡ ok env)
    → ((arn : String) (dk wrapped : Bytes)
        → kms.generate_data_key arn ≡ ok (dk, wrapped)
        → kms.decrypt arn wrapped ≡ ok dk)
    → ((n : ℕ) (bytes : Bytes) → random n ≡ ok bytes → length bytes ≡ n)
    → ((gcm : Gcm) (nonce text : Bytes) (ad : String)
        → length nonce ≡ x.nonce_size gcm
        → x.unseal gcm nonce (x.seal gcm nonce text ad) ad ≡ ok text)
    → (key_arn : String) (plaintext envelope : Bytes)
    → (encrypt x kms random key_arn plaintext ≡ ok envelope) ↔ (
        Encrypts x kms random key_arn plaintext envelope
        × (decrypt x kms envelope ≡ ok plaintext)
        × (key_arn_of x kms envelope ≡ ok key_arn))
unfolding decrypt key_arn_of
decrypt-encrypt x kms random restores unwraps draws opens key_arn plaintext envelope = (
  λ h.
      let e = encrypt-Encrypts x kms random key_arn plaintext envelope h in
      let decoded = restores _ envelope e.marshals in
      let unwrapped = unwraps key_arn e.dk e.wrapped e.generates in
      let keyed = gcm_of-eq x kms e.dk e.block e.gcm e.size e.ciphers e.modes in
      let fits = draws (x.nonce_size e.gcm) e.nonce e.draws in
      let size = (nat_eq.equal_iff (length e.nonce) (x.nonce_size e.gcm)).1 fits in
      let opened = opens e.gcm e.nonce plaintext key_arn fits in
      (e, rw (decoded, unwrapped, keyed, size, opened) refl, rw decoded refl),
  λ (e, _, _). Encrypts-encrypt x kms random key_arn plaintext envelope e,
)
