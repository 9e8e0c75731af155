-- ===== src/Crypto.antt =====
-- go/crypto/envelope.go: envelope encryption. Bytes are numbers. The answers of KMS and of the
-- random source are functions that each call takes; AES-GCM and `encoding/json` are the fields of
-- `Primitives`, whose `Block` and `Gcm` are what `aes.NewCipher` and `cipher.NewGCM` return. The
-- additional data `[]byte(keyARN)` is passed on as the text itself.
mod RoundTrip
mod Sealed
mod Tampered
mod Sample
mod Tests
use ivorycom_governance.Common.{
  ℕ, String, Bool, true, false, not, List, [], ◌∷◌, length, ◌==◌, nat_eq, string_eq, if◌then◌else◌,
}
use ivorycom_governance.Common.Result.{Result, ok, err, ◌>>=◌, wrap, require}

abbrev pub Bytes : Type 0
Bytes = List ℕ

pub record Envelope : Type 0 where
  pub key_arn : String
  pub data_key : Bytes
  pub nonce : Bytes
  pub cipher : Bytes

pub record Primitives (Block Gcm : Type 0) : Type 0 where
  pub new_cipher : Bytes → Result String Block
  pub new_gcm : Block → Result String Gcm
  pub nonce_size : Gcm → ℕ
  -- nonce, plaintext or ciphertext, additional data
  pub seal : Gcm → Bytes → Bytes → String → Bytes
  pub unseal : Gcm → Bytes → Bytes → String → Result String Bytes
  pub marshal : Envelope → Result String Bytes
  pub unmarshal : Bytes → Result String Envelope

pub data CryptoError : Type 0 where
  key_arn_required : CryptoError
  generate_failed : String → String → CryptoError
  bad_key_size : ℕ → CryptoError
  aes_failed : String → CryptoError
  gcm_failed : String → CryptoError
  nonce_failed : String → CryptoError
  marshal_failed : String → CryptoError
  unmarshal_failed : String → CryptoError
  unwrap_failed : String → String → CryptoError
  bad_nonce_size : ℕ → CryptoError
  open_failed : String → CryptoError

-- `KMSAPI`: the plain and the wrapped key for an ARN, and unwrapping
pub record Kms : Type 0 where
  pub generate_data_key : String → Result String (Bytes × Bytes)
  pub decrypt : String → Bytes → Result String Bytes

module _ {Block Gcm : Type 0} (x : Primitives Block Gcm) (kms : Kms) where
  -- `aes.NewCipher` and `cipher.NewGCM` on a key of 32 bytes
  unfoldable pub gcm_of : Bytes → Result CryptoError Gcm
  gcm_of dk = do
    sized ← require (length dk == 32) (bad_key_size (length dk))
    block ← wrap aes_failed (x.new_cipher dk)
    wrap gcm_failed (x.new_gcm block)

  unfoldable pub encrypt : (ℕ → Result String Bytes) → String → Bytes → Result CryptoError Bytes
  encrypt random key_arn plaintext = do
    given ← require (not (key_arn == "")) key_arn_required
    keys ← wrap (generate_failed key_arn) (kms.generate_data_key key_arn)
    gcm ← gcm_of keys.0
    nonce ← wrap nonce_failed (random (x.nonce_size gcm))
    wrap marshal_failed (
        x.marshal (record {
          key_arn = key_arn;
          data_key = keys.1;
          nonce = nonce;
          cipher = x.seal gcm nonce plaintext key_arn;
        }))

  unfoldable pub decrypt : Bytes → Result CryptoError Bytes
  decrypt envelope = do
    env ← wrap unmarshal_failed (x.unmarshal envelope)
    dk ← wrap (unwrap_failed env.key_arn) (kms.decrypt env.key_arn env.data_key)
    gcm ← gcm_of dk
    sized ← require (length env.nonce == x.nonce_size gcm) (bad_nonce_size (length env.nonce))
    wrap open_failed (x.unseal gcm env.nonce env.cipher env.key_arn)

  unfoldable pub key_arn_of : Bytes → Result CryptoError String
  key_arn_of envelope = do env ← wrap unmarshal_failed (x.unmarshal envelope); ok env.key_arn
