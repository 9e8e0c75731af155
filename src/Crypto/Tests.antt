-- ===== src/Crypto/Tests.antt =====
-- Runs of the envelope, with toy primitives, and the theorems at them.
use ivorycom_governance.Common.{
  String, ◌≡◌, ◌↔◌, refl, sym, ap, ◌∙◌, [], ◌∷◌, length, ◌==◌, nat_eq, string_eq, eq_iff, arith,
  if◌then◌else◌,
}
use ivorycom_governance.Common.Result.{Result, ok, err}
use ivorycom_governance.Crypto.{
  Bytes, Envelope, Primitives, key_arn_required, bad_key_size, gcm_of, encrypt, decrypt, key_arn_of,
}
use ivorycom_governance.Crypto.Sample.{
  seal, unseal, unseal-seal, seal-unseal, encode, decode, decode-encode, ones, random,
  random-length, service,
}
use ivorycom_governance.Crypto.RoundTrip.{Encrypts, decrypt-encrypt}
use ivorycom_governance.Crypto.Sealed.{IsSealed, decrypt-IsSealed_iff}

-- opens what the functions call
crypto : Unit {0}
unfolding encrypt decrypt key_arn_of gcm_of
crypto = tt

abbrev marshal_envelope : Envelope → Result String Bytes
marshal_envelope env =
    if env.key_arn == "arn:k" then encode env.data_key env.nonce env.cipher else err "other key"

decode-marshal :
    (env : Envelope) (text : Bytes) → marshal_envelope env ≡ ok text → decode text ≡ ok env
decode-marshal env text h =
    let arn : env.key_arn ≡ "arn:k" = ground (arith, eq_iff env.key_arn "arn:k") in
    let encoded : encode env.data_key env.nonce env.cipher ≡ ok text =
      ground (arith, eq_iff env.key_arn "arn:k") in
    decode-encode env.data_key env.nonce env.cipher text encoded
    ∙ ap (λ a. ok (record env { key_arn = a })) (sym arn)

abbrev toy : Primitives Bytes Bytes
toy = record {
  new_cipher = λ key. ok key;
  new_gcm = λ block. ok block;
  nonce_size = λ gcm. 1;
  seal = λ gcm nonce text ad. seal text;
  unseal = λ gcm nonce cipher ad. unseal cipher;
  marshal = marshal_envelope;
  unmarshal = decode;
}

encrypt_test : encrypt toy (service 32) random "arn:k" (4 ∷ 5 ∷ []) ≡ ok (7 ∷ 1 ∷ 5 ∷ 6 ∷ [])
unfolding crypto ones seal encode
encrypt_test = refl

short_key_test : encrypt toy (service 16) random "arn:k" (4 ∷ []) ≡ err (bad_key_size 16)
unfolding crypto ones
short_key_test = refl

no_arn_test : encrypt toy (service 32) random "" (4 ∷ []) ≡ err key_arn_required
unfolding crypto
no_arn_test = refl

decrypt-encrypt_example :
    (encrypt toy (service 32) random "arn:k" (4 ∷ 5 ∷ []) ≡ ok (7 ∷ 1 ∷ 5 ∷ 6 ∷ [])) ↔ (
      Encrypts toy (service 32) random "arn:k" (4 ∷ 5 ∷ []) (7 ∷ 1 ∷ 5 ∷ 6 ∷ [])
      × (decrypt toy (service 32) (7 ∷ 1 ∷ 5 ∷ 6 ∷ []) ≡ ok (4 ∷ 5 ∷ []))
      × (key_arn_of toy (service 32) (7 ∷ 1 ∷ 5 ∷ 6 ∷ []) ≡ ok "arn:k"))
decrypt-encrypt_example =
    decrypt-encrypt toy (service 32) random decode-marshal (λ arn dk wrapped h. cc) random-length
      (λ gcm nonce text ad fits. unseal-seal text) "arn:k" (4 ∷ 5 ∷ []) (7 ∷ 1 ∷ 5 ∷ 6 ∷ [])

exact :
    (gcm nonce cipher text : Bytes) (ad : String)
    → length nonce ≡ 1
    → (unseal cipher ≡ ok text) ↔ (cipher ≡ seal text)
exact gcm nonce cipher text ad fits = (seal-unseal cipher text, λ e. rw e (unseal-seal text))

decrypt-IsSealed_iff_example : (decrypt toy (service 32) (7 ∷ 1 ∷ 5 ∷ 6 ∷ []) ≡ ok (4 ∷ 5 ∷ [])) ↔ (
    (key_arn : String) × (env : Envelope) × (key_arn_of toy (service 32) (7 ∷ 1 ∷ 5 ∷ 6 ∷ [])
      ≡ ok key_arn)
    × (decode (7 ∷ 1 ∷ 5 ∷ 6 ∷ []) ≡ ok env)
    × IsSealed toy (service 32) env key_arn (4 ∷ 5 ∷ []))
decrypt-IsSealed_iff_example =
    decrypt-IsSealed_iff toy (service 32) exact (4 ∷ 5 ∷ []) (7 ∷ 1 ∷ 5 ∷ 6 ∷ [])
