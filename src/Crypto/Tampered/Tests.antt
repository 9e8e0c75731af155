-- ===== src/Crypto/Tampered/Tests.antt =====
-- `Decrypt` on an envelope whose ARN was exchanged, with toy primitives that know two ARNs.
use ivorycom_governance.Common.{
  zero, suc, String, ℕ, ◌≡◌, refl, sym, ap, inl, inr, false, ◌≢◌, Bool-cases, [], ◌∷◌, ◌==◌, nat_eq,
  string_eq, eq_iff, arith, if◌then◌else◌,
}
use ivorycom_governance.Common.Result.{Result, ok, err}
use ivorycom_governance.Crypto.{
  Bytes, Envelope, Primitives, CryptoError, open_failed, gcm_of, encrypt, decrypt,
}
use ivorycom_governance.Crypto.Sample.{
  seal, unseal, encode, decode, decode-encode, ones, random, service,
}
use ivorycom_governance.Crypto.Tampered.{decrypt-swapped_arn}

-- a mark for each ARN that is known, and 0 for any other
mark : String → ℕ
mark arn = if arn == "arn:k" then 1 else if arn == "arn:j" then 2 else 0

mark_inj : (arn other : String) (m : ℕ) → mark arn ≡ suc m → mark other ≡ suc m → arn ≡ other
unfolding mark
mark_inj arn other m h h' =
    ground
      (arith, eq_iff arn "arn:k", eq_iff arn "arn:j", eq_iff other "arn:k", eq_iff other "arn:j")

-- A ciphertext starts with the mark of the ARN under which it was sealed.
open_marked : Bytes → String → Result String Bytes
open_marked [] arn = err "too short"
open_marked (zero ∷ cs) arn = err "unknown ARN"
open_marked (suc m ∷ cs) arn = if mark arn == suc m then unseal cs else err "authentication failed"

open_marked-eq :
    (n : ℕ) (cs text : Bytes) (arn other : String)
    → mark arn ≡ n
    → open_marked (n ∷ cs) other ≡ ok text
    → arn ≡ other
unfolding open_marked
open_marked-eq zero cs text arn other e h = cc
open_marked-eq (suc m) cs text arn other e h =
    mark_inj arn other m e (ground (arith, nat_eq.equal_iff (mark other) (suc m)))

cons_ok : ℕ → Result String Bytes → Result String Bytes
cons_ok m (ok text) = ok (m ∷ text)
cons_ok m (err e) = err e

name : String → Result String Envelope → Result String Envelope
name arn (ok env) = ok (record env { key_arn = arn })
name arn (err e) = err e

-- An envelope starts with the mark of its ARN.
marshal_marked : Envelope → Result String Bytes
marshal_marked env =
    if env.key_arn == "arn:k"
    then cons_ok 1 (encode env.data_key env.nonce env.cipher)
    else if env.key_arn == "arn:j"
    then cons_ok 2 (encode env.data_key env.nonce env.cipher)
    else err "unknown ARN"

unmarshal_marked : Bytes → Result String Envelope
unmarshal_marked [] = err "empty"
unmarshal_marked (m ∷ text) =
    if m == 1
    then name "arn:k" (decode text)
    else if m == 2
    then name "arn:j" (decode text)
    else err "unknown ARN"

cons_ok-eq :
    (m : ℕ) (r : Result String Bytes) (text : Bytes)
    → cons_ok m r ≡ ok text
    → (rest : Bytes) × (r ≡ ok rest) × (text ≡ m ∷ rest)
unfolding cons_ok
cons_ok-eq m (ok rest) text h = (rest, refl, cc)
cons_ok-eq m (err e) text h = cc

unmarshal-marshal :
    (env : Envelope) (text : Bytes) → marshal_marked env ≡ ok text → unmarshal_marked text ≡ ok env
unfolding marshal_marked unmarshal_marked name
unmarshal-marshal env text h = elim (Bool-cases (env.key_arn == "arn:k")) [
  | inl first ↦
      let (rest, encoded, whole) = cons_ok-eq 1 _ text (rw first at h) in
      rw (whole, decode-encode env.data_key env.nonce env.cipher rest encoded)
        (ap (λ a. ok (record env { key_arn = a })) (sym ((eq_iff env.key_arn "arn:k").0 first)))
  | inr not_first ↦ elim (Bool-cases (env.key_arn == "arn:j")) [
    | inl second ↦
        let (rest, encoded, whole) = cons_ok-eq 2 _ text (rw (not_first, second) at h) in
        rw (whole, decode-encode env.data_key env.nonce env.cipher rest encoded)
          (ap (λ a. ok (record env { key_arn = a })) (sym ((eq_iff env.key_arn "arn:j").0 second)))
    | inr neither ↦ let h' = rw (not_first, neither) at h in cc
  ]
]

abbrev marked : Primitives Bytes Bytes
marked = record {
  new_cipher = λ key. ok key;
  new_gcm = λ block. ok block;
  nonce_size = λ gcm. 1;
  seal = λ gcm nonce text ad. mark ad ∷ seal text;
  unseal = λ gcm nonce cipher ad. open_marked cipher ad;
  marshal = marshal_marked;
  unmarshal = unmarshal_marked;
}

-- opens what the functions call
program : Unit {0}
unfolding encrypt decrypt gcm_of ones seal unseal encode decode mark open_marked marshal_marked
    unmarshal_marked name cons_ok
program = tt

abbrev envelope : Bytes
envelope = 1 ∷ 7 ∷ 1 ∷ 1 ∷ 5 ∷ 6 ∷ []

abbrev tampered : Bytes
tampered = 2 ∷ 7 ∷ 1 ∷ 1 ∷ 5 ∷ 6 ∷ []

abbrev decoded : Envelope
decoded = record { key_arn = "arn:k"; data_key = 7 ∷ []; nonce = 1 ∷ []; cipher = 1 ∷ 5 ∷ 6 ∷ [] }

swapped_tests :
    (encrypt marked (service 32) random "arn:k" (4 ∷ 5 ∷ []) ≡ ok envelope)
    × (unmarshal_marked envelope ≡ ok decoded)
    × (unmarshal_marked tampered ≡ ok (record decoded { key_arn = "arn:j" }))
    × (decrypt marked (service 32) envelope ≡ ok (4 ∷ 5 ∷ []))
    × (decrypt marked (service 32) tampered ≡ err (open_failed "authentication failed"))
unfolding program
swapped_tests = (refl, refl, refl, refl, refl)

differs : (s t : String) → (s == t) ≡ false → s ≢ t
differs s t h = ground (arith, eq_iff s t)

decrypt-swapped_arn_example : (e : CryptoError) × (decrypt marked (service 32) tampered ≡ err e)
decrypt-swapped_arn_example =
    decrypt-swapped_arn marked (service 32) random unmarshal-marshal
      (λ arn other dk dk' wrapped h h'. cc)
      (λ gcm nonce text text' ad ad' fits h.
        open_marked-eq (mark ad) (seal text) text' ad ad' refl h)
      "arn:k" "arn:j" (4 ∷ 5 ∷ []) envelope tampered decoded swapped_tests.0 swapped_tests.1
      swapped_tests.2 (differs _ _ refl)
