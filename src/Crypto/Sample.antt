-- ===== src/Crypto/Sample.antt =====
-- Toy primitives for the envelope, to run it on.
use ivorycom_governance.Common.{ℕ, zero, suc, String, ◌≡◌, refl, sym, ap, [], ◌∷◌, length}
use ivorycom_governance.Common.Result.{Result, ok, err}
use ivorycom_governance.Crypto.{Bytes, Envelope, Kms}

-- Sealing adds one to each byte; a byte 0 was not sealed.
unfoldable pub seal : Bytes → Bytes
seal [] = []
seal (c ∷ cs) = suc c ∷ seal cs

unfoldable cons_ok : ℕ → Result String Bytes → Result String Bytes
cons_ok c (ok cs) = ok (c ∷ cs)
cons_ok c (err e) = err e

unfoldable pub unseal : Bytes → Result String Bytes
unfolding cons_ok
unseal [] = ok []
unseal (zero ∷ cs) = err "authentication failed"
unseal (suc c ∷ cs) = cons_ok c (unseal cs)

pub unseal-seal : (text : Bytes) → unseal (seal text) ≡ ok text
unfolding seal unseal
unseal-seal [] = refl
unseal-seal (c ∷ cs) = ap (cons_ok c) (unseal-seal cs)

cons_ok-eq :
    (c : ℕ) (r : Result String Bytes) (text : Bytes)
    → cons_ok c r ≡ ok text
    → (rest : Bytes) × (r ≡ ok rest) × (text ≡ c ∷ rest)
unfolding cons_ok
cons_ok-eq c (ok rest) text h = (rest, refl, cc)
cons_ok-eq c (err e) text h = cc

pub seal-unseal : (cipher text : Bytes) → unseal cipher ≡ ok text → cipher ≡ seal text
unfolding seal unseal
seal-unseal [] text h = let e : [] ≡ text = cc in rw (sym e) refl
seal-unseal (zero ∷ cs) text h = cc
seal-unseal (suc c ∷ cs) text h =
    let (rest, opened, whole) = cons_ok-eq c (unseal cs) text h in
    rw whole (ap (λ l. suc c ∷ l) (seal-unseal cs rest opened))

-- Only envelopes with one ARN, and a data key and a nonce of one byte, are encoded.
unfoldable pub encode : Bytes → Bytes → Bytes → Result String Bytes
encode [] nonce cipher = err "no key"
encode (k ∷ []) [] cipher = err "no nonce"
encode (k ∷ []) (n ∷ []) cipher = ok (k ∷ n ∷ cipher)
encode (k ∷ []) (n ∷ m ∷ rest) cipher = err "long nonce"
encode (k ∷ l ∷ rest) nonce cipher = err "long key"

unfoldable pub decode : Bytes → Result String Envelope
decode [] = err "empty"
decode (k ∷ []) = err "short"
decode (k ∷ n ∷ cipher) =
    ok (record { key_arn = "arn:k"; data_key = k ∷ []; nonce = n ∷ []; cipher = cipher })

pub decode-encode :
    (key nonce cipher text : Bytes)
    → encode key nonce cipher ≡ ok text
    → decode text
      ≡ ok (record { key_arn = "arn:k"; data_key = key; nonce = nonce; cipher = cipher })
unfolding encode decode
decode-encode [] nonce cipher text h = cc
decode-encode (k ∷ []) [] cipher text h = cc
decode-encode (k ∷ []) (n ∷ []) cipher text h =
    let e : k ∷ n ∷ cipher ≡ text = cc in rw (sym e) refl
decode-encode (k ∷ []) (n ∷ m ∷ rest) cipher text h = cc
decode-encode (k ∷ l ∷ rest) nonce cipher text h = cc

-- as many bytes 1 as are asked for
unfoldable pub ones : ℕ → Bytes
ones zero = []
ones (suc n) = 1 ∷ ones n

length-ones : (n : ℕ) → length (ones n) ≡ n
unfolding ones
length-ones zero = refl
length-ones (suc n) = ap suc (length-ones n)

abbrev pub random : ℕ → Result String Bytes
random n = ok (ones n)

pub random-length : (n : ℕ) (bytes : Bytes) → random n ≡ ok bytes → length bytes ≡ n
random-length n bytes h = let e : ones n ≡ bytes = cc in rw (sym e) (length-ones n)

-- a key service whose keys have this many bytes
abbrev pub service : ℕ → Kms
service n = record {
  generate_data_key = λ arn. ok (ones n, 7 ∷ []);
  decrypt = λ arn wrapped. ok (ones n);
}
