-- ===== src/Policy/Bundle.antt =====
-- go/policy/bundle.go: the loader of the signed bundle. Bytes are numbers. `encoding/json`,
-- `encoding/base64` and `crypto/ed25519` are the fields of `Externals`, and the answer of a fetch is
-- an argument of the call that fetches.
mod Message
pub mod Cache
pub mod Versions
pub mod Published
pub mod Race
pub mod Latest
mod Loop
pub mod Concurrent
pub mod Sample
mod Tests
use ivorycom_governance.Common.{
  ℕ, String, Bool, true, false, Option, none, some, List, [], ◌∷◌, ◌++◌, if◌then◌else◌,
}
use ivorycom_governance.Common.Int.{ℤ, leb_ℤ, eqb_ℤ}
use ivorycom_governance.Common.Decimal.{itoa}
use ivorycom_governance.Common.Result.{Result, ok, err, ◌>>=◌, wrap, require}
use ivorycom_governance.Policy.Model.{CompiledBundle, zero_bundle}
use ivorycom_governance.Policy.Wire.{WireError, BundleWire, unmarshal_json}

abbrev pub Bytes : Type 0
Bytes = List ℕ

-- `signedBundle`
pub record SignedBundle : Type 0 where
  pub version : ℤ
  pub body : Bytes
  pub sig : String

pub record Externals : Type 0 where
  pub decode_envelope : Bytes → Result String SignedBundle
  pub decode_wire : Bytes → Result WireError BundleWire
  pub decode_base64 : String → Result String Bytes
  -- public key, message, signature
  pub verify : Bytes → Bytes → Bytes → Bool

-- The errors of `Reload`; the last holds the two versions that differ.
pub data LoadError : Type 0 where
  fetch_failed : String → LoadError
  bad_envelope : String → LoadError
  bad_signature_text : String → LoadError
  verification_failed : LoadError
  bad_body : WireError → LoadError
  version_differs : ℤ → ℤ → LoadError

-- the byte `|`
abbrev pub bar : ℕ
bar = 124

unfoldable pub canonical_message : ℤ → Bytes → Bytes
canonical_message version body = itoa version ++ bar ∷ body

-- A loader, less its fetcher; `cur` is the pointer, `none` when it is nil.
pub record Loader : Type 0 where
  pub key : Bytes
  pub cur : Option CompiledBundle

unfoldable pub new_loader : Bytes → Loader
new_loader key = record { key = key; cur = none }

unfoldable pub current : Loader → CompiledBundle
current l = elim l.cur [ none ↦ zero_bundle | some b ↦ b ]

-- the answer of a fetch
abbrev pub Fetched : Type 0
Fetched = Result String Bytes

-- `Reload` up to the comparison with the cache: the bundle that the answer holds, or an error
unfoldable pub verified : Externals → Bytes → Fetched → Result LoadError CompiledBundle
verified x key fetched = do
  raw ← wrap fetch_failed fetched
  env ← wrap bad_envelope (x.decode_envelope raw)
  sig ← wrap bad_signature_text (x.decode_base64 env.sig)
  checked ← require (x.verify key (canonical_message env.version env.body) sig) verification_failed
  bundle ← wrap bad_body (unmarshal_json x.decode_wire env.body)
  matched ← require (eqb_ℤ bundle.version env.version) (version_differs env.version bundle.version)
  ok bundle

-- whether the cache already holds the bundle's version or a newer one
unfoldable pub is_current : Option CompiledBundle → CompiledBundle → Bool
is_current none bundle = false
is_current (some cur) bundle = leb_ℤ bundle.version cur.version

-- the end of `Reload`
unfoldable pub store : Loader → CompiledBundle → Loader
store l bundle = if is_current l.cur bundle then l else record l { cur = some bundle }

unfoldable pub reload : Externals → Loader → Fetched → Result LoadError (Unit {0}) × Loader
reload x l fetched = elim (verified x l.key fetched) [
  | err e ↦ (err e, l)
  | ok bundle ↦ (ok tt, store l bundle)
]

-- what the loop of `Watch` selects: a tick, whose fetch gets an answer, or the end of the context
pub data WatchEvent : Type 0 where
  tick : Fetched → WatchEvent
  done : WatchEvent

unfoldable pub poll : Externals → Loader → List WatchEvent → Loader
poll x l [] = l
poll x l (done ∷ events) = l
poll x l (tick fetched ∷ events) = poll x (reload x l fetched).1 events

-- `Watch` with an interval above 0, on what its loop selects until its context ends; `watch_for` in
-- Loop has the interval too.
unfoldable pub watch : Externals → Loader → Fetched → List WatchEvent → Loader
watch x l fetched events = poll x (reload x l fetched).1 events
