-- ===== src/Policy/Bundle/Published.antt =====
-- go/policy/bundle.go: what was published, and what reaches the cache.
use ivorycom_governance.Common.{◌≡◌, refl, sym, true}
use ivorycom_governance.Common.Int.{ℤ}
use ivorycom_governance.Common.Result.{ok}
use ivorycom_governance.Policy.Model.{CompiledBundle}
use ivorycom_governance.Policy.Wire.{BundleWire, to_wire, unmarshal_json}
use ivorycom_governance.Policy.Wire.RoundTrip.{IsWellFormed, of_wire-to_wire}
use ivorycom_governance.Policy.Bundle.{
  Bytes, SignedBundle, Externals, canonical_message, Loader, current, Fetched, store, reload,
}
use ivorycom_governance.Policy.Bundle.Message.{canonical_message_inj}
use ivorycom_governance.Policy.Bundle.Cache.{
  Delivers, IsNewer, is_current-IsNewer_iff, reload_of_verified, Delivers-verified,
}

-- A signature that verifies under the key was made for a published version and body.
abbrev pub IsUnforged : Externals → Bytes → (ℤ → Bytes → Type 0) → Type 0
IsUnforged x key IsPublished =
    (message sig : Bytes)
    → x.verify key message sig ≡ true
    → (version : ℤ) × (body : Bytes) × IsPublished version body
      × (message ≡ canonical_message version body)

-- The bundle is what a published body decodes to, and was published under its version.
abbrev pub IsFrom : Externals → (ℤ → Bytes → Type 0) → CompiledBundle → Type 0
IsFrom x IsPublished b =
    (body : Bytes) × IsPublished b.version body × (unmarshal_json x.decode_wire body ≡ ok b)

module _ (x : Externals) (key : Bytes) (IsPublished : ℤ → Bytes → Type 0)
    (unforged : IsUnforged x key IsPublished) where
  pub Delivers-IsFrom :
      (fetched : Fetched) (b : CompiledBundle) → Delivers x key fetched b → IsFrom x IsPublished b
  Delivers-IsFrom fetched b d =
      let (version, body, published, same) =
        unforged (canonical_message d.env.version d.env.body) d.sig d.signs in
      let (same_version, same_body) =
        canonical_message_inj d.env.version version d.env.body body same in
      (d.env.body, rw (d.same_version, same_version, same_body) published, d.body_decodes)

current-store : (l : Loader) (b : CompiledBundle) → IsNewer l.cur b → current (store l b) ≡ b
unfolding current store
current-store l b newer = rw ((is_current-IsNewer_iff l.cur b).1 newer) refl

-- Let a bundle whose maps hold each key once be published as the source does: its wire form is what
-- the body of the envelope decodes to, under the bundle's version, with a signature that verifies.
-- If the cache is empty or holds a lower version, then one `Reload` that fetches it returns no
-- error, and `Current` is the bundle.
pub reload-to_wire :
    (x : Externals) (l : Loader) (b : CompiledBundle) (w : BundleWire) (raw sig : Bytes)
    (env : SignedBundle)
    → IsWellFormed b
    → to_wire b ≡ ok w
    → x.decode_envelope raw ≡ ok env
    → env.version ≡ b.version
    → x.decode_wire env.body ≡ ok w
    → x.decode_base64 env.sig ≡ ok sig
    → x.verify l.key (canonical_message env.version env.body) sig ≡ true
    → IsNewer l.cur b
    → ((reload x l (ok raw)).0 ≡ ok tt) × (current (reload x l (ok raw)).1 ≡ b)
unfolding unmarshal_json
reload-to_wire x l b w raw sig env formed wired decodes version body sig_decodes signs newer =
    let d : Delivers x l.key (ok raw) b = record {
      raw = raw;
      env = env;
      sig = sig;
      arrives = refl;
      decodes = decodes;
      sig_decodes = sig_decodes;
      signs = signs;
      body_decodes = rw (body) (of_wire-to_wire b w formed wired);
      same_version = sym version;
    } in
    rw (reload_of_verified x l (ok raw) b (Delivers-verified x l.key (ok raw) b d))
      (refl, current-store l b newer)
