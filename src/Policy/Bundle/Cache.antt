-- ===== src/Policy/Bundle/Cache.antt =====
-- go/policy/bundle.go: what `Reload` does to the cache.
use ivorycom_governance.Common.{
  ◌≡◌, ◌≢◌, ◌↔◌, ◌⊎◌, inl, inr, refl, sym, ap, ◌∙◌, true, false, Bool-cases, Option, none, some,
  arith,
}
use ivorycom_governance.Common.Int.{eqb_ℤ_iff, ◌≤ℤ◌, ◌<ℤ◌}
use ivorycom_governance.Common.Result.{ok, err, Result-cases, wrap->>=-eq-ok, require->>=-eq-ok}
use ivorycom_governance.Policy.Model.{CompiledBundle}
use ivorycom_governance.Policy.Wire.{unmarshal_json}
use ivorycom_governance.Policy.Bundle.{
  Bytes, SignedBundle, Externals, canonical_message, Loader, LoadError, Fetched, verified,
  is_current, store, reload,
}

-- The answer of a fetch is a signed envelope whose signature holds for the version and the body in
-- it, and whose body decodes to the bundle, which has that version.
pub record Delivers (x : Externals) (key : Bytes) (fetched : Fetched) (b : CompiledBundle)
    : Type 0 where
  pub raw : Bytes
  pub env : SignedBundle
  pub sig : Bytes
  pub arrives : fetched ≡ ok raw
  pub decodes : x.decode_envelope raw ≡ ok env
  pub sig_decodes : x.decode_base64 env.sig ≡ ok sig
  pub signs : x.verify key (canonical_message env.version env.body) sig ≡ true
  pub body_decodes : unmarshal_json x.decode_wire env.body ≡ ok b
  pub same_version : b.version ≡ env.version

-- the bundle is newer than what the cache holds
abbrev pub IsNewer : Option CompiledBundle → CompiledBundle → Type 0
IsNewer none b = Unit
IsNewer (some cur) b = cur.version <ℤ b.version

-- the cache holds a bundle that is not older
abbrev pub HoldsAtLeast : Loader → CompiledBundle → Type 0
HoldsAtLeast l b = (c : CompiledBundle) × (l.cur ≡ some c) × (b.version ≤ℤ c.version)

pub is_current-IsNewer_iff :
    (cur : Option CompiledBundle) (b : CompiledBundle) → (is_current cur b ≡ false) ↔ IsNewer cur b
unfolding is_current
is_current-IsNewer_iff none b = (λ _. tt, λ _. refl)
is_current-IsNewer_iff (some c) b = ground arith

store-cur_iff :
    (l : Loader) (c b : CompiledBundle)
    → l.cur ≢ some b
    → ((store l c).cur ≡ some b) ↔ ((c ≡ b) × IsNewer l.cur b)
unfolding store
store-cur_iff l c b h = elim (Bool-cases (is_current l.cur c)) [
  | inl held ↦
      rw held (
        λ e. absurd (h e),
        λ (e, newer). let fresh = (is_current-IsNewer_iff l.cur b).1 newer in cc,
      )
  | inr fresh ↦ rw fresh (
    λ e.
        let same : c ≡ b = cc in
        (same, (is_current-IsNewer_iff l.cur b).0 (ap (is_current l.cur) (sym same) ∙ fresh)),
    λ (e, newer). ap some e,
  )
]

module _ (x : Externals) where
  pub verified-Delivers :
      (key : Bytes) (fetched : Fetched) (b : CompiledBundle)
      → verified x key fetched ≡ ok b
      → Delivers x key fetched b
  unfolding verified
  verified-Delivers key fetched b h =
      let (raw, arrives, h1) = wrap->>=-eq-ok _ fetched _ h in
      let (env, decodes, h2) = wrap->>=-eq-ok _ (x.decode_envelope raw) _ h1 in
      let (sig, sig_decodes, h3) = wrap->>=-eq-ok _ (x.decode_base64 env.sig) _ h2 in
      let (signs, h4) = require->>=-eq-ok _ _ _ h3 in
      let (bundle, body_decodes, h5) =
        wrap->>=-eq-ok _ (unmarshal_json x.decode_wire env.body) _ h4 in
      let (matches, h6) = require->>=-eq-ok _ _ _ h5 in
      let e : bundle ≡ b = cc in
      record {
        raw = raw;
        env = env;
        sig = sig;
        arrives = arrives;
        decodes = decodes;
        sig_decodes = sig_decodes;
        signs = signs;
        body_decodes = body_decodes ∙ ap ok e;
        same_version =
            sym (ap (λ c. c.version) e) ∙ (eqb_ℤ_iff bundle.version env.version).0 matches;
      }

  pub Delivers-verified :
      (key : Bytes) (fetched : Fetched) (b : CompiledBundle)
      → Delivers x key fetched b
      → verified x key fetched ≡ ok b
  unfolding verified
  Delivers-verified key fetched b d = ground arith

  Delivers-unique :
      (key : Bytes) (fetched : Fetched) (b c : CompiledBundle)
      → Delivers x key fetched b
      → Delivers x key fetched c
      → b ≡ c
  Delivers-unique key fetched b c d d' =
      let first = Delivers-verified key fetched b d in
      let second = Delivers-verified key fetched c d' in cc

  -- the two outcomes of `Reload`
  pub reload-cases :
      (l : Loader) (fetched : Fetched)
      → ((b : CompiledBundle) × Delivers x l.key fetched b
          × (reload x l fetched ≡ (ok tt, store l b)))
        ⊎ ((e : LoadError) × (verified x l.key fetched ≡ err e) × (reload x l fetched ≡ (err e, l)))
  unfolding reload
  reload-cases l fetched = elim (Result-cases (verified x l.key fetched)) [
    | inl (b, h) ↦ inl (b, verified-Delivers l.key fetched b h, rw (reload, h) refl)
    | inr (e, h) ↦ inr (e, h, rw (reload, h) refl)
  ]

  pub reload_of_verified :
      (l : Loader) (fetched : Fetched) (b : CompiledBundle)
      → verified x l.key fetched ≡ ok b
      → reload x l fetched ≡ (ok tt, store l b)
  unfolding reload
  reload_of_verified l fetched b h = rw (reload, h) refl

  pub reload_of_error :
      (l : Loader) (fetched : Fetched) (e : LoadError)
      → verified x l.key fetched ≡ err e
      → reload x l fetched ≡ (err e, l)
  unfolding reload
  reload_of_error l fetched e h = rw (reload, h) refl

  reload-cur_iff :
      (l : Loader) (fetched : Fetched) (b : CompiledBundle)
      → l.cur ≢ some b
      → ((reload x l fetched).1.cur ≡ some b) ↔ (Delivers x l.key fetched b × IsNewer l.cur b)
  reload-cur_iff l fetched b h = elim (reload-cases l fetched) [
    | inl (c, d, e) ↦ rw e (
      λ h'.
          let (same_bundle, newer) = (store-cur_iff l c b h).0 h' in (rw (← same_bundle) d, newer),
      λ (d', newer). (store-cur_iff l c b h).1 (Delivers-unique l.key fetched c b d d', newer),
    )
    | inr (e, refused, same) ↦
        rw same
          (λ h'. absurd (h h'), λ (d, _). let accepted = Delivers-verified l.key fetched b d in cc)
  ]

  reload-ok_iff :
      (l : Loader) (fetched : Fetched)
      → (((reload x l fetched).0 ≡ ok tt) ↔ ((b : CompiledBundle) × Delivers x l.key fetched b))
        × (((reload x l fetched).0 ≡ ok tt) ⊎ ((reload x l fetched).1 ≡ l))
  reload-ok_iff l fetched = elim (reload-cases l fetched) [
    | inl (c, d, e) ↦ rw e ((λ _. (c, d), λ _. refl), inl refl)
    | inr (e, refused, same) ↦
        rw same
          ((λ h. cc, λ (b, d). let accepted = Delivers-verified l.key fetched b d in cc), inr refl)
  ]

  -- Suppose the cache does not hold this very bundle already. Then `Reload` caches it exactly when
  -- the answer of the fetch delivers it, under the loader's key, and the cache is empty or holds a
  -- lower version. It returns no error exactly when the answer delivers some bundle, and if it
  -- returns an error the loader is as it was.
  pub reload_iff :
      (l : Loader) (fetched : Fetched) (b : CompiledBundle)
      → l.cur ≢ some b
      → (((reload x l fetched).1.cur ≡ some b) ↔ (Delivers x l.key fetched b × IsNewer l.cur b))
        × (((reload x l fetched).0 ≡ ok tt) ↔ ((c : CompiledBundle) × Delivers x l.key fetched c))
        × (((reload x l fetched).0 ≡ ok tt) ⊎ ((reload x l fetched).1 ≡ l))
  reload_iff l fetched b h =
      let (accepts, keeps) = reload-ok_iff l fetched in
      (reload-cur_iff l fetched b h, accepts, keeps)
