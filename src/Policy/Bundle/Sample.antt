-- ===== src/Policy/Bundle/Sample.antt =====
-- A loader to run: texts of one byte, and a signature for version 2 only.
use ivorycom_governance.Common.{
  ℕ, ◌≡◌, refl, Bool, true, false, ◌&&◌, some, [], ◌∷◌, nat_eq, string_eq, ◌==◌, arith,
}
use ivorycom_governance.Common.Text.{contains, split_first}
use ivorycom_governance.Common.Map.{lookup, insert}
use ivorycom_governance.Common.Int.{ℤ, pos}
use ivorycom_governance.Common.Decimal.{itoa}
use ivorycom_governance.Common.Result.{Result, ok, err}
use ivorycom_governance.Common.Codec.{translate}
use ivorycom_governance.Policy.Model.{
  PolicyRule, zero_rule, CompiledBundle, zero_bundle, zero_profile,
}
use ivorycom_governance.Policy.Wire.{
  BundleWire, json, to_wire, of_wire, unmarshal_json, encode_rules, encode_caps, decode_rules,
  decode_caps, role_obj_key, parse_role_obj_key,
}
use ivorycom_governance.Policy.Bundle.{
  Bytes, SignedBundle, Externals, canonical_message, Loader, new_loader, current, Fetched, verified,
  is_current, store, reload, poll, watch,
}
use ivorycom_governance.Policy.Bundle.Cache.{Delivers}
use ivorycom_governance.Policy.Bundle.Published.{IsUnforged}

-- opens what the loader calls
unfoldable pub loader : Unit {0}
unfolding watch poll reload store is_current verified canonical_message itoa current new_loader
    unmarshal_json of_wire to_wire encode_rules encode_caps decode_rules decode_caps translate
    lookup insert role_obj_key parse_role_obj_key contains split_first
loader = tt

bytes_beq : Bytes → Bytes → Bool
bytes_beq [] [] = true
bytes_beq [] (d ∷ ds) = false
bytes_beq (c ∷ cs) [] = false
bytes_beq (c ∷ cs) (d ∷ ds) = c == d && bytes_beq cs ds

bytes_beq-eq : (cs ds : Bytes) → bytes_beq cs ds ≡ true → cs ≡ ds
unfolding bytes_beq
bytes_beq-eq [] [] h = refl
bytes_beq-eq [] (d ∷ ds) h = cc
bytes_beq-eq (c ∷ cs) [] h = cc
bytes_beq-eq (c ∷ cs) (d ∷ ds) h = ground (arith, bytes_beq-eq cs ds)

abbrev pub reader : PolicyRule
reader = record zero_rule { read = true }

-- a bundle of this version, and its wire form
abbrev pub bundle : ℕ → CompiledBundle
bundle n = record zero_bundle {
  version = pos n;
  system = (record { role = "reader"; object_type = "lead" }, reader) ∷ [];
  autonomy = ("t1", zero_profile) ∷ [];
}

abbrev pub wire : ℕ → BundleWire
wire n = record {
  version = pos n;
  system = ("reader\u{1f}lead", reader) ∷ [];
  tenant = [];
  capabilities = [];
  autonomy = ("t1", zero_profile) ∷ [];
}

abbrev pub envelope : ℕ → SignedBundle
envelope n = record { version = pos n; body = n ∷ []; sig = "AA==" }

-- A text of one byte is an envelope and a body of that version; only version 2 is signed.
abbrev pub decode : {A : Type 0} → {E : Type 0} → (ℕ → A) → E → Bytes → Result E A
decode f e [] = err e
decode f e (n ∷ rest) = ok (f n)

abbrev pub signed : Bytes
signed = 50 ∷ 124 ∷ 2 ∷ []

unfoldable pub externals : Externals
unfolding bytes_beq
externals = record {
  decode_envelope = decode envelope "no envelope";
  decode_wire = decode wire (json "no body");
  decode_base64 = λ s. ok (0 ∷ []);
  verify = λ key message sig. bytes_beq message signed;
}

abbrev pub key : Bytes
key = 1 ∷ []

abbrev pub holding : ℕ → Loader
holding n = record { key = key; cur = some (bundle n) }

abbrev pub answer : ℕ → Fetched
answer n = ok (n ∷ [])

pub two-Delivers : Delivers externals key (answer 2) (bundle 2)
unfolding loader externals
two-Delivers = record {
  raw = 2 ∷ [];
  env = envelope 2;
  sig = 0 ∷ [];
  arrives = refl;
  decodes = refl;
  sig_decodes = refl;
  signs = refl;
  body_decodes = refl;
  same_version = refl;
}

-- the one version and body that are published
abbrev pub IsTwo : ℤ → Bytes → Type 0
IsTwo version body = (version ≡ pos 2) × (body ≡ 2 ∷ [])

pub externals-IsUnforged : IsUnforged externals key IsTwo
unfolding externals canonical_message itoa
externals-IsUnforged message sig h = (pos 2, 2 ∷ [], (refl, refl), bytes_beq-eq message signed h)

-- with every version signed
abbrev pub trusting : Externals
trusting = record externals { verify = λ key message sig. true }

pub trusting-Delivers : (n : ℕ) → Delivers trusting key (answer n) (bundle n)
unfolding loader externals
trusting-Delivers n = record {
  raw = n ∷ [];
  env = envelope n;
  sig = 0 ∷ [];
  arrives = refl;
  decodes = refl;
  sig_decodes = refl;
  signs = refl;
  body_decodes = refl;
  same_version = refl;
}
