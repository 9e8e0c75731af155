-- ===== src/Common/Codec/Recodes.antt =====
-- Maps that are translated, and translated back.
use ivorycom_governance.Common.{◌≡◌, refl, All, All-mono, []}
use ivorycom_governance.Common.Tests.{Comparable}
use ivorycom_governance.Common.Map.{Map, HasUniqueKeys}
use ivorycom_governance.Common.Result.{Result, ok}
use ivorycom_governance.Common.Codec.{
  translate, Restores, translate-Succeeds_iff, translate-Restores,
}

-- Encoding succeeds, and decoding restores what was encoded.
abbrev pub Recodes {ℓ} : {E A B : Type ℓ} → (A → Result E B) → (B → Result E A) → A → Type ℓ
Recodes {B = B} encode decode a = (b : B) × (encode a ≡ ok b) × (decode b ≡ ok a)

pub Recodes-Restores {ℓ} :
    {E A B : Type ℓ} (encode : A → Result E B) (decode : B → Result E A) (a : A)
    → Recodes encode decode a
    → Restores encode decode a
Recodes-Restores encode decode a (b, h, h') c h'' = let same : b ≡ c = cc in rw (← same) h'

pub ok-Recodes {ℓ} : {E A : Type ℓ} (a : A) → Recodes {E = E} ok ok a
ok-Recodes a = (a, refl, refl)

module _ {ℓ} {E K V K' V' : Type ℓ} ⦃c : Comparable K⦄ ⦃c' : Comparable K'⦄ (key : K → Result E K')
    (parse : K' → Result E K) (value : V → Result E V') (unvalue : V' → Result E V) where
  pub translate-Recodes :
      (m : Map K V)
      → HasUniqueKeys m
      → All (λ e. Recodes key parse e.0 × Recodes value unvalue e.1) m
      → Recodes (λ m. translate key value m []) (λ w. translate parse unvalue w []) m
  translate-Recodes m u r =
      let (w, h) =
        (translate-Succeeds_iff key value m []).1
          (All-mono (λ e (k, v). ((k.0, k.1), (v.0, v.1))) m r) in
      let restores = translate-Restores key parse value unvalue m u (
        All-mono
          (λ e (k, v). (Recodes-Restores key parse e.0 k, Recodes-Restores value unvalue e.1 v)) m
          r) in
      (w, h, restores w h)
