-- ===== src/Common/Codec/Reordered.antt =====
-- Maps in another order, and what a translation makes of them.
use ivorycom_governance.Common.{◌≡◌, refl, All, [], ◌∷◌}
use ivorycom_governance.Common.Tests.{Comparable}
use ivorycom_governance.Common.Map.{Map, HasUniqueKeys}
use ivorycom_governance.Common.Result.{Result, ok}
use ivorycom_governance.Common.Codec.Keys.{translate-HasUniqueKeys}
use ivorycom_governance.Common.Codec.{
  ends, entry, translate, Succeeds, Restores, RestoresEntry, Encodes, translate-Succeeds_iff,
  translate_nil-Encodes,
}

-- The same entries in another order, up to a relation on the values.
pub data Reordered {ℓ} {K V : Type ℓ} (R : V → V → Type ℓ) : Map K V → Map K V → Type ℓ where
  nil : Reordered R [] []
  cons :
      {k : K} {v w : V} {m n : Map K V}
      → R v w
      → Reordered R m n
      → Reordered R ((k, v) ∷ m) ((k, w) ∷ n)
  swap :
      {j k : K} {u v u' v' : V} {m n : Map K V}
      → R u u'
      → R v v'
      → Reordered R m n
      → Reordered R ((j, u) ∷ (k, v) ∷ m) ((k, v') ∷ (j, u') ∷ n)
  trans : {l m n : Map K V} → Reordered R l m → Reordered R m n → Reordered R l n

pub Reordered-sym {ℓ} :
    {K V : Type ℓ} {R : V → V → Type ℓ} {m n : Map K V}
    → ((v w : V) → R v w → R w v)
    → Reordered R m n
    → Reordered R n m
Reordered-sym s nil = nil
Reordered-sym s (cons r p) = cons (s _ _ r) (Reordered-sym s p)
Reordered-sym s (swap r r' p) = swap (s _ _ r') (s _ _ r) (Reordered-sym s p)
Reordered-sym s (trans p q) = trans (Reordered-sym s q) (Reordered-sym s p)

module _ {ℓ} {K V : Type ℓ} {R : V → V → Type ℓ} (P : K × V → Type ℓ) where
  All-of_Reordered :
      {m n : Map K V} → ((k : K) (v w : V) → R v w → P (k, v)) → Reordered R m n → All P m
  All-of_Reordered h nil = tt
  All-of_Reordered h (cons r p) = (h _ _ _ r, All-of_Reordered h p)
  All-of_Reordered h (swap r r' p) = (h _ _ _ r, (h _ _ _ r', All-of_Reordered h p))
  All-of_Reordered h (trans p q) = All-of_Reordered h p

  All-of_Reordered_right :
      {m n : Map K V} → ((k : K) (v w : V) → R v w → P (k, w)) → Reordered R m n → All P n
  All-of_Reordered_right h nil = tt
  All-of_Reordered_right h (cons r p) = (h _ _ _ r, All-of_Reordered_right h p)
  All-of_Reordered_right h (swap r r' p) = (h _ _ _ r', (h _ _ _ r, All-of_Reordered_right h p))
  All-of_Reordered_right h (trans p q) = All-of_Reordered_right h q

-- What one of two related values translates to, the other does up to a relation.
abbrev pub Respects {ℓ} :
    {E V V' : Type ℓ} → (V → Result E V') → (V → V → Type ℓ) → (V' → V' → Type ℓ) → Type ℓ
Respects {V' = V'} value R R' =
    (v w : _) (v' : V') → R v w → value v ≡ ok v' → (w' : V') × (value w ≡ ok w') × R' v' w'

module _ {ℓ} {E K V K' V' : Type ℓ} (key : K → Result E K') (value : V → Result E V') where
  -- entry by entry, the second map is what the first translates to
  data Translates : Map K V → Map K' V' → Type ℓ where
    empty : Translates [] []
    step :
        {k : K} {v : V} {m : Map K V} {k' : K'} {v' : V'} {m' : Map K' V'}
        → key k ≡ ok k'
        → value v ≡ ok v'
        → Translates m m'
        → Translates ((k, v) ∷ m) ((k', v') ∷ m')

  Translates-Reordered :
      {R : V → V → Type ℓ} {R' : V' → V' → Type ℓ} {m n : Map K V} {m' : Map K' V'}
      → Respects value R R'
      → Reordered R m n
      → Translates m m'
      → (n' : Map K' V') × Translates n n' × Reordered R' m' n'
  Translates-Reordered h nil empty = ([], empty, nil)
  Translates-Reordered h (cons {v} {w} r p) (step {v'} e f t) =
      let (w', g, r') = h v w v' r f in
      let (n', t', p') = Translates-Reordered h p t in ((_, w') ∷ n', step e g t', cons r' p')
  Translates-Reordered h (swap {u} {v} {u'} {v'} r s p)
        (step {v' = a} e f (step {v' = b} e' f' t)) =
      let (a', g, r') = h u u' a r f in
      let (b', g', s') = h v v' b s f' in
      let (n', t', p') = Translates-Reordered h p t in
      ((_, b') ∷ (_, a') ∷ n', step e' g' (step e g t'), swap r' s' p')
  Translates-Reordered h (trans p q) t =
      let (n', t', p') = Translates-Reordered h p t in
      let (l', t'', q') = Translates-Reordered h q t' in (l', t'', trans p' q')

  Translates-Succeeds :
      {m : Map K V} {m' : Map K' V'}
      → Translates m m'
      → All (λ e. Succeeds (key e.0) × Succeeds (value e.1)) m
  Translates-Succeeds empty = tt
  Translates-Succeeds (step {k'} {v'} e f t) = (((k', e), (v', f)), Translates-Succeeds t)

  Translates-functional :
      {m : Map K V} {w w' : Map K' V'} → Translates m w → Translates m w' → w ≡ w'
  Translates-functional empty empty = refl
  Translates-functional (step {k'} {v'} e f t) (step {k' = l'} {v' = w'} e' f' t') =
      let rest = Translates-functional t t' in
      let same_key : k' ≡ l' = cc in let same_value : v' ≡ w' = cc in cc

-- The maps hold each key once and the same entries, in whatever order, up to a relation on the
-- values: what one Go map is under two orders of its iteration.
abbrev pub SameTable {ℓ} :
    {K V : Type ℓ} ⦃c : Comparable K⦄ → (V → V → Type ℓ) → Map K V → Map K V → Type ℓ
SameTable R m n = HasUniqueKeys m × HasUniqueKeys n × Reordered R m n

pub SameTable-sym {ℓ} :
    {K V : Type ℓ} ⦃c : Comparable K⦄ {R : V → V → Type ℓ}
    → ((v w : V) → R v w → R w v)
    → (m n : Map K V) → SameTable R m n
    → SameTable R n m
SameTable-sym s m n (u, u', p) = (u', u, Reordered-sym s p)

module _ {ℓ} {E K V K' V' : Type ℓ} ⦃c : Comparable K⦄ ⦃c' : Comparable K'⦄ (key : K → Result E K')
    (parse : K' → Result E K) (value : V → Result E V') (unvalue : V' → Result E V) where
  Encodes-Translates :
      {m : Map K V} {w : Map K' V'} → Encodes key parse value unvalue m w → Translates key value m w
  Encodes-Translates ends = empty
  Encodes-Translates (entry e f _ _ p) = step e f (Encodes-Translates p)

  translate-Translates :
      (m : Map K V) (w : Map K' V')
      → HasUniqueKeys m
      → All (RestoresEntry key parse value unvalue) m
      → translate key value m [] ≡ ok w
      → Translates key value m w
  translate-Translates m w u r h =
      Encodes-Translates (translate_nil-Encodes key parse value unvalue m w u r h)

  Translates-translate :
      (m : Map K V) (w : Map K' V')
      → HasUniqueKeys m
      → All (RestoresEntry key parse value unvalue) m
      → Translates key value m w
      → translate key value m [] ≡ ok w
  Translates-translate m w u r t =
      let (w', h) = (translate-Succeeds_iff key value m []).1 (Translates-Succeeds key value t) in
      rw (Translates-functional key value t (translate-Translates m w' u r h)) h

  -- The order of a map does not show in its translation, but for the order of that.
  pub translate-SameTable :
      {R : V → V → Type ℓ} {R' : V' → V' → Type ℓ}
      → ((k : K) → Restores key parse k)
      → ((v w : V) → R v w → Restores value unvalue v × Restores value unvalue w)
      → Respects value R R'
      → Respects (λ m. translate key value m []) (SameTable R) (SameTable R')
  translate-SameTable restores restores' h m n w (u, u', p) t =
      let left =
        All-of_Reordered (RestoresEntry key parse value unvalue)
          (λ k v x r. (restores k, (restores' v x r).0)) p in
      let right =
        All-of_Reordered_right (RestoresEntry key parse value unvalue)
          (λ k v x r. (restores k, (restores' v x r).1)) p in
      let (w', t', p') = Translates-Reordered key value h p (translate-Translates m w u left t) in
      (
        w',
        Translates-translate n w' u' right t',
        (
          translate-HasUniqueKeys key value m [] w tt t,
          translate-HasUniqueKeys key value n [] w' tt (Translates-translate n w' u' right t'),
          p',
        ),
      )
