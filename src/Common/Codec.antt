-- ===== src/Common/Codec.antt =====
-- Copying a map with its keys and values translated, and back.
pub mod Recodes
pub mod Keys
pub mod Reordered
use mathlib.Core.Path.{◌≡◌, refl, sym, ap, ◌∙◌}
use mathlib.Core.Logic.{◌≢◌, ◌↔◌}
use mathlib.Core.Option.{none}
use mathlib.Core.List.{[], ◌∷◌, ◌++◌, append_assoc, append-nil}
use native.Mathlib.Omega.{arith}
use ivorycom_governance.Common.Tests.{Comparable}
use ivorycom_governance.Common.Lists.{All, All-mono}
use ivorycom_governance.Common.Map
use ivorycom_governance.Common.Map.{Map, HasUniqueKeys, lookup-insert}
use ivorycom_governance.Common.Result.{Result, ok, ◌>>=◌, >>=-eq-ok}

-- `for k, v := range m { k', err := key(k); …; out[k'] = value(v) }`
unfoldable pub translate {ℓ} :
    {E K V K' V' : Type ℓ} ⦃c : Comparable K'⦄
    → (K → Result E K')
    → (V → Result E V')
    → Map K V
    → Map K' V'
    → Result E (Map K' V')
translate key value [] out = ok out
translate key value ((k, v) ∷ m) out = do
  k' ← key k
  v' ← value v
  translate key value m (Map.insert k' v' out)

-- Decoding restores what encoding succeeds on.
abbrev pub Restores {ℓ} : {E A B : Type ℓ} → (A → Result E B) → (B → Result E A) → A → Type ℓ
Restores {B = B} encode decode a = (b : B) → encode a ≡ ok b → decode b ≡ ok a

-- The computation has a result.
abbrev pub Succeeds {ℓ κ} : {E : Type ℓ} {A : Type κ} → Result E A → Type (ℓ ⊔ κ)
Succeeds {A = A} r = (a : A) × (r ≡ ok a)

-- A map is translated exactly when all its keys and values are.
pub translate-Succeeds_iff {ℓ} :
    {E K V K' V' : Type ℓ} ⦃c : Comparable K'⦄ (key : K → Result E K') (value : V → Result E V')
    (m : Map K V) (out : Map K' V')
    → Succeeds (translate key value m out) ↔ All (λ e. Succeeds (key e.0) × Succeeds (value e.1)) m
unfolding translate
translate-Succeeds_iff key value [] out = (λ _. tt, λ _. (out, refl))
translate-Succeeds_iff key value ((k, v) ∷ m) out = (
  λ (w, h).
      let (k', encoded, h') = >>=-eq-ok (key k) _ h in
      let (v', valued, h'') = >>=-eq-ok (value v) _ h' in
      (
        ((k', encoded), (v', valued)),
        (translate-Succeeds_iff key value m (Map.insert k' v' out)).0 (w, h''),
      ),
  λ (((k', encoded), (v', valued)), rest).
      rw (encoded, valued) ((translate-Succeeds_iff key value m (Map.insert k' v' out)).1 rest),
)

-- when only the keys, or only the values, can fail
pub translate_keys-Succeeds_iff {ℓ} :
    {E K V K' : Type ℓ} ⦃c : Comparable K'⦄ (key : K → Result E K') (P : K → Type ℓ)
    → ((k : K) → Succeeds (key k) ↔ P k)
    → (m : Map K V) → Succeeds (translate key ok m []) ↔ All (λ e. P e.0) m
translate_keys-Succeeds_iff key P key_iff m =
    let (to, from) = translate-Succeeds_iff key ok m [] in
    (
      λ s. All-mono (λ e h. (key_iff e.0).0 h.0) m (to s),
      λ a. from (All-mono (λ e h. ((key_iff e.0).1 h, (e.1, refl))) m a),
    )

pub translate_values-Succeeds_iff {ℓ} :
    {E K V V' : Type ℓ} ⦃c : Comparable K⦄ (value : V → Result E V') (P : V → Type ℓ)
    → ((v : V) → Succeeds (value v) ↔ P v)
    → (m : Map K V) → Succeeds (translate ok value m []) ↔ All (λ e. P e.1) m
translate_values-Succeeds_iff value P value_iff m =
    let (to, from) = translate-Succeeds_iff ok value m [] in
    (
      λ s. All-mono (λ e h. (value_iff e.1).0 h.1) m (to s),
      λ a. from (All-mono (λ e h. ((e.0, refl), (value_iff e.1).1 h)) m a),
    )

module _ {ℓ} {K V : Type ℓ} ⦃c : Comparable K⦄ where
  insert_new :
      (k : K) (v : V) (m : Map K V) → Map.lookup k m ≡ none → Map.insert k v m ≡ m ++ (k, v) ∷ []
  unfolding Map.insert Map.lookup
  insert_new k v [] h = refl
  insert_new k v ((j, w) ∷ m) h = ground (arith, insert_new k v m)

  insert_new-append :
      (k : K) (v : V) (out m : Map K V)
      → Map.lookup k out ≡ none
      → Map.insert k v out ++ m ≡ out ++ (k, v) ∷ m
  insert_new-append k v out m h =
      ap (λ l. l ++ m) (insert_new k v out h) ∙ append_assoc out ((k, v) ∷ []) m

  -- the keys of `m` are new to `out`
  abbrev NewTo : Map K V → Map K V → Type ℓ
  NewTo out m = All (λ e. Map.lookup e.0 out ≡ none) m

  NewTo-nil : (m : Map K V) → NewTo [] m
  unfolding Map.lookup
  NewTo-nil [] = tt
  NewTo-nil (e ∷ m) = (refl, NewTo-nil m)

  lookup-cons_none :
      (k j : K) (w : V) (m : Map K V)
      → Map.lookup k ((j, w) ∷ m) ≡ none
      → (j ≢ k) × (Map.lookup k m ≡ none)
  unfolding Map.lookup
  lookup-cons_none k j w m h = ground (arith, c.equal_iff j k)

  lookup-insert_ne :
      (k j : K) (v : V) (m : Map K V) → j ≢ k → Map.lookup j (Map.insert k v m) ≡ Map.lookup j m
  lookup-insert_ne k j v m h = ground (arith, lookup-insert k j v m, c.equal_iff k j)

  NewTo-insert :
      (k : K) (v : V) (out m : Map K V)
      → Map.lookup k m ≡ none
      → NewTo out m
      → NewTo (Map.insert k v out) m
  NewTo-insert k v out [] h n = tt
  NewTo-insert k v out ((j, w) ∷ m) h (n, ns) =
      let (differ, later) = lookup-cons_none k j w m h in
      (lookup-insert_ne k j v out differ ∙ n, NewTo-insert k v out m later ns)

module _ {ℓ} {E K V K' V' : Type ℓ} ⦃c : Comparable K⦄ ⦃c' : Comparable K'⦄ (key : K → Result E K')
    (parse : K' → Result E K) (value : V → Result E V') (unvalue : V' → Result E V) where
  -- entry by entry, the first map is translated to the second, which decodes to it
  pub data Encodes : Map K V → Map K' V' → Type ℓ where
    ends : Encodes [] []
    entry :
        {k : K} {v : V} {m : Map K V} {k' : K'} {v' : V'} {m' : Map K' V'}
        → key k ≡ ok k'
        → value v ≡ ok v'
        → parse k' ≡ ok k
        → unvalue v' ≡ ok v
        → Encodes m m'
        → Encodes ((k, v) ∷ m) ((k', v') ∷ m')

  abbrev pub RestoresEntry : K × V → Type ℓ
  RestoresEntry e = Restores key parse e.0 × Restores value unvalue e.1

  -- no key of `out` decodes to a key of `m`
  abbrev Fresh : Map K' V' → Map K V → Type ℓ
  Fresh out m = All (λ e. (k' : K') → parse k' ≡ ok e.0 → Map.lookup k' out ≡ none) m

  Fresh-insert :
      (k : K) (k' : K') (v' : V') (out : Map K' V') (m : Map K V)
      → parse k' ≡ ok k
      → Map.lookup k m ≡ none
      → Fresh out m
      → Fresh (Map.insert k' v' out) m
  Fresh-insert k k' v' out [] p h f = tt
  Fresh-insert k k' v' out ((j, w) ∷ m) p h (f, fs) =
      let (differ, later) = lookup-cons_none k j w m h in
      (
        λ j' q. lookup-insert_ne k' j' v' out (λ same. differ (same_key j j' q same)) ∙ f j' q,
        Fresh-insert k k' v' out m p later fs,
      )
    where
      same_key : (j : K) (j' : K') → parse j' ≡ ok j → j' ≡ k' → j ≡ k
      same_key j j' q same =
          let e : ◌≡◌ {A = Result E K} (ok j) (ok k) = sym q ∙ ap parse same ∙ p in cc

  Fresh-nil : (m : Map K V) → Fresh [] m
  unfolding Map.lookup
  Fresh-nil [] = tt
  Fresh-nil (e ∷ m) = (λ _ _. refl, Fresh-nil m)

  translate-Encodes :
      (m : Map K V) (out w : Map K' V')
      → HasUniqueKeys m
      → Fresh out m
      → All RestoresEntry m
      → translate key value m out ≡ ok w
      → (m' : Map K' V') × Encodes m m' × (w ≡ out ++ m')
  unfolding translate
  translate-Encodes [] out w u f r h =
      ([], ends, (let e : out ≡ w = cc in sym e ∙ sym (append-nil out)))
  translate-Encodes ((k, v) ∷ m) out w (u, us) (f, fs) ((q, r), rs) h =
      let (k', encoded, h') = >>=-eq-ok (key k) _ h in
      let (v', valued, h'') = >>=-eq-ok (value v) _ h' in
      let p = q k' encoded in
      let (m', e, same) =
        translate-Encodes m (Map.insert k' v' out) w us (Fresh-insert k k' v' out m p u fs) rs
          h'' in
      (
        (k', v') ∷ m',
        entry encoded valued p (r v' valued) e,
        same ∙ insert_new-append k' v' out m' (f k' p),
      )

  pub translate_nil-Encodes :
      (m : Map K V) (w : Map K' V')
      → HasUniqueKeys m
      → All RestoresEntry m
      → translate key value m [] ≡ ok w
      → Encodes m w
  translate_nil-Encodes m w u r h =
      let (m', e, same) = translate-Encodes m [] w u (Fresh-nil m) r h in rw same e

  Encodes-translate :
      {m : Map K V} {m' : Map K' V'} (out : Map K V)
      → Encodes m m'
      → HasUniqueKeys m
      → NewTo out m
      → translate parse unvalue m' out ≡ ok (out ++ m)
  unfolding translate
  Encodes-translate out ends u n = ap ok (sym (append-nil out))
  Encodes-translate out (entry {k} {v} {m} {k'} {v'} {m'} _ _ p q e) (u, us) (n, ns) =
      rw (p, q)
        (Encodes-translate (Map.insert k v out) e us (NewTo-insert k v out m u ns)
          ∙ ap ok (insert_new-append k v out m n))

  -- A map with unique keys is restored, if its keys and values are.
  pub translate-Restores :
      (m : Map K V)
      → HasUniqueKeys m
      → All RestoresEntry m
      → (w : Map K' V') → translate key value m [] ≡ ok w
      → translate parse unvalue w [] ≡ ok m
  translate-Restores m u r w h =
      Encodes-translate [] (translate_nil-Encodes m w u r h) u (NewTo-nil m)

-- A value that is copied is restored.
pub ok-Restores {ℓ} : {E A : Type ℓ} (a : A) → Restores {E = E} ok ok a
ok-Restores a b h = sym h
