-- ===== src/Policy/Bundle/Message.antt =====
-- go/policy/bundle.go: the message that is signed.
use ivorycom_governance.Common.{
  ◌≡◌, ◌≢◌, refl, sym, ap, ◌∙◌, [], ◌∷◌, ◌++◌, All, nat_eq, arith, if◌then◌else◌, ◌==◌,
}
use ivorycom_governance.Common.Int.{ℤ}
use ivorycom_governance.Common.Decimal.{itoa, itoa_inj, itoa-All_ne}
use ivorycom_governance.Policy.Bundle.{Bytes, bar, canonical_message}

-- the bytes before and after the first bar
before : Bytes → Bytes
before [] = []
before (c ∷ cs) = if c == bar then [] else c ∷ before cs

after : Bytes → Bytes
after [] = []
after (c ∷ cs) = if c == bar then cs else after cs

before-concat : (ds body : Bytes) → All (λ c. c ≢ bar) ds → before (ds ++ bar ∷ body) ≡ ds
unfolding before
before-concat [] body h = refl
before-concat (d ∷ ds) body (h, hs) = ground (arith, before-concat ds body hs)

after-concat : (ds body : Bytes) → All (λ c. c ≢ bar) ds → after (ds ++ bar ∷ body) ≡ body
unfolding after
after-concat [] body h = refl
after-concat (d ∷ ds) body (h, hs) = ground (arith, after-concat ds body hs)

-- If the signed messages of two versions and bodies are the same bytes, then the versions are the
-- same and the bodies are the same.
pub canonical_message_inj :
    (version other : ℤ) (body content : Bytes)
    → canonical_message version body ≡ canonical_message other content
    → (version ≡ other) × (body ≡ content)
unfolding canonical_message
canonical_message_inj version other body content h =
    let plain = itoa-All_ne bar version (omega arith) in
    let other_plain = itoa-All_ne bar other (omega arith) in
    (
      itoa_inj version other (
          sym (before-concat (itoa version) body plain)
          ∙ ap before h
          ∙ before-concat (itoa other) content other_plain),
      sym (after-concat (itoa version) body plain)
          ∙ ap after h
          ∙ after-concat (itoa other) content other_plain,
    )
