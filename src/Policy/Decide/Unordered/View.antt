-- ===== src/Policy/Decide/Unordered/View.antt =====
-- Bundles and results up to the order of their maps, and `Decide` on them.
use mathlib.Core.Quot
use mathlib.Core.Quot.{Quot, Quot-set}
use ivorycom_governance.Common.{◌≡◌, refl, ap}
use ivorycom_governance.Policy.Model.{CompiledBundle}
use ivorycom_governance.Policy.Model.Same.{SameBundle}
use ivorycom_governance.Policy.Decide.Types.{DecisionRequest}
use ivorycom_governance.Policy.Decide.Stages.{decide}
use ivorycom_governance.Policy.Decide.Unordered.{SameResult, decide-first, decide-second}

-- a bundle as its lookups
abbrev Policy : Type 0
Policy = Quot SameBundle

-- a result as its effect, reasons, fields, and the mask of each field
abbrev Answer : Type 0
Answer = Quot SameResult

answer_by : DecisionRequest → CompiledBundle → Policy → Answer
answer_by req first =
    Quot.lift Quot-set (λ second. Quot.mk (decide first second req))
      λ second second' same. Quot.sound (decide-second first second second' req same)

answer_by-SameBundle :
    (req : DecisionRequest) (first first' : CompiledBundle)
    → SameBundle first first'
    → (q : Policy) → answer_by req first q ≡ answer_by req first' q
unfolding answer_by
answer_by-SameBundle req first first' same =
    Quot.ind (λ q. Quot-set _ _) λ second. ap Quot.mk (decide-first first first' second req same)

-- `Decide` is a function of policies: the answer to a request depends on the two bundles only
-- through their lookups.
answer : DecisionRequest → Policy → Policy → Answer
answer req =
    Quot.lift (hlevel (Quot-set {r = SameResult})) (answer_by req)
      λ first first' same. λ i q. answer_by-SameBundle req first first' same q i

answer-decide :
    (req : DecisionRequest) (first second : CompiledBundle)
    → answer req (Quot.mk first) (Quot.mk second) ≡ Quot.mk (decide first second req)
unfolding answer answer_by
answer-decide req first second = refl
