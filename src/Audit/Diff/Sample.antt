-- ===== src/Audit/Diff/Sample.antt =====
-- go/audit/diff.go: a coding of maps as texts, to run `Diff` on. A text is written with a mark before each of its
-- characters and a stop after the last.
use Prim.Native.Char.{Char}
use ivorycom_governance.Common.{
  not, Bool, true, false, String, ◌≡◌, refl, ap, List, ◌==◌, nat_eq, if◌then◌else◌,
}
use Prim.Native.Char.{code}
use ivorycom_governance.Common.Map.{Map}
use ivorycom_governance.Common.Result.{Result, ok}
use ivorycom_governance.Audit.Diff.{Operand, absent, reference, plain, Json}
use ivorycom_governance.Audit.Diff.Restored.{IsJson}

abbrev stop : Char
stop = "."

abbrev mark : Char
mark = "x"

unfoldable pub write_text : String → String → String
write_text String.[] rest = String.◌∷◌ stop rest
write_text (String.◌∷◌ c s) rest = String.◌∷◌ mark (String.◌∷◌ c (write_text s rest))

abbrev cons_head : Char → List String → List String
cons_head c List.[] = List.[]
cons_head c (List.◌∷◌ t ts) = List.◌∷◌ (String.◌∷◌ c t) ts

-- whether the reader is behind a mark
unfoldable pub read_texts : Bool → String → List String
read_texts marked String.[] = List.[]
read_texts true (String.◌∷◌ c s) = cons_head c (read_texts false s)
read_texts false (String.◌∷◌ c s) =
    let stops = code c == b'.' in
    let rest = read_texts (not stops) s in if stops then List.◌∷◌ "" rest else rest

read_texts-write_text :
    (t rest : String) → read_texts false (write_text t rest) ≡ List.◌∷◌ t (read_texts false rest)
unfolding read_texts write_text
read_texts-write_text String.[] rest = refl
read_texts-write_text (String.◌∷◌ c t) rest = ap (cons_head c) (read_texts-write_text t rest)

unfoldable pub write_map : Map String String → String
write_map List.[] = ""
write_map (List.◌∷◌ (k, v) m) = write_text k (write_text v (write_map m))

abbrev pairs : List String → Map String String
pairs List.[] = List.[]
pairs (List.◌∷◌ k List.[]) = List.[]
pairs (List.◌∷◌ k (List.◌∷◌ v ts)) = List.◌∷◌ (k, v) (pairs ts)

unfoldable pub read_map : String → Map String String
read_map s = pairs (read_texts false s)

pub read_map-write_map : (m : Map String String) → read_map (write_map m) ≡ m
unfolding read_map write_map read_texts
read_map-write_map List.[] = refl
read_map-write_map (List.◌∷◌ (k, v) m) =
    rw (read_texts-write_text k (write_text v (write_map m)), read_texts-write_text v (write_map m))
      (ap (List.◌∷◌ (k, v)) (read_map-write_map m))

-- Operands are maps.
abbrev encode : Operand (Map String String) → Result String String
encode absent = ok "null"
encode (reference null m) = ok (write_map m)
encode (plain m) = ok (write_map m)

abbrev pub coding : Json (Map String String)
coding = record {
  marshal = encode;
  unmarshal = λ s. ok (read_map s);
  marshal_map = λ m. ok (write_map m);
}

pub coding-IsJson : IsJson coding (λ _. Unit)
unfolding read_map read_texts
coding-IsJson = record {
  fields = λ v text m h h' k w e. tt;
  null_canonical = tt;
  null = refl;
  restores = λ m c. record {
    doc = write_map m;
    decoded = m;
    encodes = refl;
    canonical = tt;
    decodes = ap ok (read_map-write_map m);
    same = λ k. refl;
  };
}
