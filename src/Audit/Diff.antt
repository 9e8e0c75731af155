-- ===== src/Audit/Diff.antt =====
-- go/audit/diff.go: the fields that differ between two states of an object. JSON documents are
-- texts; a state is a value of a type `A` that `encoding/json` can be asked to encode.
pub mod Fields
pub mod Errors
pub mod Restored
pub mod Document
pub mod Sample
use ivorycom_governance.Common.{
  String, Bool, true, false, Option, none, some, List, [], ◌∷◌, ◌==◌, string_eq, if◌then◌else◌,
}
use ivorycom_governance.Common.Map
use ivorycom_governance.Common.Map.{Map}
use ivorycom_governance.Common.Result.{Result, ok, err, ◌>>=◌, wrap}

-- what `reflect` tells of an `any`: no value, a value of a kind that has a nil, and whether it is
-- that nil, or a value of another kind
pub data Operand (A : Type 0) : Type 0 where
  absent : Operand A
  reference : Bool → A → Operand A
  plain : A → Operand A

-- `encoding/json`, on the operands, into a map of raw values, and on such a map
pub record Json (A : Type 0) : Type 0 where
  pub marshal : Operand A → Result String String
  pub unmarshal : String → Result String (Map String String)
  pub marshal_map : Map String String → Result String String

-- The errors of `Diff`; `panicked` is the panic of `mustMarshal`.
pub data DiffError : Type 0 where
  not_marshaled : String → DiffError
  not_an_object : DiffError
  panicked : String → DiffError

unfoldable pub is_nil : {A : Type 0} → Operand A → Bool
is_nil absent = true
is_nil (reference null v) = null
is_nil (plain v) = false

unfoldable pub to_map : {A : Type 0} → Json A → Operand A → Result DiffError (Map String String)
to_map x v =
    if is_nil v
    then ok []
    else (do b ← wrap not_marshaled (x.marshal v); wrap (λ _. not_an_object) (x.unmarshal b))

unfoldable pub must_marshal : {A : Type 0} → Json A → Map String String → Result DiffError String
must_marshal x m = wrap panicked (x.marshal_map m)

-- `for k := range m { keys[k] = struct{}{} }`
unfoldable pub collect_keys : Map String String → Map String (Unit {0}) → Map String (Unit {0})
collect_keys [] keys = keys
collect_keys ((k, v) ∷ m) keys = collect_keys m (Map.insert k tt keys)

pub record Sides : Type 0 where
  pub old_changed : Map String String
  pub new_changed : Map String String

-- `oOK && nOK && bytes.Equal(ov, nv)`
abbrev pub is_same : Option String → Option String → Bool
is_same none n = false
is_same (some v) none = false
is_same (some v) (some w) = v == w

-- `if ok { m[k] = v }`
abbrev pub put : String → Option String → Map String String → Map String String
put k none m = m
put k (some v) m = Map.insert k v m

-- one round of the loop over the keys
unfoldable pub compare_key : Map String String → Map String String → String → Sides → Sides
compare_key before after k s =
    let ov = Map.lookup k before in
    let nv = Map.lookup k after in
    if is_same ov nv
    then s
    else record { old_changed = put k ov s.old_changed; new_changed = put k nv s.new_changed }

unfoldable pub compare_keys :
    Map String String → Map String String → Map String (Unit {0}) → Sides → Sides
compare_keys before after [] s = s
compare_keys before after ((k, u) ∷ keys) s =
    compare_keys before after keys (compare_key before after k s)

-- what `Diff` computes from the two maps
unfoldable pub changed : Map String String → Map String String → Sides
changed before after =
    compare_keys before after (collect_keys after (collect_keys before []))
      (record { old_changed = []; new_changed = [] })

-- the document of one side
unfoldable pub side :
    {A : Type 0} → Json A → Operand A → Map String String → Result DiffError String
side x v m = if is_nil v then ok "null" else must_marshal x m

unfoldable pub diff : {A : Type 0} → Json A → Operand A → Operand A → Result DiffError String
diff x before after = do
  before_map ← to_map x before
  after_map ← to_map x after
  let s = changed before_map after_map
  old ← side x before s.old_changed
  new ← side x after s.new_changed
  must_marshal x (Map.insert "new" new (Map.insert "old" old []))
