-- ===== src/Publish/Nested.antt =====
-- setNested of PublishPage.jsx, with which the inputs of the forms change one field of a draft. Its
-- paths lead through objects.
use ion_insurance_testapp.Prelude.{
  String, Bool, true, false, ◌≡◌, ap, ◌∙◌, List, [], ◌∷◌, inl, inr, Bool-cases, arith, eq_iff,
  str_eq, if◌then◌else◌,
}
use ion_insurance_testapp.Js.{Value, obj, Fields, end, field, get, fields_of, get-fields_of}

-- `curr[key] = value`
unfoldable pub put : String → Value → Fields → Fields
put key v end = field key v end
put key v (field k w fs) =
    let rest = put key v fs in if str_eq k key then field k v fs else field k w rest

-- The path is split into its first key and the others.
unfoldable pub set_nested : Fields → String → List String → Value → Fields
unfolding put
set_nested fs key [] v = put key v fs
set_nested fs key (next ∷ keys) v =
    put key (obj (set_nested (fields_of (get (obj fs) key)) next keys v)) fs

abbrev pub get_path : Value → List String → Value
get_path v [] = v
get_path v (key ∷ keys) = get_path (get v key) keys

-- Neither path is the beginning of the other.
abbrev pub parts : List String → List String → Bool
parts [] qs = false
parts (p ∷ ps) [] = false
parts (p ∷ ps) (q ∷ qs) = let rest = parts ps qs in if str_eq p q then rest else true

pub get-put_own : (key : String) (v : Value) (fs : Fields) → get (obj (put key v fs)) key ≡ v
unfolding put
get-put_own key v end = ground (arith, eq_iff key key)
get-put_own key v (field k w fs) = ground (arith, get-put_own key v fs)

pub get-put_other :
    (key other : String) (v : Value) (fs : Fields)
    → str_eq key other ≡ false
    → get (obj (put key v fs)) other ≡ get (obj fs) other
unfolding put
get-put_other key other v end h = ground arith
get-put_other key other v (field k w fs) h =
    ground (arith, get-put_other key other v fs h, eq_iff k key, eq_iff k other, eq_iff key other)

get_path-own :
    (fs : Fields) (key : String) (keys : List String) (v : Value)
    → get_path (obj (set_nested fs key keys v)) (key ∷ keys) ≡ v
unfolding set_nested
get_path-own fs key [] v = get-put_own key v fs
get_path-own fs key (next ∷ keys) v =
    let below = set_nested (fields_of (get (obj fs) key)) next keys v in
    ap (λ w. get_path w (next ∷ keys)) (get-put_own key (obj below) fs)
    ∙ get_path-own (fields_of (get (obj fs) key)) next keys v

apart_at_head :
    (key q : String) (keys qs : List String)
    → parts (key ∷ keys) (q ∷ qs) ≡ true
    → str_eq key q ≡ true
    → parts keys qs ≡ true
apart_at_head key q keys qs h own = ground arith

get_path-other :
    (fs : Fields) (key : String) (keys : List String) (v : Value) (q : String) (qs : List String)
    → parts (key ∷ keys) (q ∷ qs) ≡ true
    → get_path (obj (set_nested fs key keys v)) (q ∷ qs) ≡ get_path (obj fs) (q ∷ qs)
unfolding set_nested
get_path-other fs key [] v q qs h = elim (Bool-cases (str_eq key q)) [
  | inl own ↦ absurd (ground (arith, apart_at_head key q [] qs h own))
  | inr other ↦ ap (λ w. get_path w qs) (get-put_other key q v fs other)
]
get_path-other fs key (next ∷ keys) v q [] h = elim (Bool-cases (str_eq key q)) [
  | inl own ↦ absurd (ground (arith, apart_at_head key q (next ∷ keys) [] h own))
  | inr other ↦
      get-put_other key q (obj (set_nested (fields_of (get (obj fs) key)) next keys v)) fs other
]
get_path-other fs key (next ∷ keys) v q (r ∷ rs) h =
    let inner = fields_of (get (obj fs) key) in
    let below = set_nested inner next keys v in
    elim (Bool-cases (str_eq key q)) [
      | inl own ↦ rw⁻¹ ((eq_iff key q).0 own) (
          ap (λ w. get_path w (r ∷ rs)) (get-put_own key (obj below) fs)
          ∙ get_path-other inner next keys v r rs (apart_at_head key q (next ∷ keys) (r ∷ rs) h own)
          ∙ ap (λ w. get_path w rs) (get-fields_of (get (obj fs) key) r))
      | inr other ↦ ap (λ w. get_path w (r ∷ rs)) (get-put_other key q (obj below) fs other)
    ]

-- After setNested the path leads to the value, and every path of which neither is the beginning of
-- the other leads where it led before.
pub get_path-set_nested :
    (fs : Fields) (key : String) (keys : List String) (v : Value) (q : String) (qs : List String)
    → parts (key ∷ keys) (q ∷ qs) ≡ true
    → (get_path (obj (set_nested fs key keys v)) (key ∷ keys) ≡ v)
      × (get_path (obj (set_nested fs key keys v)) (q ∷ qs) ≡ get_path (obj fs) (q ∷ qs))
get_path-set_nested fs key keys v q qs h =
    (get_path-own fs key keys v, get_path-other fs key keys v q qs h)
