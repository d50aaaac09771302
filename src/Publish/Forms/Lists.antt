-- ===== src/Publish/Forms/Lists.antt =====
-- PublishPage.jsx: CheckGroup, StringListEditor and AddOnEditor.
use ion_insurance_testapp.Prelude.{
  ℕ, String, Bool, false, not, ◌≡◌, ◌≢◌, refl, List, [], ◌∷◌, ◌++◌, ◌||◌, str_eq, if◌then◌else◌,
  keep, any, modify, set, erase_idx, arith, eq_iff,
}
use ion_insurance_testapp.Publish.Items.{text, AddOn}

-- `xs.includes(opt)`
abbrev pub includes : String → List String → Bool
includes opt xs = any (λ x. str_eq x opt) xs

-- A press of the checkbox of `opt`; a resource of an offer is toggled in the same way.
unfoldable pub toggle : String → List String → List String
toggle opt selected =
    if includes opt selected then keep (λ s. not (str_eq s opt)) selected else selected ++ opt ∷ []

pub data StringsInput : Type 0 where
  add : StringsInput
  change : ℕ → String → StringsInput
  drop : ℕ → StringsInput

-- `StringListEditor`
unfoldable pub change_strings : StringsInput → List String → List String
change_strings add items = items ++ "" ∷ []
change_strings (change i v) items = set items i v
change_strings (drop i) items = erase_idx items i

pub data AddOnInput : Type 0 where
  code : String → AddOnInput
  name : String → AddOnInput
  rate : String → AddOnInput

pub data AddOnsInput : Type 0 where
  add : AddOnsInput
  update : ℕ → AddOnInput → AddOnsInput
  drop : ℕ → AddOnsInput

abbrev change_add_on : AddOnInput → AddOn → AddOn
change_add_on (code v) a = record a { code = v }
change_add_on (name v) a = record a { name = v }
change_add_on (rate v) a = record a { additional_premium_rate = text v }

abbrev blank_add_on : AddOn
blank_add_on = record { code = ""; name = ""; additional_premium_rate = text "" }

-- `AddOnEditor`
unfoldable pub change_add_ons : AddOnsInput → List AddOn → List AddOn
change_add_ons add items = items ++ blank_add_on ∷ []
change_add_ons (update i input) items = modify items i (change_add_on input)
change_add_ons (drop i) items = erase_idx items i

includes-append :
    (o x : String) (xs : List String) → includes o (xs ++ x ∷ []) ≡ (includes o xs || str_eq x o)
includes-append o x [] = ground arith
includes-append o x (y ∷ xs) = ground (arith, includes-append o x xs)

includes-keep_self :
    (o : String) (xs : List String) → includes o (keep (λ s. not (str_eq s o)) xs) ≡ false
includes-keep_self o [] = refl
includes-keep_self o (y ∷ xs) = ground (arith, includes-keep_self o xs)

includes-keep_ne :
    (o q : String) (xs : List String)
    → q ≢ o
    → includes q (keep (λ s. not (str_eq s o)) xs) ≡ includes q xs
includes-keep_ne o q [] h = refl
includes-keep_ne o q (y ∷ xs) h = ground (arith, includes-keep_ne o q xs h, eq_iff y o, eq_iff y q)

-- Pressing a checkbox turns the membership of its option round and leaves every other option as
-- it was.
pub includes-toggle :
    (o q : String) (xs : List String)
    → includes q (toggle o xs) ≡ (if str_eq q o then not (includes o xs) else includes q xs)
unfolding toggle
includes-toggle o q xs = ground (
  arith,
  eq_iff q o,
  eq_iff o q,
  includes-keep_self o xs,
  includes-append q o xs,
  includes-keep_ne o q xs,
)
