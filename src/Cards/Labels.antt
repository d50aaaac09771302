-- ===== src/Cards/Labels.antt =====
-- The label of a chip: InclusionChip and ExclusionChip. Texts are lists of code points. Changes of
-- case are those of ASCII, in which the codes are written.
use ion_insurance_testapp.Prelude.{
  ℕ, ◌+◌, ◌-◌, Bool, true, false, not, ◌&&◌, ◌||◌, ◌≡◌, List, [], ◌∷◌, map, All, if◌then◌else◌, leb,
  ◌==◌, Option, none, some,
}
use ion_insurance_testapp.Js.{codes, Value, str}

abbrev is_upper : ℕ → Bool
is_upper c = leb 65 c && leb c 90

abbrev is_lower : ℕ → Bool
is_lower c = leb 97 c && leb c 122

abbrev pub is_digit : ℕ → Bool
is_digit c = leb 48 c && leb c 57

abbrev pub to_lower_case : ℕ → ℕ
to_lower_case c = if is_upper c then c + 32 else c

abbrev pub to_upper_case : ℕ → ℕ
to_upper_case c = if is_lower c then c - 32 else c

-- `\w`
abbrev is_word : ℕ → Bool
is_word c = is_upper c || is_lower c || is_digit c || c == 95

-- `.replace(/_/g, ' ')`
abbrev pub spaced : List ℕ → List ℕ
spaced [] = []
spaced (c ∷ cs) = (if c == 95 then 32 else c) ∷ spaced cs

-- `.replace(/\b\w/g, c => c.toUpperCase())`, after a word character or not.
abbrev capitalised : (after : Bool) → List ℕ → List ℕ
capitalised after [] = []
capitalised after (c ∷ cs) =
    (if not after && is_word c then to_upper_case c else c) ∷ capitalised (is_word c) cs

unfoldable pub chip_label : List ℕ → List ℕ
chip_label code = capitalised false (map to_lower_case (spaced code))

-- A chip of a code that is no text throws.
abbrev pub chip : Value → Option (List ℕ)
chip (str code) = some (chip_label (codes code))
chip _ = none

-- Capital letters, digits and `_`, as in the codes of the vocabulary.
abbrev is_code : ℕ → Bool
is_code c = is_upper c || is_digit c || c == 95

abbrev pub IsCode : List ℕ → Type 0
IsCode = All (λ c. is_code c ≡ true)

-- A label read back.
abbrev pub code_of_label : List ℕ → List ℕ
code_of_label [] = []
code_of_label (c ∷ cs) = (if c == 32 then 95 else to_upper_case c) ∷ code_of_label cs
