-- ===== src/Publish/Suffix.antt =====
-- PublishPage.jsx, `uniqueSuffix`: the last five base-36 digits of the time in milliseconds.
use ion_insurance_testapp.Prelude.{
  ℕ, zero, suc, ◌/◌, ◌%◌, ◌≡◌, refl, String, List, [], ◌∷◌, none, some, ltb, if◌then◌else◌,
  get_elem?,
}
use ion_insurance_testapp.Js.{concat}

-- `toString(36).toUpperCase()` writes a digit so.
abbrev digit_texts : List String
digit_texts =
    "0" ∷ "1" ∷ "2" ∷ "3" ∷ "4" ∷ "5" ∷ "6" ∷ "7" ∷ "8" ∷ "9" ∷ "A" ∷ "B" ∷ "C" ∷ "D" ∷ "E" ∷ "F"
    ∷ "G" ∷ "H" ∷ "I" ∷ "J" ∷ "K" ∷ "L" ∷ "M" ∷ "N" ∷ "O" ∷ "P" ∷ "Q" ∷ "R" ∷ "S" ∷ "T" ∷ "U" ∷ "V"
    ∷ "W" ∷ "X" ∷ "Y" ∷ "Z" ∷ []

digit_text : ℕ → String
digit_text d = elim (get_elem? digit_texts d) [ none ↦ "" | some t ↦ t ]

-- The digits of `n` that `slice(-places)` keeps, in front of `rest`.
last_digits : ℕ → ℕ → List ℕ → List ℕ
last_digits zero n rest = rest
last_digits (suc places) n rest =
    let more = last_digits places (n / 36) ((n % 36) ∷ rest) in if ltb n 36 then n ∷ rest else more

digits_text : List ℕ → String
digits_text [] = ""
digits_text (d ∷ ds) = concat (digit_text d ∷ digits_text ds ∷ [])

unfoldable pub unique_suffix : ℕ → String
unfolding last_digits digits_text digit_text concat
unique_suffix now = digits_text (last_digits 5 now [])

unique_suffix_test : unique_suffix 1764101150123 ≡ "09Z1N"
unfolding unique_suffix
unique_suffix_test = refl
