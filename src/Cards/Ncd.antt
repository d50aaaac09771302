-- ===== src/Cards/Ncd.antt =====
-- The ladder of no-claims discounts: NcdLadder.
use ion_insurance_testapp.Prelude.{
  ℕ, Bool, true, false, List, [], ◌∷◌, ◌++◌, Option, none, some, if◌then◌else◌, ◌==◌, ◌≡◌, refl,
  ◌>>=◌,
}
use ion_insurance_testapp.Js.{Value, undefined, null, str, codes, get, is_nullish}
use ion_insurance_testapp.Js.Sort.{sort_by, rising}
use ion_insurance_testapp.Cards.{map_some}
use ion_insurance_testapp.Cards.Labels.{is_digit, spaced}

-- What follows a given beginning.
abbrev after_prefix : List ℕ → List ℕ → Option (List ℕ)
after_prefix [] cs = some cs
after_prefix (_ ∷ _) [] = none
after_prefix (p ∷ ps) (c ∷ cs) = let rest = after_prefix ps cs in if p == c then rest else none

-- The digits in front, and what follows them.
abbrev digits : List ℕ → List ℕ × List ℕ
digits [] = ([], [])
digits (c ∷ cs) = let rest = digits cs in if is_digit c then (c ∷ rest.0, rest.1) else ([], c ∷ cs)

abbrev optional : List ℕ → List ℕ → List ℕ × Bool
optional ps cs = elim (after_prefix ps cs) [ none ↦ (cs, false) | some rest ↦ (rest, true) ]

-- `NCD_(\d+)_YEAR(S)?(_PLUS)?` at the beginning: the number, and whether the last group is there.
abbrev whether_plus : List ℕ × List ℕ → Option (List ℕ × Bool)
whether_plus ([], _) = none
whether_plus (n ∷ ns, rest) = after_prefix (codes "_YEAR") rest >>= λ more.
    some (n ∷ ns, (optional (codes "_PLUS") (optional (codes "S") more).0).1)

unfoldable pub ncd_here : List ℕ → Option (List ℕ × Bool)
ncd_here cs = after_prefix (codes "NCD_") cs >>= λ ds. whether_plus (digits ds)

-- The first match in the text.
unfoldable pub ncd_match : List ℕ → Option (List ℕ × Bool)
unfolding ncd_here
ncd_match [] = none
ncd_match (c ∷ cs) =
    let later = ncd_match cs in elim (ncd_here (c ∷ cs)) [ none ↦ later | some m ↦ some m ]

unfoldable pub ncd_label : List ℕ → List ℕ
unfolding ncd_match
ncd_label type = elim (ncd_match type) [
  | none ↦ spaced type
  | some m ↦ m.0 ++ (if m.1 then codes "+ yr" else codes " yr")
]

ncd_label_tests :
    (ncd_label (codes "NCD_3_YEAR") ≡ codes "3 yr")
    × (ncd_label (codes "NCD_5_YEARS_PLUS") ≡ codes "5+ yr")
    × (ncd_label (codes "MY_NCD_12_YEARS") ≡ codes "12 yr")
    × (ncd_label (codes "LOYALTY_NCD_X") ≡ codes "LOYALTY NCD X")
unfolding ncd_label
ncd_label_tests = (refl, refl, refl, refl)

-- The label of the discount's `type`: a value that is no text has no `match`.
abbrev label_of : Value → Option (List ℕ)
label_of undefined = some []
label_of null = some []
label_of (str s) = some (ncd_label (codes s))
label_of _ = none

pub record Level : Type 0 where
  pub percent : ℕ
  pub label : List ℕ

-- `Number(v)` of a percentage is a parameter, counted in its last decimal.
module _ (number : Value → ℕ) where
  abbrev pub level : Value → Option Level
  level d =
      if is_nullish d
      then none
      else label_of (get d "type") >>= λ l.
          some (record { percent = number (get d "discountPercent"); label = l })

  unfoldable pub ncd_ladder : List Value → Option (List Level)
  ncd_ladder discounts =
      map_some level (sort_by (rising (λ d. number (get d "discountPercent"))) discounts)
