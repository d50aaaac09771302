-- ===== src/Publish/Forms/Discounts.antt =====
-- PublishPage.jsx, DiscountEditor.
use ion_insurance_testapp.Prelude.{
  ℕ, zero, suc, String, Bool, false, not, ◌&&◌, ◌≡◌, refl, List, [], ◌∷◌, ◌++◌, map, none, some,
  str_eq, if◌then◌else◌, any, modify, erase_idx, get_elem?,
}
use ion_insurance_testapp.Js.{is_empty}
use ion_insurance_testapp.Publish.Items.{text, Discount}

-- `NCD_PRESET_TYPES`: value and short label.
abbrev pub ncd_preset_types : List (String × String)
ncd_preset_types =
    ("NCD_1_YEAR", "1 yr")
    ∷ ("NCD_2_YEAR", "2 yr")
    ∷ ("NCD_3_YEAR", "3 yr")
    ∷ ("NCD_4_YEAR", "4 yr")
    ∷ ("NCD_5_YEAR_PLUS", "5+ yr")
    ∷ ("LOYALTY_1_YEAR", "1 yr loyal")
    ∷ ("LOYALTY_2_YEAR", "2 yr loyal")
    ∷ ("OTHER", "custom")
    ∷ []

-- What the drop-down shows for a stored type.
unfoldable pub select_value : String → String
select_value type =
    if any (λ (t : String × String). str_eq t.0 type && not (str_eq t.0 "OTHER")) ncd_preset_types
    then type
    else if is_empty type
    then ""
    else "OTHER"

-- The text input for a type of one's own stands only under the choice OTHER.
unfoldable pub custom_shown : Discount → Bool
custom_shown d = str_eq (select_value d.type) "OTHER"

-- The values of the drop-down's options.
abbrev pub option_values : List String
option_values = "" ∷ map (λ (t : String × String). t.0) ncd_preset_types

pub data DiscountInput : Type 0 where
  choose : ℕ → DiscountInput
  custom : String → DiscountInput
  percent : String → DiscountInput

-- The option at `i` is chosen, or a text is typed where there is an input for it.
unfoldable pub change_discount : DiscountInput → Discount → Discount
unfolding custom_shown select_value
change_discount (choose i) d = elim (get_elem? option_values i) [
  | none ↦ d
  | some v ↦ record d { type = if str_eq v "OTHER" then "" else v }
]
change_discount (custom v) d = if custom_shown d then record d { type = v } else d
change_discount (percent v) d = record d { discount_percent = text v }

abbrev pub blank_discount : Discount
blank_discount = record { type = ""; discount_percent = text "" }

pub data DiscountsInput : Type 0 where
  add : DiscountsInput
  update : ℕ → DiscountInput → DiscountsInput
  drop : ℕ → DiscountsInput

unfoldable pub change_discounts : DiscountsInput → List Discount → List Discount
unfolding change_discount
change_discounts add items = items ++ blank_discount ∷ []
change_discounts (update i input) items = modify items i (change_discount input)
change_discounts (drop i) items = erase_idx items i

change_discount_hidden :
    (i : DiscountInput) (d : Discount)
    → custom_shown d ≡ false
    → custom_shown (change_discount i d) ≡ false
unfolding custom_shown change_discount select_value
change_discount_hidden (choose zero) d h = refl
change_discount_hidden (choose (suc zero)) d h = refl
change_discount_hidden (choose (suc (suc zero))) d h = refl
change_discount_hidden (choose (suc (suc (suc zero)))) d h = refl
change_discount_hidden (choose (suc (suc (suc (suc zero))))) d h = refl
change_discount_hidden (choose (suc (suc (suc (suc (suc zero)))))) d h = refl
change_discount_hidden (choose (suc (suc (suc (suc (suc (suc zero))))))) d h = refl
change_discount_hidden (choose (suc (suc (suc (suc (suc (suc (suc zero)))))))) d h = refl
change_discount_hidden (choose (suc (suc (suc (suc (suc (suc (suc (suc zero))))))))) d h = refl
change_discount_hidden (choose (suc (suc (suc (suc (suc (suc (suc (suc (suc i)))))))))) d h = h
change_discount_hidden (custom v) d h = rw h h
change_discount_hidden (percent v) d h = h

-- The inputs of one discount, in the order in which they come.
abbrev pub change_all : List DiscountInput → Discount → Discount
change_all [] d = d
change_all (i ∷ is) d = change_all is (change_discount i d)

-- A discount that starts blank never shows the input for a custom type, whatever is chosen or
-- typed: choosing OTHER stores the empty type, which the drop-down shows as nothing chosen.
pub custom_unreachable :
    (is : List DiscountInput) (d : Discount)
    → custom_shown d ≡ false
    → custom_shown (change_all is d) ≡ false
custom_unreachable [] d h = h
custom_unreachable (i ∷ is) d h = custom_unreachable is _ (change_discount_hidden i d h)
