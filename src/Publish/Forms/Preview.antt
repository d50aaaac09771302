-- ===== src/Publish/Forms/Preview.antt =====
-- The preview in DiscountEditor of PublishPage.jsx. `Number` of a percentage is a parameter, counted
-- in its last decimal.
use ion_insurance_testapp.Prelude.{
  ℕ, String, Bool, false, not, ◌&&◌, List, Option, none, some, str_eq, if◌then◌else◌, find, keep,
  leb, length, map,
}
use ion_insurance_testapp.Js.{codes, is_empty}
use ion_insurance_testapp.Js.Sort.{sort_by, rising}
use ion_insurance_testapp.Cards.Labels.{spaced, to_lower_case}
use ion_insurance_testapp.Publish.Items.{Discount, Scalar, text}
use ion_insurance_testapp.Publish.Forms.Discounts.{ncd_preset_types}

abbrev is_blank : Scalar → Bool
is_blank (text s) = is_empty s
is_blank _ = false

-- The label of a level, by code points. The case of letters is that of ASCII.
unfoldable pub short_label : String → List ℕ
short_label type = elim (find (λ (t : String × String). str_eq t.0 type) ncd_preset_types) [
  | some preset ↦ codes preset.1
  | none ↦ map to_lower_case (spaced (codes type))
]

module _ (to_number : Scalar → ℕ) where
  unfoldable pub filled : List Discount → List Discount
  filled items =
      sort_by (rising (λ (d : Discount). to_number d.discount_percent))
        (keep (λ (d : Discount). not (is_empty d.type) && not (is_blank d.discount_percent)) items)

  -- Shown once two levels have values.
  unfoldable pub preview : List Discount → Option (List (Scalar × List ℕ))
  unfolding filled short_label
  preview items =
      if leb 2 (length (filled items))
      then some (map (λ (d : Discount). (d.discount_percent, short_label d.type)) (filled items))
      else none
