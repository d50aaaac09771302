-- ===== src/Market/Found.antt =====
-- HeroPage.jsx and ProductCard.jsx on the answer of the insurer's back end to a search: what the
-- buyer sees of a resource that the wizard has saved.
use ion_insurance_testapp.Prelude.{
  ℕ, String, Bool, true, false, some, if◌then◌else◌, ◌≡◌, refl, not,
}
use ion_insurance_testapp.Js.{
  Value, undefined, str, arr, get, is_empty, or_text, ◌or◌, truthy, is_nullish,
}
use ion_insurance_testapp.Cards.{slot}
use ion_insurance_testapp.Search.Card.{Card, card, rate_shown}
use ion_insurance_testapp.Publish.Items.{Scalar, text, decimal, Resource}
use ion_insurance_testapp.Publish.Wire.{
  scalar_value, items_of, add_on_value, discount_value, descriptor_value, rate_range_value,
}
use ion_insurance_testapp.Market.Backend.{}
use ion_insurance_testapp.Market.Entered.{entered_sections, sections_lem}

either_way : (b : Bool) (v : Value) → (if b then v else v) ≡ v
either_way true v = refl
either_way false v = refl

asked_twice :
    (s : String)
    → (if not (is_empty s) then str s else (if not (is_empty s) then str s else str "")) ≡ str s
asked_twice String.[] = refl
asked_twice (String.◌∷◌ c s) = refl

name_or :
    (s t : String)
    → is_empty t ≡ false
    → (str s or str s or str t or str "Insurance Product") ≡ str (or_text s t)
name_or String.[] t h = rw h refl
name_or (String.◌∷◌ c s) t h = refl

module _ (decimal_value : ℕ → ℕ → Value) where
  -- The fields of a product that its card reads, when they are those of an entered resource.
  pub record ReadsAs (p : Value) (insurer zone : String) (r : Resource) : Type 0 where
    pub attributes : get p "resourceAttributes" ≡ undefined
    pub insurer_name : get p "insurer_name" ≡ str insurer
    pub descriptor : get p "descriptor" ≡ descriptor_value decimal_value r.descriptor
    pub range :
        get p "premiumRateRange"
        ≡ rate_range_value decimal_value r.resource_attributes.premium_rate_range
    pub product_type : get p "productType" ≡ str r.resource_attributes.product_type
    pub product_type' : get p "product_type" ≡ undefined
    pub vehicle_type : get p "vehicleType" ≡ str r.resource_attributes.vehicle_type
    pub vehicle_type' : get p "vehicle_type" ≡ undefined
    pub tariff_zone : get p "tariffZone" ≡ str zone
    pub tariff_zone' : get p "tariff_zone" ≡ undefined
    pub inclusions :
        get p "coverageInclusions" ≡ arr (items_of str r.resource_attributes.coverage_inclusions)
    pub exclusions :
        get p "standardExclusions" ≡ arr (items_of str r.resource_attributes.standard_exclusions)
    pub add_ons :
        get p "addOnOptions"
        ≡ arr (items_of (add_on_value decimal_value) r.resource_attributes.add_on_options)
    pub discounts :
        get p "discounts"
        ≡ arr (items_of (discount_value decimal_value) r.resource_attributes.discounts)
    pub deductible :
        get p "deductibleAmount"
        ≡ scalar_value decimal_value r.resource_attributes.deductible_amount
    pub ojk_code : get p "ojkProductCode" ≡ str r.resource_attributes.ojk_product_code
    pub ojk_license : get p "ojkLicenseNumber" ≡ str r.resource_attributes.ojk_license_number

  pub is_nullish-scalar_value :
      ((m s : ℕ) → is_nullish (decimal_value m s) ≡ false)
      → (x : Scalar) → is_nullish (scalar_value decimal_value x) ≡ false
  is_nullish-scalar_value h (text t) = refl
  is_nullish-scalar_value h (decimal m s) = h m s

module _ (decimal_value : ℕ → ℕ → Value) (number : Value → ℕ) where
  -- What the buyer's card shows of an entered resource and its offer.
  unfoldable pub entered_card : (expanded : Bool) (insurer zone : String) → Resource → Card
  entered_card expanded insurer zone r =
      let a = r.resource_attributes in
      record {
        insurer = slot (str insurer);
        name = str (or_text r.descriptor.name insurer);
        short_desc = slot (str r.descriptor.short_desc);
        product_type = slot (str a.product_type);
        vehicle_type = slot (str a.vehicle_type);
        tariff_zone = slot (str zone);
        rate =
            rate_shown number (scalar_value decimal_value a.premium_rate_range.min)
              (scalar_value decimal_value a.premium_rate_range.max);
        deductible = slot (scalar_value decimal_value a.deductible_amount);
        ojk_code = slot (str a.ojk_product_code);
        ojk_license = slot (str a.ojk_license_number);
        sections = entered_sections decimal_value number expanded a;
      }

  -- The card of such a product never throws, and shows what was entered.
  pub card_lem :
      (p : Value) (insurer zone : String) (r : Resource)
      (h : ReadsAs decimal_value p insurer zone r) (expanded : Bool)
      → is_empty insurer ≡ false
      → ((m s : ℕ) → is_nullish (decimal_value m s) ≡ false)
      → card number expanded p ≡ some (entered_card expanded insurer zone r)
  unfolding card entered_card
  card_lem p insurer zone r h expanded named numbers =
      let a = r.resource_attributes in
      rw
        (
          h.attributes,
          h.insurer_name,
          h.descriptor,
          h.range,
          h.product_type,
          h.product_type',
          h.vehicle_type,
          h.vehicle_type',
          h.tariff_zone,
          h.tariff_zone',
          h.inclusions,
          h.exclusions,
          h.add_ons,
          h.discounts,
          h.deductible,
          h.ojk_code,
          h.ojk_license,
          sections_lem decimal_value number expanded r.resource_attributes,
        )
        (rw
          (
            name_or r.descriptor.name insurer named,
            named,
            is_nullish-scalar_value decimal_value numbers a.premium_rate_range.min,
            is_nullish-scalar_value decimal_value numbers a.premium_rate_range.max,
            asked_twice a.product_type,
            asked_twice a.vehicle_type,
            asked_twice zone,
            either_way (truthy (scalar_value decimal_value a.deductible_amount))
                (scalar_value decimal_value a.deductible_amount),
            either_way (truthy (str r.descriptor.short_desc)) (str r.descriptor.short_desc),
            either_way (truthy (str a.ojk_product_code)) (str a.ojk_product_code),
            either_way (truthy (str a.ojk_license_number)) (str a.ojk_license_number),
          )
          refl)
