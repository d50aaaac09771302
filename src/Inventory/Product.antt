-- ===== src/Inventory/Product.antt =====
-- ProductCard of InventoryPage.jsx.
use ion_insurance_testapp.Prelude.{ℕ, Bool, ◌||◌, [], ◌∷◌, Option, none, some, if◌then◌else◌, ◌>>=◌}
use ion_insurance_testapp.Js.{
  Value, str, arr, nil, get, is_nullish, ◌or◌, ◌else_use◌, empty_object, concat, to_text,
}
use ion_insurance_testapp.Cards.{Slot, slot}
use ion_insurance_testapp.Cards.Sections.{Sections, sections}

pub record ProductCard : Type 0 where
  pub name : Value
  pub short_desc : Slot
  pub product_type : Value
  pub vehicle_type : Value
  pub tariff_zone : Slot
  -- the smallest and the greatest rate
  pub rate : Option (Value × Value)
  pub deductible : Slot
  pub ojk_code : Slot
  pub ojk_license : Slot
  pub sections : Sections

-- `number v` is `Number(v)`, counted in its last decimal.
module _ (number : Value → ℕ) where
  unfoldable pub product_card : (expanded : Bool) (product : Value) → Option ProductCard
  product_card expanded product =
      let ra = get product "resource_attributes" or empty_object in
      let rate_min = get (get ra "premiumRateRange") "min" else_use get ra "premium_rate_min" in
      let rate_max = get (get ra "premiumRateRange") "max" else_use get ra "premium_rate_max" in
      let card : Sections → ProductCard = λ below. record {
        name =
            get (get ra "descriptor") "name"
            or get product "product_type"
            or get product "productType"
            or str (concat ("Product #" ∷ to_text (get product "id") ∷ []));
        short_desc =
            slot (get (get ra "descriptor") "shortDesc" or get (get ra "descriptor") "short_desc");
        product_type =
            get product "product_type" or get product "productType" or get ra "productType";
        vehicle_type =
            get product "vehicle_type" or get product "vehicleType" or get ra "vehicleType";
        tariff_zone = slot (get ra "tariffZone" or get ra "tariff_zone");
        rate =
            if is_nullish rate_min || is_nullish rate_max then none else some (rate_min, rate_max);
        deductible = slot (get ra "deductibleAmount" or get ra "deductible_amount");
        ojk_code = slot (
            get product "ojk_product_code"
            or get product "ojkProductCode"
            or get ra "ojkProductCode");
        ojk_license = slot (get ra "ojkLicenseNumber" or get ra "ojk_license_number");
        sections = below;
      } in
      if is_nullish product
      then none
      else sections number expanded
          (get ra "coverageInclusions" or get ra "coverage_inclusions" or arr nil)
          (get ra "standardExclusions" or get ra "standard_exclusions" or arr nil)
          (get ra "addOnOptions" or get ra "add_on_options" or arr nil)
          (get ra "discounts" or arr nil)
        >>= λ below. some (card below)
