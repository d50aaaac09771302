-- ===== src/Search/Card.antt =====
-- ProductCard.jsx of the buyer's app.
use ion_insurance_testapp.Prelude.{ℕ, Bool, String, Option, none, some, if◌then◌else◌, ◌>>=◌, ltb}
use ion_insurance_testapp.Js.{Value, num, str, arr, nil, get, ◌or◌, ◌else_use◌}
use ion_insurance_testapp.Cards.{Slot, slot}
use ion_insurance_testapp.Cards.Sections.{Sections, sections}

pub record Card : Type 0 where
  pub insurer : Slot
  pub name : Value
  pub short_desc : Slot
  pub product_type : Slot
  pub vehicle_type : Slot
  pub tariff_zone : Slot
  -- the smallest and the greatest rate
  pub rate : Option (Value × Value)
  pub deductible : Slot
  pub ojk_code : Slot
  pub ojk_license : Slot
  pub sections : Sections

-- `number v` is `Number(v)`, counted in its last decimal, and 0 where that is negative or NaN.
module _ (number : Value → ℕ) where
  -- `(rateMin || rateMax) > 0`
  abbrev pub rate_shown : (rate_min rate_max : Value) → Option (Value × Value)
  rate_shown rate_min rate_max =
      if ltb 0 (number (rate_min or rate_max)) then some (rate_min, rate_max) else none

  unfoldable pub card : (expanded : Bool) (product : Value) → Option Card
  card expanded product =
      let ra = get product "resourceAttributes" or product in
      let bound = λ (minmax snake : String).
        get (get product "premiumRateRange") minmax
        else_use get product snake
        else_use get (get ra "premiumRateRange") minmax
        else_use num 0 in
      let either = λ (camel snake : String).
        get product camel or get product snake or get ra camel or str "" in
      let own = λ (key : String). get product key or get ra key in
      sections number expanded (own "coverageInclusions" or arr nil)
        (own "standardExclusions" or arr nil) (own "addOnOptions" or arr nil)
        (own "discounts" or arr nil)
      >>= λ below. some (record {
        insurer = slot (get product "insurer_name" or get product "insurerName" or str "");
        name =
            get (get product "descriptor") "name"
            or get (get ra "descriptor") "name"
            or get product "insurer_name"
            or str "Insurance Product";
        short_desc =
            slot
              (get (get product "descriptor") "shortDesc" or get (get ra "descriptor") "shortDesc");
        product_type = slot (either "productType" "product_type");
        vehicle_type = slot (either "vehicleType" "vehicle_type");
        tariff_zone = slot (either "tariffZone" "tariff_zone");
        rate = rate_shown (bound "min" "premium_rate_min") (bound "max" "premium_rate_max");
        deductible = slot (own "deductibleAmount");
        ojk_code = slot (own "ojkProductCode");
        ojk_license = slot (own "ojkLicenseNumber");
        sections = below;
      })
