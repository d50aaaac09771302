-- ===== src/Market/Saved.antt =====
-- What HeroPage.jsx finds of the resources that the wizard has saved: the rows of the insurer's back
-- end, the products made of them, and their cards in the order chosen.
use ion_insurance_testapp.Prelude.{
  ℕ, String, false, Option, none, some, if◌then◌else◌, ltb, ◌≡◌, refl, ◌∙◌, arith, Bool-cases, inl,
  inr, str_eq,
}
use ion_insurance_testapp.Js.{Value, undefined, str, num, obj, get, is_empty, or_text}
use ion_insurance_testapp.Search.Discover.{product_of}
use ion_insurance_testapp.Search.Quote.{names}
use ion_insurance_testapp.Search.{rate_min}
use ion_insurance_testapp.Publish.Items.{Resource}
use ion_insurance_testapp.Publish.Submit.{Owner}
use ion_insurance_testapp.Publish.Wire.{resource_attributes_body, owner_field}
use ion_insurance_testapp.Market.Backend.{ResourceRow, item_of, stamps}
use ion_insurance_testapp.Market.Reads.{written, get-product, get-product_descriptor}
use ion_insurance_testapp.Market.Found.{ReadsAs}

-- The columns of an offer: its zone and its two rates, or "", 0 and 0 where there is none.
pub record OfferColumns : Type 0 where
  pub zone : String
  pub rate_min : ℕ
  pub rate_max : ℕ

pub owner_field-absent :
    (decimal_value : ℕ → ℕ → Value) (owner : Option Owner) (key : String)
    → str_eq "provider" key ≡ false
    → get (obj (owner_field decimal_value owner)) key ≡ undefined
owner_field-absent decimal_value none key h = refl
owner_field-absent decimal_value (some o) key h = rw h refl

rate_min_lem :
    (p : Value) (n : ℕ)
    → get p "premiumRateMin" ≡ (if ltb 0 n then num n else undefined)
    → get p "premium_rate_min" ≡ undefined
    → rate_min p ≡ n
rate_min_lem p n h k = elim (Bool-cases (ltb 0 n)) [
  | inl e ↦ rw (h, e) refl
  | inr e ↦ rw (h, e, k) (ground arith)
]

module _ (decimal_value : ℕ → ℕ → Value) where
  -- The row that the back end stores for the wizard's request, with the columns of an offer.
  unfoldable pub saved_row :
      (id : ℕ) (bpp_id : String) → Resource → Option Owner → OfferColumns → ResourceRow
  saved_row id bpp_id r owner o =
      let a = r.resource_attributes in
      record {
        id = id;
        bpp_id = bpp_id;
        product_type = a.product_type;
        vehicle_type = a.vehicle_type;
        ojk_product_code = a.ojk_product_code;
        resource_attributes =
            resource_attributes_body decimal_value a r.descriptor r.category owner;
        tariff_zone = o.zone;
        premium_rate_min = o.rate_min;
        premium_rate_max = o.rate_max;
      }

  module _ (id : ℕ) (bpp_id : String) (r : Resource) (owner : Option Owner) (o : OfferColumns)
      (insurer : String) (bpp : Value) where
    abbrev pub row : ResourceRow
    row = saved_row id bpp_id r owner o

    abbrev pub product : Value
    product = product_of (str insurer) bpp (item_of row)

    pub get-row :
        (key : String)
        → str_eq "bpp_id" key ≡ false
        → str_eq "insurer_name" key ≡ false
        → get (obj (names (item_of row))) key ≡ undefined
        → get product key ≡ written key (stamps row) (get (obj row.resource_attributes) key)
    get-row = get-product (str insurer) bpp row

    pub tariff_zone_or :
        written "tariffZone" (stamps row) (str r.resource_attributes.tariff_zone)
        ≡ str (or_text o.zone r.resource_attributes.tariff_zone)
    unfolding stamps saved_row
    tariff_zone_or = elim (Bool-cases (is_empty o.zone)) [ inl e ↦ rw e refl | inr e ↦ rw e refl ]

    pub product-ReadsAs :
        ReadsAs decimal_value product insurer (or_text o.zone r.resource_attributes.tariff_zone) r
    unfolding item_of saved_row stamps resource_attributes_body product_of
    product-ReadsAs = record {
      attributes =
          get-row "resourceAttributes" refl refl refl
          ∙ owner_field-absent decimal_value owner "resourceAttributes" refl;
      insurer_name = refl;
      descriptor = get-product_descriptor (str insurer) bpp row _ refl;
      range = get-row "premiumRateRange" refl refl refl;
      product_type = get-row "productType" refl refl refl;
      product_type' =
          get-row "product_type" refl refl refl
          ∙ owner_field-absent decimal_value owner "product_type" refl;
      vehicle_type = get-row "vehicleType" refl refl refl;
      vehicle_type' =
          get-row "vehicle_type" refl refl refl
          ∙ owner_field-absent decimal_value owner "vehicle_type" refl;
      tariff_zone = get-row "tariffZone" refl refl refl ∙ tariff_zone_or;
      tariff_zone' =
          get-row "tariff_zone" refl refl refl
          ∙ owner_field-absent decimal_value owner "tariff_zone" refl;
      inclusions = get-row "coverageInclusions" refl refl refl;
      exclusions = get-row "standardExclusions" refl refl refl;
      add_ons = get-row "addOnOptions" refl refl refl;
      discounts = get-row "discounts" refl refl refl;
      deductible = get-row "deductibleAmount" refl refl refl;
      ojk_code = get-row "ojkProductCode" refl refl refl;
      ojk_license = get-row "ojkLicenseNumber" refl refl refl;
    }

    -- The two rates that an order and a card may read: the first is the offer's.
    pub get-product_rate_min :
        get product "premiumRateMin" ≡ (if ltb 0 o.rate_min then num o.rate_min else undefined)
    unfolding item_of saved_row stamps resource_attributes_body product_of
    get-product_rate_min =
        get-row "premiumRateMin" refl refl refl ∙ elim (Bool-cases (ltb 0 o.rate_min)) [
          | inl e ↦ rw e refl
          | inr e ↦ rw e (owner_field-absent decimal_value owner "premiumRateMin" refl)
        ]

    pub rate_min-product : rate_min product ≡ o.rate_min
    unfolding item_of saved_row stamps resource_attributes_body product_of
    rate_min-product = rate_min_lem product o.rate_min get-product_rate_min (
        get-row "premium_rate_min" refl refl refl
        ∙ owner_field-absent decimal_value owner "premium_rate_min" refl)
