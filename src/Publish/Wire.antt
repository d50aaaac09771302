-- ===== src/Publish/Wire.antt =====
-- PublishPage.jsx, `handlePublish`: the body of the request that saves a resource, as JSON.
use ion_insurance_testapp.Prelude.{ℕ, List, [], ◌∷◌, Option, none, some}
use ion_insurance_testapp.Js.{Value, str, arr, obj, Items, nil, item, Fields, end, field}
use ion_insurance_testapp.Publish.Items.{
  Scalar, text, decimal, Descriptor, ProviderAttributes, Category, AddOn, Discount, RateRange,
  ResourceAttributes,
}
use ion_insurance_testapp.Publish.Submit.{Owner}

-- The elements of `xs.map(f)`.
abbrev pub items_of {ℓ} : {A : Type ℓ} → (A → Value) → List A → Items
items_of f [] = nil
items_of f (x ∷ xs) = item (f x) (items_of f xs)

-- `decimal_value m s` is the number m / 10^s.
module _ (decimal_value : ℕ → ℕ → Value) where
  abbrev pub scalar_value : Scalar → Value
  scalar_value (text t) = str t
  scalar_value (decimal m s) = decimal_value m s

  abbrev pub descriptor_value : Descriptor → Value
  descriptor_value d = obj (
      field "name" (str d.name)
        (field "shortDesc" (str d.short_desc) (field "longDesc" (str d.long_desc) end)))

  abbrev category_value : Category → Value
  category_value c =
      obj (field "id" (str c.id) (field "descriptor" (obj (field "name" (str c.name) end)) end))

  abbrev pub add_on_value : AddOn → Value
  add_on_value a = obj (
      field "code" (str a.code) (
        field "name" (str a.name)
          (field "additionalPremiumRate" (scalar_value a.additional_premium_rate) end)))

  abbrev pub discount_value : Discount → Value
  discount_value d =
      obj
        (field "type" (str d.type) (field "discountPercent" (scalar_value d.discount_percent) end))

  abbrev pub rate_range_value : RateRange → Value
  rate_range_value r = obj (field "min" (scalar_value r.min) (field "max" (scalar_value r.max) end))

  abbrev provider_attributes_value : ProviderAttributes → Value
  provider_attributes_value a = obj (
      field "ojkLicenseNumber" (str a.ojk_license_number) (
        field "ojkLicenseType" (str a.ojk_license_type) (
          field "companyRegistrationNumber" (str a.company_registration_number) (
            field "nibNumber" (str a.nib_number) (
              field "ojkIknbLicense" (str a.ojk_iknb_license) (
                field "claimsRatioPercent" (scalar_value a.claims_ratio_percent)
                  (field "solvencyMarginPercent" (scalar_value a.solvency_margin_percent) end)))))))

  -- JSON leaves out a field that is undefined.
  abbrev pub owner_field : Option Owner → Fields
  owner_field none = end
  owner_field (some o) =
      field "provider"
        (obj (
          field "id" (str o.id) (
            field "descriptor" (descriptor_value o.descriptor)
              (field "providerAttributes" (provider_attributes_value o.provider_attributes) end))))
        end

  -- `resource_attributes` of the body.
  unfoldable pub resource_attributes_body :
      ResourceAttributes → Descriptor → Category → Option Owner → Fields
  resource_attributes_body a d c owner =
      field "@context" (str "https://schema.ion.id/finance/insurance-resource/v1/context.jsonld") (
        field "@type" (str "ion:InsuranceProduct") (
          field "productType" (str a.product_type) (
            field "vehicleType" (str a.vehicle_type) (
              field "tariffZone" (str a.tariff_zone) (
                field "premiumRateRange" (rate_range_value a.premium_rate_range) (
                  field "ojkProductCode" (str a.ojk_product_code) (
                    field "ojkLicenseNumber" (str a.ojk_license_number) (
                      field "coverageInclusions" (arr (items_of str a.coverage_inclusions)) (
                        field "standardExclusions" (arr (items_of str a.standard_exclusions)) (
                          field "deductibleAmount" (scalar_value a.deductible_amount) (
                            field "addOnOptions" (arr (items_of add_on_value a.add_on_options)) (
                              field "discounts" (arr (items_of discount_value a.discounts)) (
                                field "descriptor" (descriptor_value d) (
                                  field "category" (category_value c)
                                    (owner_field owner)))))))))))))))
