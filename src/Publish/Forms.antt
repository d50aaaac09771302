-- ===== src/Publish/Forms.antt =====
-- PublishPage.jsx: the inputs of the forms, each with the change that it makes to the draft. A
-- number input hands over its text.
pub mod Lists
pub mod Discounts
pub mod Preview
use ion_insurance_testapp.Prelude.{
  ℕ, String, List, [], ◌∷◌, ◌++◌, Option, none, some, modify, erase_idx,
}
use ion_insurance_testapp.Publish.Items.{
  text, Descriptor, Location, Address, Provider, Resource, RateRange, ojk_rates, blank_location,
}
use ion_insurance_testapp.Publish.Forms.Lists.{toggle, AddOnsInput, change_add_ons}
use ion_insurance_testapp.Publish.Forms.Discounts.{DiscountsInput, change_discounts}

pub data DescriptorInput : Type 0 where
  name : String → DescriptorInput
  short_desc : String → DescriptorInput
  long_desc : String → DescriptorInput

unfoldable pub change_descriptor : DescriptorInput → Descriptor → Descriptor
change_descriptor (name v) d = record d { name = v }
change_descriptor (short_desc v) d = record d { short_desc = v }
change_descriptor (long_desc v) d = record d { long_desc = v }

-- The inputs of an office location (`setLoc`).
pub data LocationInput : Type 0 where
  id : String → LocationInput
  loc_name : String → LocationInput
  door : String → LocationInput
  building : String → LocationInput
  street : String → LocationInput
  city : String → LocationInput
  province : String → LocationInput
  area_code : String → LocationInput
  gps : String → LocationInput

abbrev change_address : LocationInput → Address → Address
change_address (door v) a = record a { door = v }
change_address (building v) a = record a { building = v }
change_address (street v) a = record a { street = v }
change_address (city v) a = record a { city = v }
change_address (province v) a = record a { state = v }
change_address (area_code v) a = record a { area_code = v }
change_address _ a = a

unfoldable pub change_location : LocationInput → Location → Location
change_location (id v) l = record l { id = v }
change_location (loc_name v) l = record l { name = v }
change_location (gps v) l = record l { gps = v }
change_location i l = record l { address = change_address i l.address }

pub data ProviderInput : Type 0 where
  provider_id : String → ProviderInput
  provider_descriptor : DescriptorInput → ProviderInput
  license_number : String → ProviderInput
  license_type : String → ProviderInput
  registration_number : String → ProviderInput
  nib_number : String → ProviderInput
  iknb_license : String → ProviderInput
  claims_ratio : String → ProviderInput
  solvency_margin : String → ProviderInput
  add_location : ProviderInput
  remove_location : ℕ → ProviderInput
  set_loc : ℕ → LocationInput → ProviderInput

-- `ProviderFormFields`
unfoldable pub change_provider : ProviderInput → Provider → Provider
unfolding change_descriptor change_location
change_provider (provider_id v) p = record p { id = v }
change_provider (provider_descriptor i) p = record p {
  descriptor = change_descriptor i p.descriptor;
}
change_provider (license_number v) p =
    let a = p.provider_attributes in
    record p { provider_attributes = record a { ojk_license_number = v } }
change_provider (license_type v) p =
    let a = p.provider_attributes in
    record p { provider_attributes = record a { ojk_license_type = v } }
change_provider (registration_number v) p =
    let a = p.provider_attributes in
    record p { provider_attributes = record a { company_registration_number = v } }
change_provider (nib_number v) p =
    let a = p.provider_attributes in record p { provider_attributes = record a { nib_number = v } }
change_provider (iknb_license v) p =
    let a = p.provider_attributes in
    record p { provider_attributes = record a { ojk_iknb_license = v } }
change_provider (claims_ratio v) p =
    let a = p.provider_attributes in
    record p { provider_attributes = record a { claims_ratio_percent = text v } }
change_provider (solvency_margin v) p =
    let a = p.provider_attributes in
    record p { provider_attributes = record a { solvency_margin_percent = text v } }
change_provider add_location p = record p { available_at = p.available_at ++ blank_location ∷ [] }
change_provider (remove_location i) p = record p { available_at = erase_idx p.available_at i }
change_provider (set_loc i input) p = record p {
  available_at = modify p.available_at i (change_location input);
}

pub data ResourceInput : Type 0 where
  resource_id : String → ResourceInput
  resource_descriptor : DescriptorInput → ResourceInput
  category_id : String → ResourceInput
  category_name : String → ResourceInput
  product_type : String → ResourceInput
  vehicle_type : String → ResourceInput
  zone : String → ResourceInput
  deductible : String → ResourceInput
  rate_min : String → ResourceInput
  rate_max : String → ResourceInput
  ojk_code : String → ResourceInput
  ojk_license : String → ResourceInput
  inclusion : String → ResourceInput
  exclusion : String → ResourceInput
  add_ons : AddOnsInput → ResourceInput
  discounts : DiscountsInput → ResourceInput

-- `handleZone`: the zone, and with a known zone its range of rates.
unfoldable pub handle_zone : String → Resource → Resource
handle_zone z r =
    let a = r.resource_attributes in
    elim (ojk_rates z) [
      | none ↦ record r { resource_attributes = record a { tariff_zone = z } }
      | some range ↦ record r {
        resource_attributes = record a { tariff_zone = z; premium_rate_range = range };
      }
    ]

-- `ResourceFormFields`
unfoldable pub change_resource : ResourceInput → Resource → Resource
unfolding change_descriptor handle_zone
change_resource (resource_id v) r = record r { id = v }
change_resource (resource_descriptor i) r = record r {
  descriptor = change_descriptor i r.descriptor;
}
change_resource (category_id v) r =
    let c = r.category in record r { category = record c { id = v } }
change_resource (category_name v) r =
    let c = r.category in record r { category = record c { name = v } }
change_resource (product_type v) r =
    let a = r.resource_attributes in
    record r { resource_attributes = record a { product_type = v } }
change_resource (vehicle_type v) r =
    let a = r.resource_attributes in
    record r { resource_attributes = record a { vehicle_type = v } }
change_resource (zone v) r = handle_zone v r
change_resource (deductible v) r =
    let a = r.resource_attributes in
    record r { resource_attributes = record a { deductible_amount = text v } }
change_resource (rate_min v) r =
    let a = r.resource_attributes in
    let range : RateRange = record { min = text v; max = a.premium_rate_range.max } in
    record r { resource_attributes = record a { premium_rate_range = range } }
change_resource (rate_max v) r =
    let a = r.resource_attributes in
    let range : RateRange = record { min = a.premium_rate_range.min; max = text v } in
    record r { resource_attributes = record a { premium_rate_range = range } }
change_resource (ojk_code v) r =
    let a = r.resource_attributes in
    record r { resource_attributes = record a { ojk_product_code = v } }
change_resource (ojk_license v) r =
    let a = r.resource_attributes in
    record r { resource_attributes = record a { ojk_license_number = v } }
change_resource (inclusion v) r =
    let a = r.resource_attributes in
    record r {
      resource_attributes = record a { coverage_inclusions = toggle v a.coverage_inclusions };
    }
change_resource (exclusion v) r =
    let a = r.resource_attributes in
    record r {
      resource_attributes = record a { standard_exclusions = toggle v a.standard_exclusions };
    }
change_resource (add_ons i) r =
    let a = r.resource_attributes in
    record r {
      resource_attributes = record a { add_on_options = change_add_ons i a.add_on_options };
    }
change_resource (discounts i) r =
    let a = r.resource_attributes in
    record r { resource_attributes = record a { discounts = change_discounts i a.discounts } }
