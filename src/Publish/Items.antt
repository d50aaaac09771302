-- ===== src/Publish/Items.antt =====
-- PublishPage.jsx: the objects that the wizard edits, with their blank factories and constants.
-- An input that holds a number at first and a text once it is edited is a `Scalar`.
use ion_insurance_testapp.Prelude.{
  ℕ, String, List, [], ◌∷◌, Option, none, some, str_eq, if◌then◌else◌,
}

-- A decimal literal: `decimal m s` is m / 10^s.
pub data Scalar : Type 0 where
  text : String → Scalar
  decimal : ℕ → ℕ → Scalar

pub record Descriptor : Type 0 where
  pub name : String
  pub short_desc : String
  pub long_desc : String

pub record ProviderAttributes : Type 0 where
  pub ojk_license_number : String
  pub ojk_license_type : String
  pub company_registration_number : String
  pub nib_number : String
  pub ojk_iknb_license : String
  pub claims_ratio_percent : Scalar
  pub solvency_margin_percent : Scalar

pub record Address : Type 0 where
  pub door : String
  pub building : String
  pub street : String
  pub city : String
  pub state : String
  pub country : String
  pub area_code : String

pub record Location : Type 0 where
  pub id : String
  pub name : String
  pub address : Address
  pub gps : String

pub record Provider : Type 0 where
  pub id : String
  pub descriptor : Descriptor
  pub provider_attributes : ProviderAttributes
  pub available_at : List Location

pub record Catalog : Type 0 where
  pub id : String
  pub name : String
  pub version : String
  pub provider_id : String

pub record Category : Type 0 where
  pub id : String
  pub name : String

pub record AddOn : Type 0 where
  pub code : String
  pub name : String
  pub additional_premium_rate : Scalar

pub record Discount : Type 0 where
  pub type : String
  pub discount_percent : Scalar

pub record RateRange : Type 0 where
  pub min : Scalar
  pub max : Scalar

pub record ResourceAttributes : Type 0 where
  pub product_type : String
  pub vehicle_type : String
  pub tariff_zone : String
  pub premium_rate_range : RateRange
  pub ojk_product_code : String
  pub ojk_license_number : String
  pub coverage_inclusions : List String
  pub standard_exclusions : List String
  pub deductible_amount : Scalar
  pub add_on_options : List AddOn
  pub discounts : List Discount

pub record Resource : Type 0 where
  pub id : String
  pub descriptor : Descriptor
  pub category : Category
  pub provider_id : String
  pub resource_attributes : ResourceAttributes

pub record OfferAttributes : Type 0 where
  pub inclusions : List String
  pub special_exclusions : List String
  pub required_documents : List String
  pub claim_policy : String
  pub cancellation_policy : String
  pub renewal_policy : String
  pub endorsement_policy : String
  pub grievance_sla_policy : String

pub record Offer : Type 0 where
  pub id : String
  pub resource_ids : List String
  pub offer_attributes : OfferAttributes

abbrev rate_range : ℕ → ℕ → RateRange
rate_range lo hi = record { min = decimal lo 2; max = decimal hi 2 }

-- `OJK_RATES[zone]`
unfoldable pub ojk_rates : String → Option RateRange
ojk_rates zone =
    if str_eq zone "ZONE_1"
    then some (rate_range 382 420)
    else if str_eq zone "ZONE_2"
    then some (rate_range 326 359)
    else if str_eq zone "ZONE_3"
    then some (rate_range 253 308)
    else if str_eq zone "ZONE_4"
    then some (rate_range 208 229)
    else if str_eq zone "ZONE_5"
    then some (rate_range 154 169)
    else none

abbrev pub coverage_inclusion_codes : List String
coverage_inclusion_codes =
    "PARTIAL_LOSS" ∷ "TOTAL_LOSS" ∷ "THEFT" ∷ "FIRE" ∷ "THIRD_PARTY_LIABILITY" ∷ "NATURAL_DISASTER"
    ∷ "ROADSIDE_ASSISTANCE" ∷ "PERSONAL_ACCIDENT_DRIVER" ∷ "PERSONAL_ACCIDENT_PASSENGER" ∷ []

abbrev pub standard_exclusion_codes : List String
standard_exclusion_codes =
    "OVERLOADING" ∷ "MECHANICAL_BREAKDOWN" ∷ "DUI" ∷ "INTENTIONAL_DAMAGE" ∷ "TIRE_ONLY" ∷ "RACING"
    ∷ "WAR_TERRORISM" ∷ "NUCLEAR" ∷ []

abbrev blank_descriptor : Descriptor
blank_descriptor = record { name = ""; short_desc = ""; long_desc = "" }

unfoldable pub blank_provider : Provider
blank_provider = record {
  id = "";
  descriptor = blank_descriptor;
  provider_attributes = record {
    ojk_license_number = "";
    ojk_license_type = "ASURANSI_UMUM";
    company_registration_number = "";
    nib_number = "";
    ojk_iknb_license = "";
    claims_ratio_percent = text "";
    solvency_margin_percent = text "";
  };
  available_at = [];
}

unfoldable pub blank_location : Location
blank_location = record {
  id = "";
  name = "";
  address = record {
    door = "";
    building = "";
    street = "";
    city = "";
    state = "";
    country = "IDN";
    area_code = "";
  };
  gps = "";
}

unfoldable pub blank_catalog : Catalog
blank_catalog = record { id = ""; name = ""; version = "1.0.0"; provider_id = "" }

unfoldable pub blank_resource : String → Resource
blank_resource ojk_license = record {
  id = "";
  descriptor = blank_descriptor;
  category = record { id = ""; name = "" };
  provider_id = "";
  resource_attributes = record {
    product_type = "MOTOR_COMPREHENSIVE";
    vehicle_type = "FOUR_WHEELER";
    tariff_zone = "ZONE_3";
    premium_rate_range = rate_range 253 308;
    ojk_product_code = "";
    ojk_license_number = ojk_license;
    coverage_inclusions = [];
    standard_exclusions = [];
    deductible_amount = text "";
    add_on_options = [];
    discounts = [];
  };
}

unfoldable pub blank_offer : Offer
blank_offer = record {
  id = "";
  resource_ids = [];
  offer_attributes = record {
    inclusions = [];
    special_exclusions = [];
    required_documents = [];
    claim_policy = "";
    cancellation_policy = "";
    renewal_policy = "";
    endorsement_policy = "";
    grievance_sla_policy = "";
  };
}
