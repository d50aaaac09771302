-- ===== src/Search/Quote.antt =====
-- From a product found to the request for its quote: `handleGetQuote` opens the flow with the
-- product, whose form then sends it.
use ion_insurance_testapp.Prelude.{
  Bool, true, false, String, ◌≡◌, refl, sym, ap, ◌∙◌, str_eq, if◌then◌else◌, arith, Bool-cases, inl,
  inr,
}
use ion_insurance_testapp.Js.{
  fields_of, get-fields_of, Value, undefined, str, obj, Fields, end, field, get, to_text, ◌or◌,
}
use ion_insurance_testapp.Search.Discover.{spread, product_of}
use ion_insurance_testapp.Flow.Forms.{VehicleForm, select_body}
use ion_insurance_testapp.Flow.Page.{mount_page}

-- The state that `handleGetQuote` opens the flow's page with.
unfoldable pub handle_get_quote : Value → Value
handle_get_quote product = obj (field "selectedItem" product end)

-- Whether the object has the field.
abbrev pub has_field : String → Fields → Bool
has_field key end = false
has_field key (field k v fs) = let rest = has_field key fs in if str_eq k key then true else rest

pub get-spread_with :
    (key : String) (fs gs : Fields)
    → has_field key gs ≡ true
    → get (obj (spread fs gs)) key ≡ get (obj gs) key
get-spread_with key fs end h = ground arith
get-spread_with key fs (field k v gs) h = ground (arith, get-spread_with key fs gs)

pub get-spread_without :
    (key : String) (fs gs : Fields)
    → has_field key gs ≡ false
    → get (obj (spread fs gs)) key ≡ get (obj fs) key
get-spread_without key fs end h = refl
get-spread_without key fs (field k v gs) h = ground (arith, get-spread_without key fs gs)

pub get_without :
    (key : String) (gs : Fields) → has_field key gs ≡ false → get (obj gs) key ≡ undefined
get_without key end h = refl
get_without key (field k v gs) h = ground (arith, get_without key gs)

-- A field that the first object lacks is that of the second.
pub get-spread :
    (key : String) (fs gs : Fields)
    → get (obj fs) key ≡ undefined
    → get (obj (spread fs gs)) key ≡ get (obj gs) key
get-spread key fs gs h = elim (Bool-cases (has_field key gs)) [
  | inl own ↦ get-spread_with key fs gs own
  | inr not_own ↦ get-spread_without key fs gs not_own ∙ h ∙ sym (get_without key gs not_own)
]

abbrev pub names : Value → Fields
names resource = field "descriptor" (get resource "descriptor") (field "id" (get resource "id") end)

-- Of a resource found, when its attributes have no field `id`, the flow opens with a product whose
-- quote is requested under the resource's own id, product type and tariff zone; where these are
-- missing, under 1, comprehensive cover and zone 3.
pub select_body-handle_get_quote :
    (insurer_name bpp_id resource : Value) (form : VehicleForm) (url_txn : Value) (done : Bool)
    (this_year : String)
    → let attributes = get resource "resourceAttributes" in
      has_field "id" (fields_of attributes) ≡ false
      → let product = product_of insurer_name bpp_id resource in
        let page = mount_page url_txn done (handle_get_quote product) this_year in
        let body = select_body page.product form in
        (body.product_id ≡ to_text (get resource "id" or str "1"))
        × (body.product_type ≡ (
            get attributes "productType"
            or get attributes "product_type"
            or str "MOTOR_COMPREHENSIVE"))
        × (body.tariff_zone
            ≡ (get attributes "tariffZone" or get attributes "tariff_zone" or str "ZONE_3"))
unfolding product_of handle_get_quote mount_page select_body
select_body-handle_get_quote insurer_name bpp_id resource form url_txn done this_year h =
    let attributes = get resource "resourceAttributes" in
    let of = λ (key : String) (absent : get (obj (names resource)) key ≡ undefined).
      get-spread key (names resource) (fields_of attributes) absent
      ∙ get-fields_of attributes key in
    (
      ap (λ v. to_text (v or str "1"))
          (get-spread_without "id" (names resource) (fields_of attributes) h),
      rw (of "productType" refl, of "product_type" refl) refl,
      rw (of "tariffZone" refl, of "tariff_zone" refl) refl,
    )
