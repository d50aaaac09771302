-- ===== src/Market/Backend.antt =====
-- The part of the insurer's back end through which a resource passes on its way to the buyer:
-- internal/service/beckn.go, buildOnSearchResponse, and internal/service/catalog.go, ListResources.
-- A rate is counted in hundredths, the last decimal of its column, and is not negative.
use ion_insurance_testapp.Prelude.{ℕ, String, List, [], ◌∷◌, Bool, true, not, if◌then◌else◌, ltb}
use ion_insurance_testapp.Js.{
  Value, num, str, arr, obj, Items, nil, item, Fields, end, field, is_empty, show_ℕ,
}
use ion_insurance_testapp.Publish.Nested.{put}

-- A row of the table of resources, with the columns of its offer where there is one: otherwise
-- these are "", 0 and 0.
pub record ResourceRow : Type 0 where
  pub id : ℕ
  pub bpp_id : String
  pub product_type : String
  pub vehicle_type : String
  pub ojk_product_code : String
  pub resource_attributes : Fields
  pub tariff_zone : String
  pub premium_rate_min : ℕ
  pub premium_rate_max : ℕ

-- An assignment `attrs[key] = value`, under an `if` or not.
pub record Write : Type 0 where
  pub key : String
  pub value : Value
  pub guard : Bool

abbrev pub write_all : List Write → Fields → Fields
write_all [] fs = fs
write_all (w ∷ ws) fs = write_all ws (if w.guard then put w.key w.value fs else fs)

abbrev write : String → Value → Write
write key v = record { key = key; value = v; guard = true }

abbrev write_if : Bool → String → Value → Write
write_if b key v = record { key = key; value = v; guard = b }

-- The assignments of the loop, in their order.
unfoldable pub stamps : ResourceRow → List Write
stamps r =
    write "@context" (
      str
        "https://raw.githubusercontent.com/remiges-Tushar/ion-specs/refs/heads/feat/FIN-03-motor-insurance-schema/schema/extensions/finance/insurance-resource/v1/context.jsonld")
    ∷ write "@type" (str "InsuranceProduct")
    ∷ write "productType" (str r.product_type)
    ∷ write "vehicleType" (str r.vehicle_type)
    ∷ write "ojkProductCode" (str r.ojk_product_code)
    ∷ write_if (not (is_empty r.tariff_zone)) "tariffZone" (str r.tariff_zone)
    ∷ write_if (ltb 0 r.premium_rate_min) "premiumRateMin" (num r.premium_rate_min)
    ∷ write_if (ltb 0 r.premium_rate_max) "premiumRateMax" (num r.premium_rate_max)
    ∷ []

-- The stored attributes with the fields that the loop stamps on them.
unfoldable pub stamped : ResourceRow → Fields
unfolding stamps put
stamped r = write_all (stamps r) r.resource_attributes

unfoldable pub item_of : ResourceRow → Value
item_of r = obj (
    field "id" (str (show_ℕ r.id)) (
      field "descriptor" (obj (field "name" (str r.ojk_product_code) end))
        (field "resourceAttributes" (obj (stamped r)) end)))

abbrev pub items : List ResourceRow → Items
items [] = nil
items (r ∷ rs) = item (item_of r) (items rs)

-- The insurer's one catalog.
unfoldable pub catalog_of : (bpp_id : String) (resources : Value) → Value
catalog_of bpp_id resources =
    let name = obj (field "name" (str bpp_id) end) in
    obj (
      field "id" (str bpp_id) (
        field "descriptor" name (
          field "provider" (obj (field "id" (str bpp_id) (field "descriptor" name end)))
            (field "resources" resources end))))

-- The answer to a search.
unfoldable pub build_on_search_response :
    (context : Value) (bpp_id : String) → List ResourceRow → Value
unfolding catalog_of
build_on_search_response context bpp_id rows = obj (
    field "context" context (
      field "message"
        (obj (field "catalogs" (arr (item (catalog_of bpp_id (arr (items rows))) nil)) end)) end))

-- A row as the insurer's own list of resources has it. That list reads no offers.
unfoldable pub listed : (created_at : Value) → ResourceRow → Value
listed created_at r = obj (
    field "id" (num r.id) (
      field "bpp_id" (str r.bpp_id) (
        field "product_type" (str r.product_type) (
          field "vehicle_type" (str r.vehicle_type) (
            field "ojk_product_code" (str r.ojk_product_code) (
              field "resource_attributes" (obj r.resource_attributes) (
                field "created_at" created_at (
                  field "tariff_zone" (str "") (
                    field "premium_rate_min" (num 0) (field "premium_rate_max" (num 0) end))))))))))
