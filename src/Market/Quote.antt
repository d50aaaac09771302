-- ===== src/Market/Quote.antt =====
-- The quote that the buyer asks for a product found: HeroPage.jsx hands it to PolicyFlowPage.jsx.
use ion_insurance_testapp.Prelude.{
  ℕ, String, Bool, true, false, List, [], ◌∷◌, Option, none, some, ◌≡◌, refl, ◌∙◌, arith, str_eq,
  eq_iff, if◌then◌else◌, any,
}
use ion_insurance_testapp.Js.{
  Value, str, Fields, end, field, get, or_text, ◌or◌, show_ℕ, is_empty-show_ℕ, undefined,
}
use ion_insurance_testapp.Search.Quote.{has_field, handle_get_quote, get-spread_without, names}
use ion_insurance_testapp.Search.Discover.{product_of}
use ion_insurance_testapp.Flow.Forms.{VehicleForm, select_body}
use ion_insurance_testapp.Flow.Page.{mount_page}
use ion_insurance_testapp.Publish.Nested.{put}
use ion_insurance_testapp.Publish.Submit.{Owner}
use ion_insurance_testapp.Publish.Wire.{resource_attributes_body, owner_field}
use ion_insurance_testapp.Market.Backend.{ResourceRow, Write, write_all, stamps, stamped, item_of}
use ion_insurance_testapp.Market.Saved.{saved_row}
use ion_insurance_testapp.Market.Order.{Entry, row_of, product_found, found-ReadsAs}

has_field-put :
    (k key : String) (v : Value) (fs : Fields)
    → str_eq k key ≡ false
    → has_field key (put k v fs) ≡ has_field key fs
unfolding put
has_field-put k key v end h = ground arith
has_field-put k key v (field l w fs) h =
    ground (arith, has_field-put k key v fs h, eq_iff l k, eq_iff l key, eq_iff k key)

has_field-put_if :
    (b : Bool) (k key : String) (v : Value) (fs : Fields)
    → str_eq k key ≡ false
    → has_field key (if b then put k v fs else fs) ≡ has_field key fs
has_field-put_if true k key v fs h = has_field-put k key v fs h
has_field-put_if false k key v fs h = refl

has_field-write_all :
    (key : String) (ws : List Write) (fs : Fields)
    → any (λ (w : Write). str_eq w.key key) ws ≡ false
    → has_field key (write_all ws fs) ≡ has_field key fs
has_field-write_all key [] fs h = refl
has_field-write_all key (w ∷ ws) fs h =
    has_field-write_all key ws _ (ground (arith, h))
    ∙ has_field-put_if w.guard w.key key w.value fs (ground (arith, h))

str_or : (s t : String) → (str s or undefined or str t) ≡ str (or_text s t)
str_or String.[] t = refl
str_or (String.◌∷◌ c s) t = refl

module _ (decimal_value : ℕ → ℕ → Value) (context : Value) (bpp_id : String) (e : Entry) where
  abbrev row : ResourceRow
  row = row_of decimal_value context bpp_id e

  row_without_id : has_field "id" (stamped row) ≡ false
  unfolding stamped stamps saved_row resource_attributes_body
  row_without_id =
      has_field-write_all "id" (stamps row) row.resource_attributes refl ∙ owner_without_id e.owner
    where
      owner_without_id :
          (owner : Option Owner) → has_field "id" (owner_field decimal_value owner) ≡ false
      owner_without_id none = refl
      owner_without_id (some o) = refl

  get-product_found_id : get (product_found decimal_value context bpp_id e) "id" ≡ str (show_ℕ e.id)
  unfolding product_of item_of saved_row
  get-product_found_id = get-spread_without "id" (names (item_of row)) (stamped row) row_without_id

  opened_with :
      (url_txn : Value) (done : Bool) (this_year : String)
      → let product = product_found decimal_value context bpp_id e in
        (mount_page url_txn done (handle_get_quote product) this_year).product ≡ product
  unfolding handle_get_quote mount_page product_of
  opened_with url_txn done this_year = refl

  -- For a product that the buyer has found, the flow asks for a quote under the id of the saved
  -- resource, the product type that was entered and the zone of its offer, or, without an offer, the
  -- zone that was entered; where these are empty, for comprehensive cover and zone 3.
  pub select_body-product_found :
      (form : VehicleForm) (url_txn : Value) (done : Bool) (this_year : String)
      → let product = product_found decimal_value context bpp_id e in
        let page = mount_page url_txn done (handle_get_quote product) this_year in
        let body = select_body page.product form in
        let a = e.resource.resource_attributes in
        (body.product_id ≡ show_ℕ e.id)
        × (body.product_type ≡ str (or_text a.product_type "MOTOR_COMPREHENSIVE"))
        × (body.tariff_zone ≡ str (or_text (or_text e.offer.zone a.tariff_zone) "ZONE_3"))
  unfolding select_body
  select_body-product_found form url_txn done this_year =
      let h = found-ReadsAs decimal_value context bpp_id e in
      rw (opened_with url_txn done this_year) (
        rw (get-product_found_id, is_empty-show_ℕ e.id) refl,
        rw (h.product_type, h.product_type') (str_or _ _),
        rw (h.tariff_zone, h.tariff_zone') (str_or _ _),
      )
