-- ===== src/Market/Listed.antt =====
-- The card of InventoryPage.jsx for a resource that the wizard has saved, as the insurer's back end
-- lists it.
use ion_insurance_testapp.Prelude.{ℕ, String, Bool, false, Option, some, [], ◌∷◌, ◌≡◌, refl}
use ion_insurance_testapp.Js.{
  Value, undefined, str, or_text, ◌or◌, ◌else_use◌, is_nullish, concat, show_ℕ,
}
use ion_insurance_testapp.Cards.{slot}
use ion_insurance_testapp.Inventory.Product.{ProductCard, product_card}
use ion_insurance_testapp.Publish.Items.{Scalar, Resource}
use ion_insurance_testapp.Publish.Submit.{Owner}
use ion_insurance_testapp.Publish.Wire.{scalar_value, resource_attributes_body}
use ion_insurance_testapp.Market.Backend.{listed}
use ion_insurance_testapp.Market.Entered.{entered_sections, sections_lem}
use ion_insurance_testapp.Market.Found.{is_nullish-scalar_value}
use ion_insurance_testapp.Market.Saved.{OfferColumns, saved_row, owner_field-absent}

slot_or_missing : (s : String) → slot (str s or undefined) ≡ slot (str s)
unfolding slot
slot_or_missing String.[] = refl
slot_or_missing (String.◌∷◌ c s) = refl

asked_again : (s : String) → (str s or str s) ≡ str s
asked_again String.[] = refl
asked_again (String.◌∷◌ c s) = refl

name_or : (s t u : String) → (str s or str t or str u) ≡ str (or_text s (or_text t u))
name_or String.[] String.[] u = refl
name_or String.[] (String.◌∷◌ c t) u = refl
name_or (String.◌∷◌ c s) t u = refl

module _ (decimal_value : ℕ → ℕ → Value) (number : Value → ℕ) where
  else_use-scalar :
      (x : Scalar)
      → ((m s : ℕ) → is_nullish (decimal_value m s) ≡ false)
      → (scalar_value decimal_value x else_use undefined) ≡ scalar_value decimal_value x
  else_use-scalar x numbers = rw (is_nullish-scalar_value decimal_value numbers x) refl

  -- What the insurer's card shows of an entered resource.
  unfoldable pub entered_product_card : (expanded : Bool) (id : ℕ) → Resource → ProductCard
  entered_product_card expanded id r =
      let a = r.resource_attributes in
      record {
        name = str (
            or_text r.descriptor.name
              (or_text a.product_type (concat ("Product #" ∷ show_ℕ id ∷ []))));
        short_desc = slot (str r.descriptor.short_desc);
        product_type = str a.product_type;
        vehicle_type = str a.vehicle_type;
        tariff_zone = slot (str a.tariff_zone);
        rate = some (
          scalar_value decimal_value a.premium_rate_range.min,
          scalar_value decimal_value a.premium_rate_range.max,
        );
        deductible = slot (scalar_value decimal_value a.deductible_amount or undefined);
        ojk_code = slot (str a.ojk_product_code);
        ojk_license = slot (str a.ojk_license_number);
        sections = entered_sections decimal_value number expanded a;
      }

  pub product_card-listed :
      (expanded : Bool) (created_at : Value) (id : ℕ) (bpp_id : String) (r : Resource)
      (owner : Option Owner) (o : OfferColumns)
      → ((m s : ℕ) → is_nullish (decimal_value m s) ≡ false)
      → product_card number expanded
          (listed created_at (saved_row decimal_value id bpp_id r owner o))
        ≡ some (entered_product_card expanded id r)
  unfolding product_card listed saved_row resource_attributes_body entered_product_card
  product_card-listed expanded created_at id bpp_id r owner o numbers =
      let a = r.resource_attributes in
      rw
        (
          sections_lem decimal_value number expanded a,
          owner_field-absent decimal_value owner "tariff_zone" refl,
          owner_field-absent decimal_value owner "deductible_amount" refl,
          owner_field-absent decimal_value owner "ojk_license_number" refl,
          owner_field-absent decimal_value owner "premium_rate_min" refl,
          owner_field-absent decimal_value owner "premium_rate_max" refl,
          else_use-scalar a.premium_rate_range.min numbers,
          else_use-scalar a.premium_rate_range.max numbers,
          name_or r.descriptor.name a.product_type (concat ("Product #" ∷ show_ℕ id ∷ [])),
          asked_again a.product_type,
          asked_again a.vehicle_type,
          asked_again a.ojk_product_code,
          slot_or_missing r.descriptor.short_desc,
          slot_or_missing a.tariff_zone,
          slot_or_missing a.ojk_license_number,
        )
        (rw
          (
            is_nullish-scalar_value decimal_value numbers a.premium_rate_range.min,
            is_nullish-scalar_value decimal_value numbers a.premium_rate_range.max,
          )
          refl)
