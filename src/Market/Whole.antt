-- ===== src/Market/Whole.antt =====
-- The two applications together: the wizard publishes, the insurer's back end stores, the buyer
-- searches.
use ion_insurance_testapp.Prelude.{ℕ, suc, String, List, [], ◌∷◌}
use mathlib.Core.List.{reverse}
use ion_insurance_testapp.Js.{Value}
use ion_insurance_testapp.Publish.Items.{Provider, Resource}
use ion_insurance_testapp.Publish.Submit.{
  Request, create_provider, create_resource, create_offer, create_catalog, publish_catalog,
}
use ion_insurance_testapp.Publish.Submit.Created.{sent_owner}
use ion_insurance_testapp.Publish.Wire.{resource_attributes_body}
use ion_insurance_testapp.Market.Backend.{ResourceRow, build_on_search_response}
use ion_insurance_testapp.Market.Saved.{OfferColumns}
use ion_insurance_testapp.Market.Order.{Entry}

module _ (decimal_value : ℕ → ℕ → Value) (bpp_id : String) (offer : ℕ → OfferColumns) where
  -- CreateResource: the rows for the requests, where the next id is `n`; the columns of the offer for
  -- a resource are given by its id.
  unfoldable pub stored_rows : (n : ℕ) → List Request → List ResourceRow
  stored_rows n [] = []
  stored_rows n (create_resource product_type vehicle_type code a d c owner ∷ rs) =
      record {
        id = n;
        bpp_id = bpp_id;
        product_type = product_type;
        vehicle_type = vehicle_type;
        ojk_product_code = code;
        resource_attributes = resource_attributes_body decimal_value a d c owner;
        tariff_zone = (offer n).zone;
        premium_rate_min = (offer n).rate_min;
        premium_rate_max = (offer n).rate_max;
      }
      ∷ stored_rows (suc n) rs
  stored_rows n (create_provider _ _ _ _ ∷ rs) = stored_rows n rs
  stored_rows n (create_offer _ _ _ _ _ _ _ ∷ rs) = stored_rows n rs
  stored_rows n (create_catalog _ _ _ _ ∷ rs) = stored_rows n rs
  stored_rows n (publish_catalog _ ∷ rs) = stored_rows n rs

  -- `ORDER BY r.created_at DESC`: the row that was stored last comes first.
  unfoldable pub search_answer : (context : Value) → List Request → Value
  unfolding stored_rows
  search_answer context sent =
      build_on_search_response context bpp_id (reverse (stored_rows 1 sent))

  -- The resources of the wizard as entries of the table.
  abbrev pub entries : List Provider → ℕ → List Resource → List Entry
  entries providers n [] = []
  entries providers n (r ∷ rs) =
      record { id = n; resource = r; owner = sent_owner providers r; offer = offer n }
      ∷ entries providers (suc n) rs
