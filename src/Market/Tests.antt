-- ===== src/Market/Tests.antt =====
-- A resource saved by the wizard, with an offer, and what the pages show of it. A decimal is the
-- number of its digits, counted in its last one.
use ion_insurance_testapp.Prelude.{ℕ, false, true, ◌≡◌, refl, List, [], ◌∷◌, map, none, some}
use ion_insurance_testapp.Js.{Value, undefined, null, num, str, or_text, show_ℕ}
use ion_insurance_testapp.Js.Sort.{sort_by, place}
use ion_insurance_testapp.Cards.{map_some}
use ion_insurance_testapp.Search.{search, found}
use ion_insurance_testapp.Search.Card.{card}
use ion_insurance_testapp.Search.Quote.{handle_get_quote}
use ion_insurance_testapp.Inventory.Product.{product_card}
use ion_insurance_testapp.Flow.Forms.{demo_vehicle, select_body}
use ion_insurance_testapp.Flow.Page.{mount_page}
use ion_insurance_testapp.Publish.Items.{Resource, blank_resource}
use ion_insurance_testapp.Publish.Submit.{Request, Reply, done}
use ion_insurance_testapp.Market.Backend.{listed}
use ion_insurance_testapp.Market.Saved.{OfferColumns, saved_row}
use ion_insurance_testapp.Market.Order.{
  Entry, in_order, answer_of, card_entered, product_found, cards_found,
}
use ion_insurance_testapp.Market.Quote.{select_body-product_found}
use ion_insurance_testapp.Market.Listed.{entered_product_card, product_card-listed}

abbrev digits : ℕ → ℕ → Value
digits m s = num m

abbrev number : Value → ℕ
number (num n) = n
number _ = 0

abbrev car : Resource
car =
    let r = blank_resource "KEP-112" in
    record r {
      descriptor = record { name = "Motor"; short_desc = "Cover"; long_desc = "" };
      resource_attributes = record r.resource_attributes {
        ojk_product_code = "AMJ-1";
        coverage_inclusions = "FIRE" ∷ "PARTIAL_LOSS" ∷ [];
      };
    }

abbrev entry : ℕ → ℕ → Entry
entry id rate = record {
  id = id;
  resource = car;
  owner = none;
  offer = record { zone = "ZONE_2"; rate_min = rate; rate_max = 359 };
}

abbrev two_entries : List Entry
two_entries = entry 1 326 ∷ entry 2 154 ∷ []

in_order_test : in_order "rate_asc" two_entries ≡ entry 2 154 ∷ entry 1 326 ∷ []
unfolding in_order sort_by place
in_order_test = refl

cards_found_example :
    map_some
      (card number true)
      (found (search "motor" "rate_asc") (answer_of digits null "bpp.example" two_entries))
    ≡ some
        (map (card_entered digits null "bpp.example" number true) (in_order "rate_asc" two_entries))
cards_found_example =
    cards_found digits null "bpp.example" number "motor" "rate_asc" true two_entries (λ m s. refl)

select_body-product_found_example :
    let product = product_found digits null "bpp.example" (entry 7 326) in
    let page = mount_page undefined false (handle_get_quote product) "2026" in
    let body = select_body page.product demo_vehicle in
    let a = (entry 7 326).resource.resource_attributes in
    (body.product_id ≡ show_ℕ 7)
    × (body.product_type ≡ str (or_text a.product_type "MOTOR_COMPREHENSIVE"))
    × (body.tariff_zone ≡ str (or_text (or_text "ZONE_2" a.tariff_zone) "ZONE_3"))
select_body-product_found_example =
    select_body-product_found digits null "bpp.example" (entry 7 326) demo_vehicle undefined false
      "2026"

product_card-listed_example :
    product_card number true (
      listed (str "2026-01-01") (
        saved_row digits 7 "bpp.example" car none
          (record { zone = ""; rate_min = 0; rate_max = 0 })))
    ≡ some (entered_product_card digits number true 7 car)
product_card-listed_example =
    product_card-listed digits number true (str "2026-01-01") 7 "bpp.example" car none
      (record { zone = ""; rate_min = 0; rate_max = 0 }) (λ m s. refl)

-- Every request is accepted.
abbrev accepting : List Request → Request → Reply
accepting sent r = done (some 1) none

abbrev no_offer : ℕ → OfferColumns
no_offer id = record { zone = ""; rate_min = 0; rate_max = 0 }
