-- ===== src/Market/Order.antt =====
-- HeroPage.jsx on the answer of the insurer's back end: the cards that the buyer sees, in the order
-- chosen.
use mathlib.Core.List.{append-nil}
use mathlib.Core.Path.{fun_ext}
use ion_insurance_testapp.Prelude.{
  ℕ, String, Bool, true, false, List, [], ◌∷◌, map, Option, some, if◌then◌else◌, ◌≡◌, refl, ap, ◌∙◌,
  str_eq,
}
use ion_insurance_testapp.Js.{Value, str, arr, get, is_empty, or_text, ◌or◌, is_nullish}
use ion_insurance_testapp.Js.Sort.{sort_by, rising, falling}
use ion_insurance_testapp.Cards.{map_some}
use ion_insurance_testapp.Search.{rate_min, sorted_for, search, found}
use ion_insurance_testapp.Search.Discover.{
  product_of, products_of, insurer_of, parse_discover_response,
}
use ion_insurance_testapp.Search.Card.{Card, card}
use ion_insurance_testapp.Publish.Items.{Resource}
use ion_insurance_testapp.Publish.Submit.{Owner}
use ion_insurance_testapp.Market.Backend.{
  ResourceRow, item_of, items, catalog_of, build_on_search_response,
}
use ion_insurance_testapp.Market.Entered.{map_some-map, sort_by-map}
use ion_insurance_testapp.Market.Found.{ReadsAs, card_lem, entered_card}
use ion_insurance_testapp.Market.Saved.{OfferColumns, saved_row, product-ReadsAs, rate_min-product}

-- A resource that was saved, with the provider sent with it, under an id and with an offer or none.
pub record Entry : Type 0 where
  pub id : ℕ
  pub resource : Resource
  pub owner : Option Owner
  pub offer : OfferColumns

-- `provider.descriptor.name || ... || 'Insurer'` of the answer's catalog.
abbrev pub insurer_named : String → String
insurer_named bpp_id = or_text bpp_id "Insurer"

-- The entries in the order that is chosen, by the smallest rates of their offers.
unfoldable pub in_order : String → List Entry → List Entry
in_order sort es =
    if str_eq sort "rate_asc"
    then sort_by (rising (λ (e : Entry). e.offer.rate_min)) es
    else if str_eq sort "rate_desc"
    then sort_by (falling (λ (e : Entry). e.offer.rate_min)) es
    else es

map-choice :
    {A B : Type 0} (f : A → B) (asc desc : Bool) (xs ys zs : List A)
    → (if asc then map f xs else if desc then map f ys else map f zs)
      ≡ map f (if asc then xs else if desc then ys else zs)
map-choice f true desc xs ys zs = refl
map-choice f false true xs ys zs = refl
map-choice f false false xs ys zs = refl

three_times : (s : String) → (str s or str s or str s or str "Insurer") ≡ str (or_text s "Insurer")
three_times String.[] = refl
three_times (String.◌∷◌ c s) = refl

insurer_named-ne : (s : String) → is_empty (insurer_named s) ≡ false
insurer_named-ne String.[] = refl
insurer_named-ne (String.◌∷◌ c s) = refl

module _ (decimal_value : ℕ → ℕ → Value) (context : Value) (bpp_id : String) where
  abbrev pub row_of : Entry → ResourceRow
  row_of e = saved_row decimal_value e.id bpp_id e.resource e.owner e.offer

  -- The back end's answer to a search while it holds these entries.
  unfoldable pub answer_of : List Entry → Value
  answer_of es = build_on_search_response context bpp_id (map row_of es)

  abbrev pub product_found : Entry → Value
  product_found e =
      product_of (str (insurer_named bpp_id)) (get context "bpp_id" or str bpp_id)
        (item_of (row_of e))

  products_of_entries :
      (insurer bpp : Value) (es : List Entry)
      → products_of insurer bpp (items (map row_of es))
        ≡ some (map (λ e. product_of insurer bpp (item_of (row_of e))) es)
  unfolding item_of
  products_of_entries insurer bpp [] = refl
  products_of_entries insurer bpp (e ∷ es) = rw (products_of_entries insurer bpp es) refl

  insurer_of_answer :
      (resources : Value) → insurer_of (catalog_of bpp_id resources) ≡ str (insurer_named bpp_id)
  unfolding insurer_of catalog_of
  insurer_of_answer resources = three_times bpp_id

  parse-answer_of :
      (es : List Entry) → parse_discover_response (answer_of es) ≡ some (map product_found es)
  unfolding parse_discover_response answer_of build_on_search_response
  parse-answer_of es = rw (insurer_of_answer (arr (items (map row_of es)))) (
      rw (products_of_entries (str (insurer_named bpp_id)) (get context "bpp_id" or str bpp_id) es)
        (ap some (append-nil (map product_found es))))

  rate_min-product_found : (e : Entry) → rate_min (product_found e) ≡ e.offer.rate_min
  rate_min-product_found e =
      rate_min-product decimal_value e.id bpp_id e.resource e.owner e.offer (insurer_named bpp_id)
        (get context "bpp_id" or str bpp_id)

  pub found-ReadsAs :
      (e : Entry)
      → ReadsAs decimal_value
          (product_found e)
          (insurer_named bpp_id)
          (or_text e.offer.zone e.resource.resource_attributes.tariff_zone)
          e.resource
  found-ReadsAs e =
      product-ReadsAs decimal_value e.id bpp_id e.resource e.owner e.offer (insurer_named bpp_id)
        (get context "bpp_id" or str bpp_id)

  sorted_for-map :
      (sort : String) (es : List Entry)
      → sorted_for sort (map product_found es) ≡ map product_found (in_order sort es)
  unfolding sorted_for in_order
  sorted_for-map sort es =
      let rates = fun_ext rate_min-product_found in
      let up = λ (key : Entry → ℕ). map product_found (sort_by (rising key) es) in
      let down = λ (key : Entry → ℕ). map product_found (sort_by (falling key) es) in
      rw
        (
          sort_by-map product_found (rising rate_min) es ∙ ap up rates,
          sort_by-map product_found (falling rate_min) es ∙ ap down rates,
        )
        (map-choice product_found (str_eq sort "rate_asc") (str_eq sort "rate_desc")
          (sort_by (rising (λ (e : Entry). e.offer.rate_min)) es)
          (sort_by (falling (λ (e : Entry). e.offer.rate_min)) es) es)

  found-answer_of :
      (query sort : String) (es : List Entry)
      → found (search query sort) (answer_of es) ≡ map product_found (in_order sort es)
  unfolding found
  found-answer_of query sort es = rw (parse-answer_of es) (sorted_for-map sort es)

  module _ (number : Value → ℕ) where
    abbrev pub card_entered : (expanded : Bool) → Entry → Card
    card_entered expanded e =
        entered_card decimal_value number expanded (insurer_named bpp_id)
          (or_text e.offer.zone e.resource.resource_attributes.tariff_zone) e.resource

    card-product_found :
        (expanded : Bool)
        → ((m s : ℕ) → is_nullish (decimal_value m s) ≡ false)
        → (e : Entry) → card number expanded (product_found e) ≡ some (card_entered expanded e)
    card-product_found expanded numbers e =
        card_lem decimal_value number (product_found e) (insurer_named bpp_id) _ e.resource
          (found-ReadsAs e) expanded (insurer_named-ne bpp_id) numbers

    -- Of the back end's answer to a search, the page shows one card for each saved resource and offer,
    -- in the order chosen by the rates of the offers. No card throws, and each shows the resource as it
    -- was entered in the wizard, with the zone of the offer where there is one.
    pub cards_found :
        (query sort : String) (expanded : Bool) (es : List Entry)
        → ((m s : ℕ) → is_nullish (decimal_value m s) ≡ false)
        → map_some (card number expanded) (found (search query sort) (answer_of es))
          ≡ some (map (card_entered expanded) (in_order sort es))
    cards_found query sort expanded es numbers =
        ap (map_some (card number expanded)) (found-answer_of query sort es)
        ∙ map_some-map product_found (card number expanded) (card_entered expanded)
            (card-product_found expanded numbers) (in_order sort es)
