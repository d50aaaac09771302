-- ===== src/Search/Tests.antt =====
-- A search with an answer of two catalogs, and the theorems on it.
use mathlib.Core.List.{Perm}
use ion_insurance_testapp.Prelude.{
  All, ℕ, String, false, ◌≡◌, refl, List, [], ◌∷◌, some, keep, ◌==◌,
}
use ion_insurance_testapp.Js.{
  null, ◌or◌, Value, num, str, arr, obj, item, nil, field, end, get, to_text,
}
use ion_insurance_testapp.Js.Sort.{IsOrdered}
use ion_insurance_testapp.Search.Discover.{insurer_of, parse_discover_response, product_of}
use ion_insurance_testapp.Search.{
  Hero, handle, Event, rate_min, sorted_for, first, search, found, mount_hero, choose_vehicle,
  choose_coverage, choose_sort, type_query, submit, clear, answered, handle_all,
}
use ion_insurance_testapp.Search.Order.{IsUnrated, order_for, sorted_for_stable, found_unrated}
use ion_insurance_testapp.Search.Filters.{unfiltered, handle_all-unfiltered}
use ion_insurance_testapp.Search.Late.{handle_all_late, handle_all_last}
use ion_insurance_testapp.Search.Quote.{handle_get_quote, select_body-handle_get_quote}
use ion_insurance_testapp.Search.Card.{Card, card}
use ion_insurance_testapp.Cards.Sections.{sections}
use mathlib.Core.Option
use ion_insurance_testapp.Flow.Forms.{select_body, demo_vehicle}
use ion_insurance_testapp.Flow.Page.{mount_page}

abbrev priced : ℕ → Value
priced n = obj (field "premiumRateMin" (num n) end)

sorted_for_stable_example :
    let ps = priced 208 ∷ priced 156 ∷ priced 208 ∷ [] in
    let sorted = sorted_for "rate_desc" ps in
    IsOrdered (order_for "rate_desc") sorted
    × Perm sorted ps
    × (keep (λ p. rate_min p == 208) sorted ≡ keep (λ p. rate_min p == 208) ps)
sorted_for_stable_example =
    sorted_for_stable "rate_desc" (priced 208 ∷ priced 156 ∷ priced 208 ∷ []) 208

abbrev resource : String → ℕ → Value
resource id rate = obj (
    field "id" (str id) (
      field "descriptor" (obj (field "name" (str "Motor") end)) (
        field "resourceAttributes"
          (obj (
            field "productType" (str "MOTOR_THIRD_PARTY") (
              field "tariffZone" (str "ZONE_2") (
                field "premiumRateRange" (obj (field "min" (num rate) (field "max" (num 300) end)))
                  end))))
          end)))

abbrev answer : Value → Value
answer resources = obj (
    field "context" (obj (field "bpp_id" (str "bpp.example") end)) (
      field "message"
        (obj (
          field "catalogs"
            (arr (item (obj (field "id" (str "C-1") (field "resources" resources end))) nil)) end))
        end))

abbrev two_products : Value
two_products = answer (arr (item (resource "R-1" 208) (item (resource "R-2" 156) nil)))

abbrev products : List Value
products =
    product_of (str "C-1") (str "bpp.example") (resource "R-1" 208)
    ∷ product_of (str "C-1") (str "bpp.example") (resource "R-2" 156)
    ∷ []

parse_discover_response_test : parse_discover_response two_products ≡ some products
unfolding parse_discover_response insurer_of
parse_discover_response_test = refl

products_IsUnrated : All IsUnrated products
unfolding product_of
products_IsUnrated = ((refl, refl), ((refl, refl), tt))

found_unrated_test : found (search "motor" "rate_asc") two_products ≡ found first two_products
found_unrated_test =
    found_unrated "motor" "rate_asc" two_products products parse_discover_response_test
      products_IsUnrated

abbrev choices : List Event
choices =
    choose_vehicle "TWO_WHEELER"
    ∷ choose_sort "rate_desc"
    ∷ submit
    ∷ answered 0 two_products
    ∷ clear
    ∷ choose_coverage "MOTOR_FIRE_THEFT"
    ∷ []

handle_all-unfiltered_example :
    let p = handle_all choices (mount_hero "en") in
    let q = handle_all (unfiltered choices) (mount_hero "en") in
    (p.products ≡ q.products) × (p.pending ≡ q.pending) × (p.loading ≡ q.loading)
handle_all-unfiltered_example = handle_all-unfiltered "en" choices

abbrev one_product : Value
one_product = answer (arr (item (resource "R-2" 156) nil))

handle_all_late_test :
    let start =
      handle_all (choose_sort "rate_asc" ∷ type_query "R-2" ∷ submit ∷ []) (mount_hero "en") in
    ((handle_all (answered 0 two_products ∷ answered 0 one_product ∷ []) start).products
      ≡ found (search "R-2" "rate_asc") one_product)
    × ((handle_all (answered 1 one_product ∷ answered 0 two_products ∷ []) start).products
        ≡ found first two_products)
handle_all_late_test = handle_all_late "en" "R-2" "rate_asc" two_products one_product

select_body-handle_get_quote_test :
    let attributes = get (resource "R-1" 208) "resourceAttributes" in
    let product = product_of (str "C-1") (str "bpp.example") (resource "R-1" 208) in
    let page = mount_page null false (handle_get_quote product) "2026" in
    let body = select_body page.product demo_vehicle in
    (body.product_id ≡ to_text (get (resource "R-1" 208) "id" or str "1"))
    × (body.product_type ≡ (
        get attributes "productType" or get attributes "product_type" or str "MOTOR_COMPREHENSIVE"))
    × (body.tariff_zone
        ≡ (get attributes "tariffZone" or get attributes "tariff_zone" or str "ZONE_3"))
select_body-handle_get_quote_test =
    select_body-handle_get_quote (str "C-1") (str "bpp.example") (resource "R-1" 208) demo_vehicle
      null false "2026" refl

-- `Number` of a number.
abbrev number : Value → ℕ
number (num n) = n
number _ = 0

card_test :
    Option.map
      (λ (c : Card). c.rate)
      (card number false (product_of (str "C-1") (str "bpp.example") (resource "R-1" 208)))
    ≡ some (some (num 208, num 300))
unfolding card product_of sections
card_test = refl

-- The first request and a search are open.
abbrev searching : Hero
searching = record (mount_hero "en") { pending = first ∷ search "R-2" "rate_asc" ∷ [] }

handle_all_last_example :
    let after = handle (answered 1 one_product) searching in
    (handle_all (choose_sort "rate_desc" ∷ submit ∷ []) after).products
    ≡ found (search "R-2" "rate_asc") one_product
handle_all_last_example =
    handle_all_last searching 1 (search "R-2" "rate_asc") one_product
      (choose_sort "rate_desc" ∷ submit ∷ []) refl (tt, (tt, tt))
