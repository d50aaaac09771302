-- ===== src/Inventory/Tests.antt =====
-- The theorems about the inventory page at concrete answers.
use ion_insurance_testapp.Prelude.{ℕ, ◌≡◌, refl, List, [], ◌∷◌}
use ion_insurance_testapp.Js.{Value, num, arr, obj, item, nil, field, end}
use ion_insurance_testapp.Inventory.{
  Event, answered, failed, choose_tab, resources, offers, catalogs, handle_all, mount, handle,
}
use ion_insurance_testapp.Inventory.Loading.{IsAllOrNothing, mount-IsAllOrNothing}

abbrev list : Value
list = arr (item (obj (field "id" (num 7) end)) nil)

abbrev loading : List Event
loading =
    answered offers list
    ∷ choose_tab "linked"
    ∷ answered catalogs (obj (field "catalogs" list end))
    ∷ answered resources (obj (field "items" list end))
    ∷ failed offers
    ∷ []

mount-IsAllOrNothing_example : IsAllOrNothing (handle_all loading mount)
mount-IsAllOrNothing_example = mount-IsAllOrNothing loading

loading_test : (handle_all loading mount).products ≡ list
unfolding handle mount
loading_test = refl

abbrev record_of : ℕ → Value
record_of id = obj (field "id" (num id) end)

abbrev offer_of : ℕ → Value
offer_of id = obj (field "resource_id" (num id) end)

abbrev two_catalogs : List Value
two_catalogs = record_of 1 ∷ record_of 2 ∷ []

abbrev two_products : List Value
two_products = record_of 7 ∷ record_of 8 ∷ []

abbrev three_offers : List Value
three_offers = offer_of 8 ∷ offer_of 7 ∷ offer_of 8 ∷ []
