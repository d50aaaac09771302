-- ===== src/Inventory/Groups.antt =====
-- What the view by catalog lists.
use ion_insurance_testapp.Prelude.{◌≡◌, List, none, some, length, map, keep, str_eq, ◌⊎◌}
use ion_insurance_testapp.Js.{Value, get, to_text}
use ion_insurance_testapp.Inventory.Linked.{resource_key, TreeCard}

-- The offers for a resource, each of whose keys is the product's id as a text.
abbrev pub offers_for : Value → List Value → List Value
offers_for product = keep (λ o. str_eq (resource_key o) (to_text (get product "id")))

-- The card of a catalog.
abbrev pub ListsAll : List Value → List Value → TreeCard → Type 0
ListsAll products offers card =
    (card.product_count ≡ length products)
    × (card.offer_count ≡ length offers)
    × ((card.body ≡ none) ⊎ (card.body ≡ some (map (λ p. (p, offers_for p offers)) products)))
