-- ===== src/Inventory/Linked.antt =====
-- The view by catalog of InventoryPage.jsx: LinkedView, CatalogTreeCard and LinkedResourceRow.
use ion_insurance_testapp.Prelude.{
  ℕ, suc, Bool, not, ◌&&◌, String, List, [], ◌∷◌, ◌++◌, Option, none, some, if◌then◌else◌, ◌>>=◌,
  length, any, map, str_eq, ◌==◌,
}
use ion_insurance_testapp.Js.{
  Value, str, get, is_nullish, truthy, ◌or◌, empty_object, concat, to_text,
}
use ion_insurance_testapp.Cards.{Slot, slot}

-- `offersByResource`: its keys are texts, none of them a name that every object has.
abbrev pub Groups : Type 0
Groups = List (String × List Value)

abbrev pub resource_key : Value → String
resource_key offer = to_text (get offer "resource_id")

unfoldable pub push : String → Value → Groups → Groups
push key offer [] = (key, offer ∷ []) ∷ []
push key offer (group ∷ groups) =
    let rest = push key offer groups in
    if str_eq group.0 key then (key, group.1 ++ offer ∷ []) ∷ groups else group ∷ rest

unfoldable pub offers_by_resource : Groups → List Value → Groups
unfolding push
offers_by_resource groups [] = groups
offers_by_resource groups (offer ∷ offers) =
    offers_by_resource (push (resource_key offer) offer groups) offers

-- `offersByResource[key] || []`
unfoldable pub offers_at : String → Groups → List Value
offers_at key [] = []
offers_at key (group ∷ groups) =
    let rest = offers_at key groups in if str_eq group.0 key then group.1 else rest

-- The products with what `LinkedResourceRow` is given for each.
unfoldable pub linked_rows : (products : List Value) → Groups → List (Value × List Value)
unfolding offers_at
linked_rows [] groups = []
linked_rows (p ∷ ps) groups = (p, offers_at (to_text (get p "id")) groups) ∷ linked_rows ps groups

pub record TreeCard : Type 0 where
  pub name : Value
  pub id : Value
  pub provider_name : Slot
  pub status : Value
  pub product_count : ℕ
  pub offer_count : ℕ
  pub created_at : Slot
  -- where it is open
  pub body : Option (List (Value × List Value))

-- Reading a field of a nullish product, offer or catalog throws.
unfoldable pub tree_card :
    (opened : Bool) (catalog : Value) (products offers : List Value) → Option TreeCard
unfolding offers_by_resource linked_rows
tree_card opened catalog products offers =
    if is_nullish catalog
    then none
    else if any is_nullish offers
    then none
    else if opened && any is_nullish products
    then none
    else some (record {
      name = get catalog "name";
      id = get catalog "id";
      provider_name = slot (get catalog "provider_name");
      status = get catalog "cds_status" or str "UNPUBLISHED";
      product_count = length products;
      offer_count = length offers;
      created_at = slot (get catalog "created_at");
      body = if opened then some (linked_rows products (offers_by_resource [] offers)) else none;
    })

-- The cards, of which the first is open at first; a click turns one over.
abbrev pub default_open : ℕ → Bool
default_open i = i == 0

abbrev pub toggle_open : ℕ → (ℕ → Bool) → ℕ → Bool
toggle_open clicked is_open i = if i == clicked then not (is_open i) else is_open i

unfoldable pub tree_cards :
    (is_open : ℕ → Bool) (catalogs products offers : List Value) → Option (List TreeCard)
unfolding tree_card
tree_cards is_open [] products offers = some []
tree_cards is_open (c ∷ cs) products offers =
    let rest = tree_cards (λ i. is_open (suc i)) cs products offers in
    tree_card (is_open 0) c products offers >>= λ card. rest >>= λ cards. some (card ∷ cards)

pub record LinkedOffer : Type 0 where
  pub title : Value
  pub rate : Option (Value × Value)
  pub id : Value

pub record LinkedRow : Type 0 where
  pub name : Value
  pub id : Value
  pub product_type : Slot
  pub vehicle_type : Slot
  pub offer_count : ℕ
  -- where it is open: the code and the offers
  pub detail : Option (Slot × List LinkedOffer)

abbrev linked_offer : Value → LinkedOffer
linked_offer o = record {
  title =
      get o "tariff_zone"
      or get (get o "offer_attributes" or empty_object) "tariffZone"
      or str (concat ("Offer #" ∷ to_text (get o "id") ∷ []));
  rate =
      if truthy (get o "premium_rate_min" or get o "premium_rate_max")
      then some (get o "premium_rate_min", get o "premium_rate_max")
      else none;
  id = get o "id";
}

-- The types of a product are texts.
unfoldable pub linked_row : (opened : Bool) (product : Value) (offers : List Value) → LinkedRow
linked_row opened product offers =
    let ra = get product "resource_attributes" or empty_object in
    record {
      name =
          get (get ra "descriptor") "name" or get product "product_type" or str "Unnamed Resource";
      id = get product "id";
      product_type = slot (get product "product_type" or get ra "productType" or str "");
      vehicle_type = slot (get product "vehicle_type" or get ra "vehicleType" or str "");
      offer_count = length offers;
      detail =
          if opened
          then some (
            slot (get product "ojk_product_code" or get ra "ojkProductCode"),
            map linked_offer offers,
          )
          else none;
    }
