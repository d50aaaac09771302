-- ===== src/Inventory/Offer.antt =====
-- OfferCard and CatalogCard of InventoryPage.jsx.
use ion_insurance_testapp.Prelude.{
  ℕ, Bool, true, false, ◌||◌, String, List, [], ◌∷◌, Option, none, some, if◌then◌else◌, ◌>>=◌,
  nonempty, length, ltb,
}
use ion_insurance_testapp.Js.{
  Value, str, arr, nil, get, is_nullish, truthy, ◌or◌, empty_object, concat, to_text,
}
use ion_insurance_testapp.Cards.{Slot, slot, list_of, count_of, map_some}
use ion_insurance_testapp.Cards.Labels.{chip}

-- The fields of an offer's policies, with their labels.
abbrev pub policy_iri_labels : List (String × String)
policy_iri_labels =
    ("claimPolicy", "Claim Policy")
    ∷ ("cancellationPolicy", "Cancellation Policy")
    ∷ ("renewalPolicy", "Renewal Policy")
    ∷ ("endorsementPolicy", "Endorsement Policy")
    ∷ ("grievanceSlaPolicy", "Grievance SLA")
    ∷ []

-- The labels of the policies that the attributes have, with their values.
abbrev policy_iris : Value → List (String × String) → List (String × Value)
policy_iris oa [] = []
policy_iris oa (entry ∷ entries) =
    let rest = policy_iris oa entries in
    if truthy (get oa entry.0) then (entry.1, get oa entry.0) ∷ rest else rest

pub record OfferDetail : Type 0 where
  pub required_docs : List Value
  pub special_exclusions : List Value
  pub policies : List (String × Value)

pub record OfferCard : Type 0 where
  pub id : Value
  pub resource_name : Slot
  pub tariff_zone : Value
  pub rate : Option (Value × Value)
  -- shown unless 0
  pub required_docs : ℕ
  pub valid_until : Slot
  pub resource_id : Slot
  pub inclusions : List (List ℕ)
  -- the numbers of documents, exclusions and policies on the button
  pub toggle : Option (ℕ × ℕ × ℕ)
  pub detail : Option OfferDetail

-- The detail is rendered when it is open.
abbrev opened :
    Bool
    → (required_docs special_exclusions : Value) → List (String × Value)
    → Option (Option OfferDetail)
opened false required_docs special_exclusions iris = some none
opened true required_docs special_exclusions iris = do
  docs ← list_of required_docs
  xs ← list_of special_exclusions
  some (some (record { required_docs = docs; special_exclusions = xs; policies = iris }))

unfoldable pub offer_card : (expanded : Bool) (offer : Value) → Option OfferCard
offer_card expanded offer = if is_nullish offer then none else do
  let oa = get offer "offer_attributes" or empty_object
  let iris = policy_iris oa policy_iri_labels
  is ← list_of (get oa "inclusions" or arr nil)
  chips ← map_some chip is
  let docs = get oa "requiredDocuments" or arr nil
  let xs = get oa "specialExclusions" or arr nil
  shown ← opened expanded docs xs iris
  some (record {
    id =
        get (get offer "offer_attributes") "offerId"
        or str (concat ("#" ∷ to_text (get offer "id") ∷ []));
    resource_name = slot (get offer "resource_name");
    tariff_zone = get offer "tariff_zone";
    rate =
        if is_nullish (get offer "premium_rate_min")
        then none
        else some (get offer "premium_rate_min", get offer "premium_rate_max");
    required_docs = count_of docs;
    valid_until = slot (get offer "valid_until");
    resource_id = slot (get offer "resource_id");
    inclusions = chips;
    toggle =
        if ltb 0 (count_of docs) || ltb 0 (count_of xs) || nonempty iris
        then some (count_of docs, count_of xs, length iris)
        else none;
    detail = shown;
  })

pub record CatalogCard : Type 0 where
  pub name : Value
  pub id : Value
  pub status : Value
  pub version : Value
  -- shown twice
  pub provider_name : Slot
  pub created_at : Slot

unfoldable pub catalog_card : Value → Option CatalogCard
catalog_card catalog =
    if is_nullish catalog
    then none
    else some (record {
      name = get catalog "name";
      id = get catalog "id";
      status = get catalog "cds_status" or str "UNPUBLISHED";
      version = get catalog "version";
      provider_name = slot (get catalog "provider_name");
      created_at = slot (get catalog "created_at");
    })
