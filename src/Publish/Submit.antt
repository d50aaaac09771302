-- ===== src/Publish/Submit.antt =====
-- PublishPage.jsx, `handlePublish`: the requests that save and publish what the wizard holds. The
-- server is a parameter: what it answers to a request, after those sent before.
pub mod Order
pub mod Stops
pub mod Created
mod Tests
pub mod Required
pub mod Length
use ion_insurance_testapp.Prelude.{
  ℕ, zero, suc, String, Bool, true, false, List, [], ◌∷◌, ◌++◌, Option, none, some, str_eq,
  if◌then◌else◌, find,
}
use ion_insurance_testapp.Js.{is_empty, or_text}
use ion_insurance_testapp.Publish.Items.{
  Scalar, text, decimal, Descriptor, Location, ProviderAttributes, Category, ResourceAttributes,
  OfferAttributes, Provider, Catalog, Resource, Offer,
}
use ion_insurance_testapp.Publish.Steps.{linked_provider}

-- `Number(s)`
pub data Rate : Type 0 where
  number : Scalar → Rate

-- The provider inside a resource, without its offices.
pub record Owner : Type 0 where
  pub id : String
  pub descriptor : Descriptor
  pub provider_attributes : ProviderAttributes

-- The bodies of the POST requests, by path; the two constant fields `@context` and `@type` of the
-- resource and the offer are left out, and so is the descriptor of a catalog, which holds its name
-- alone. A database id is a number.
pub data Request : Type 0 where
  create_provider : String → Descriptor → List Location → ProviderAttributes → Request
  create_resource :
      (product_type vehicle_type ojk_product_code : String)
      → ResourceAttributes
      → Descriptor
      → Category
      → Option Owner
      → Request
  create_offer :
      (resource_id : ℕ) (tariff_zone : String) (rate_min rate_max : Rate)
      → OfferAttributes
      → (offer_id : String) (resource_ids : List String) → Request
  create_catalog : (name version : String) → Option Provider → (provider_id : Option ℕ) → Request
  publish_catalog : Option ℕ → Request

-- `err.response.data.detail`, `err.response.data.message` and `err.message`; "" where absent.
pub record Failure : Type 0 where
  pub detail : String
  pub body_message : String
  pub message : String

-- `id` is `data.id`, and `other` is `data.resource_id` or `data.catalog_id`.
pub data Reply : Type 0 where
  done : (id other : Option ℕ) → Reply
  failed : Failure → Reply

pub data Outcome (A : Type 0) : Type 0 where
  ok : A → Outcome A
  err : Failure → Outcome A

-- A part of the handler: from the requests sent so far to its outcome and all that were sent then.
abbrev pub Run : Type 0 → Type 0
Run A = List Request → Outcome A × List Request

abbrev pub and_then : {A B : Type 0} → Outcome A → (A → Run B) → Run B
and_then (ok a) f later = f a later
and_then (err e) f later = (err e, later)

infixl 5 ◌>>=◌ ◌>>◌
abbrev pub ◌>>=◌ : {A B : Type 0} → Run A → (A → Run B) → Run B
◌>>=◌ m f sent = let (o, later) = m sent in and_then o f later

abbrev pub ◌>>◌ : {A B : Type 0} → Run A → Run B → Run B
m >> k = m >>= λ _. k

abbrev pub pure : {A : Type 0} → A → Run A
pure a sent = (ok a, sent)

-- A map from the wizard's ids to the database's. A later entry for an id stands in front.
abbrev pub IdMap : Type 0
IdMap = List (String × Option ℕ)

abbrev pub lookup : String → IdMap → Option ℕ
lookup id [] = none
lookup id ((key, v) ∷ m) = if str_eq key id then v else lookup id m

-- `a || b` on ids: 0 counts as absent.
abbrev pub or_id : Option ℕ → Option ℕ → Option ℕ
or_id none b = b
or_id (some zero) b = b
or_id (some (suc n)) b = some (suc n)

-- `s || 0`
abbrev or_zero : Scalar → Scalar
or_zero (text t) = if is_empty t then decimal 0 0 else text t
or_zero s = s

abbrev rate : Option Scalar → Rate
rate none = number (decimal 0 0)
rate (some s) = number (or_zero s)

abbrev owner_of : Provider → Owner
owner_of p = record {
  id = p.id;
  descriptor = p.descriptor;
  provider_attributes = p.provider_attributes;
}

-- `providers.find(p => p.id === res.providerId) || providers[0]`
unfoldable pub owner_or_first : String → List Provider → Option Provider
unfolding linked_provider
owner_or_first id [] = none
owner_or_first id (p ∷ ps) = elim (linked_provider id (p ∷ ps)) [ none ↦ some p | some q ↦ some q ]

abbrev pub find_resource : String → List Resource → Option Resource
find_resource id resources = find (λ r. str_eq r.id id) resources

-- The database id of the first resource that an offer links.
unfoldable pub db_resource : IdMap → Offer → Option ℕ
db_resource ids o = elim o.resource_ids [
  | [] ↦ none
  | first ∷ _ ↦ if is_empty first then none else or_id (lookup first ids) none
]

unfoldable pub offer_request : List Resource → ℕ → Offer → Request
offer_request resources db_id o =
    let linked : Option Resource = elim o.resource_ids [
      | [] ↦ none
      | first ∷ _ ↦ find_resource first resources
    ] in
    elim linked [
      | none ↦
          create_offer db_id "ZONE_3" (rate none) (rate none) o.offer_attributes o.id o.resource_ids
      | some r ↦
          let a = r.resource_attributes in
          create_offer db_id (or_text a.tariff_zone "ZONE_3") (rate (some a.premium_rate_range.min))
            (rate (some a.premium_rate_range.max)) o.offer_attributes o.id o.resource_ids
    ]

-- `client.post` throws on an error status.
abbrev pub answered : Reply → Outcome (Option ℕ × Option ℕ)
answered (done id other) = ok (id, other)
answered (failed f) = err f

module _ (server : List Request → Request → Reply) where
  unfoldable pub post : Request → Run (Option ℕ × Option ℕ)
  post r sent = (answered (server sent r), sent ++ r ∷ [])

  pub save_providers : List Provider → IdMap → Run IdMap
  save_providers [] ids = pure ids
  save_providers (p ∷ ps) ids = do
    reply ←
        post (create_provider p.descriptor.name p.descriptor p.available_at p.provider_attributes)
    save_providers ps ((p.id, reply.0) ∷ ids)

  pub save_resources : List Provider → List Resource → IdMap → Run IdMap
  save_resources providers [] ids = pure ids
  save_resources providers (r ∷ rs) ids = do
    let a = r.resource_attributes
    let owner : Option Owner = elim (owner_or_first r.provider_id providers) [
      | none ↦ none
      | some p ↦ some (owner_of p)
    ]
    reply ← post (
        create_resource a.product_type a.vehicle_type a.ojk_product_code a r.descriptor r.category
          owner)
    save_resources providers rs ((r.id, or_id reply.0 reply.1) ∷ ids)

  -- One round of the loop over the offers: an offer whose resource was not saved is skipped.
  pub save_offer : List Resource → Option ℕ → Offer → Run (Unit {0})
  save_offer resources none o = pure tt
  save_offer resources (some db_id) o = do _ ← post (offer_request resources db_id o); pure tt

  pub save_offers : List Resource → IdMap → List Offer → Run (Unit {0})
  save_offers resources ids [] = pure tt
  save_offers resources ids (o ∷ os) = do
    save_offer resources (db_resource ids o) o
    save_offers resources ids os

  pub publish_catalogs : List Provider → IdMap → List Catalog → Run (Unit {0})
  publish_catalogs providers ids [] = pure tt
  publish_catalogs providers ids (c ∷ cs) = do
    reply ← post (
        create_catalog c.name c.version (linked_provider c.provider_id providers)
          (or_id (lookup c.provider_id ids) none))
    _ ← post (publish_catalog (or_id reply.0 reply.1))
    publish_catalogs providers ids cs

  -- The first two loops, with the ids under which the server has saved the objects.
  unfoldable pub save_ids : List Provider → List Resource → Run (IdMap × IdMap)
  unfolding save_providers save_resources
  save_ids providers resources = do
    provider_ids ← save_providers providers []
    resource_ids ← save_resources providers resources []
    pure (provider_ids, resource_ids)

  -- The body of the `try` block.
  unfoldable pub publish_all :
      List Provider → List Catalog → List Resource → List Offer → Run (Unit {0})
  unfolding save_ids save_offer save_offers publish_catalogs
  publish_all providers catalogs resources offers = do
    ids ← save_ids providers resources
    save_offers resources ids.1 offers
    publish_catalogs providers ids.0 catalogs

-- The message that the page shows for an error.
unfoldable pub error_text : Failure → String
error_text f = or_text f.detail (or_text f.body_message (or_text f.message "An error occurred."))
