-- ===== src/Publish/Submit/Tests.antt =====
-- Publishing one item of each kind to a server that refuses a request without its required fields.
use ion_insurance_testapp.Prelude.{
  suc, String, Bool, true, false, ◌+◌, ◌*◌, ◌≤◌, ◌≡◌, ◌≢◌, refl, List, [], ◌∷◌, ◌++◌, none, some,
  length, All, if◌then◌else◌,
}
use ion_insurance_testapp.Publish.Items.{
  text, Provider, Catalog, Resource, Offer, blank_provider, blank_resource, blank_offer, Descriptor,
}
use ion_insurance_testapp.Publish.Submit.{
  Rate, number, Request, Reply, done, failed, Failure, post, publish_all, save_ids, db_resource,
  offer_request,
}
use ion_insurance_testapp.Publish.Submit.Length.{publish_all-Within}
use ion_insurance_testapp.Publish.Submit.Required.{
  is_bound, Requires, HasCodes, publish_all_required,
}

abbrev named : String → Descriptor
named s = record { name = s; short_desc = ""; long_desc = "" }

abbrev insurer : Provider
insurer = record blank_provider { id = "P1"; descriptor = named "Maju" }

abbrev car : Resource
car =
    let r = blank_resource "" in
    record r {
      id = "R1";
      provider_id = "P1";
      resource_attributes = record r.resource_attributes { ojk_product_code = "AMJ-1" };
    }

abbrev motor : Catalog
motor = record { id = "C1"; name = "Motor"; version = "1.0.0"; provider_id = "P1" }

abbrev offer : Offer
offer = record blank_offer { id = "O1"; resource_ids = "R1" ∷ [] }

abbrev down : Failure
down = record { detail = "Bad Request"; body_message = ""; message = "" }

abbrev blank_rate : Rate → Bool
blank_rate (number (text String.[])) = true
blank_rate _ = false

abbrev strict : List Request → Request → Reply
strict sent r = if is_bound blank_rate r then done (some (suc (length sent))) none else failed down

strict-Requires : Requires blank_rate strict
strict-Requires sent r h = (down, rw h refl)

publish_all-Within_example :
    (more : List Request) × ((publish_all strict
        (insurer ∷ [])
        (motor ∷ [])
        (car ∷ [])
        (offer ∷ [])
        []).1
      ≡ [] ++ more)
    × (length more ≤ 1 + 1 + (1 + 2 * 1))
publish_all-Within_example =
    publish_all-Within strict (insurer ∷ []) (motor ∷ []) (car ∷ []) (offer ∷ []) []

publish_all_required_example :
    All (λ (p : Provider). p.descriptor.name ≢ "") (insurer ∷ [])
    × All HasCodes (car ∷ [])
    × All (λ (c : Catalog). c.name ≢ "") (motor ∷ [])
unfolding publish_all save_ids post is_bound blank_resource db_resource offer_request
publish_all_required_example =
    publish_all_required blank_rate strict strict-Requires (insurer ∷ []) (motor ∷ []) (car ∷ [])
      (offer ∷ []) refl
