-- ===== src/Publish/Steps.antt =====
-- PublishPage.jsx: the four steps of the wizard that edit a list. What they have in common is in
-- Publish/Editor; here is what each adds: its kind, Auto Fill, the blank draft that its Add button
-- opens, the inputs of its panel and the text of its cards.
pub mod Cards
pub mod Linked
use ion_insurance_testapp.Prelude.{
  ℕ, String, Bool, true, false, not, ◌&&◌, List, [], ◌∷◌, map, Option, none, some, str_eq,
  if◌then◌else◌, find, keep, nonempty, is_some,
}
use ion_insurance_testapp.Js.{is_empty, or_text, concat, trim}
use ion_insurance_testapp.Publish.Items.{
  Provider, Location, Catalog, Resource, Offer, blank_provider, blank_catalog, blank_resource,
  blank_offer, coverage_inclusion_codes,
}
use ion_insurance_testapp.Publish.Demo.{get_demo_data}
use ion_insurance_testapp.Publish.Suffix.{unique_suffix}
use ion_insurance_testapp.Publish.Editor.{Kind, Editor, add_more}
use ion_insurance_testapp.Publish.Forms.Lists.{includes, toggle, StringsInput, change_strings}

abbrev filled : String → Bool
filled s = not (is_empty (trim s))

-- The guards of the four `handleAdd`, and the words of their messages.
abbrev pub provider_kind : Kind Provider
provider_kind = record {
  item_id = λ p. p.id;
  is_complete = λ p. filled p.id && filled p.descriptor.name;
  blank = blank_provider;
  noun = "provider";
}

abbrev pub catalog_kind : Kind Catalog
catalog_kind = record {
  item_id = λ c. c.id;
  is_complete = λ c. filled c.id && (filled c.name && not (is_empty c.provider_id));
  blank = blank_catalog;
  noun = "catalog";
}

abbrev pub resource_kind : Kind Resource
resource_kind = record {
  item_id = λ r. r.id;
  is_complete = λ r. filled r.id && filled r.descriptor.name;
  blank = blank_resource "";
  noun = "resource";
}

abbrev pub offer_kind : Kind Offer
offer_kind = record {
  item_id = λ o. o.id;
  is_complete = λ o. filled o.id;
  blank = blank_offer;
  noun = "offer";
}

-- `providers.find(p => p.id === id)`
unfoldable pub linked_provider : String → List Provider → Option Provider
linked_provider id providers = find (λ p. str_eq p.id id) providers

-- `providers[0]?.id || ''`
abbrev first_id : List Provider → String
first_id [] = ""
first_id (p ∷ _) = p.id

-- `providers[0]?.providerAttributes?.ojkLicenseNumber || ''`
abbrev pub first_license : List Provider → String
first_license [] = ""
first_license (p ∷ _) = p.provider_attributes.ojk_license_number

abbrev tagged : String → ℕ → String
tagged id now = concat (id ∷ "-" ∷ unique_suffix now ∷ [])

-- The Auto Fill button of each panel, at a time `now`.
unfoldable pub auto_fill_provider : ℕ → String → Provider
auto_fill_provider now lang =
    let demo = (get_demo_data lang).provider in
    record demo {
      id = tagged demo.id now;
      available_at = map (λ (l : Location). record l { id = tagged l.id now }) demo.available_at;
    }

unfoldable pub auto_fill_catalog : ℕ → String → List Provider → Catalog
auto_fill_catalog now lang providers =
    let demo = (get_demo_data lang).catalog in
    record demo { id = tagged demo.id now; provider_id = first_id providers }

unfoldable pub auto_fill_resource : ℕ → String → List Provider → Resource
auto_fill_resource now lang providers =
    let demo = (get_demo_data lang).resource in
    let a = demo.resource_attributes in
    record demo {
      id = tagged demo.id now;
      provider_id = first_id providers;
      resource_attributes = record a {
        ojk_license_number = or_text (first_license providers) a.ojk_license_number;
      };
    }

-- `xs.slice(0, 5)`
abbrev first_five : List String → List String
first_five (a ∷ b ∷ c ∷ d ∷ e ∷ _) = a ∷ b ∷ c ∷ d ∷ e ∷ []
first_five xs = xs

unfoldable pub auto_fill_offer : ℕ → String → List Resource → Offer
auto_fill_offer now lang resources =
    let demo = (get_demo_data lang).offer in
    let a = demo.offer_attributes in
    elim resources [
      | [] ↦ record demo { id = tagged demo.id now; resource_ids = [] }
      | r ∷ _ ↦ record demo {
        id = tagged demo.id now;
        resource_ids = r.id ∷ [];
        offer_attributes = record a {
          inclusions = first_five r.resource_attributes.coverage_inclusions;
        };
      }
    ]

-- The drop-down for the provider of a resource: a provider with a licence number hands it on.
unfoldable pub choose_provider : List Provider → String → Resource → Resource
unfolding linked_provider
choose_provider providers id r =
    let a = r.resource_attributes in
    let license : String = elim (linked_provider id providers) [
      | none ↦ ""
      | some p ↦ p.provider_attributes.ojk_license_number
    ] in
    record r {
      provider_id = id;
      resource_attributes = record a { ojk_license_number = or_text license a.ojk_license_number };
    }

-- `toggleResource`: the resource is linked or unlinked, and the inclusions chosen so far go.
unfoldable pub toggle_resource : String → Offer → Offer
unfolding toggle
toggle_resource id o =
    let a = o.offer_attributes in
    record o {
      resource_ids = toggle id o.resource_ids;
      offer_attributes = record a { inclusions = [] };
    }

-- The buttons that open a panel on a blank draft.
unfoldable pub add_resource : List Provider → Editor Resource → Editor Resource
unfolding add_more
add_resource providers e = add_more (blank_resource (first_license providers)) e

unfoldable pub add_offer : Editor Offer → Editor Offer
unfolding add_more
add_offer e = let opened = add_more blank_offer e in record opened { edit_idx = none }

-- The other inputs of the catalog's and the offer's panel.
pub data CatalogInput : Type 0 where
  id : String → CatalogInput
  name : String → CatalogInput
  version : String → CatalogInput
  provider : String → CatalogInput

unfoldable pub change_catalog : CatalogInput → Catalog → Catalog
change_catalog (id v) c = record c { id = v }
change_catalog (name v) c = record c { name = v }
change_catalog (version v) c = record c { version = v }
change_catalog (provider v) c = record c { provider_id = v }

pub data OfferInput : Type 0 where
  offer_id : String → OfferInput
  resource : String → OfferInput
  inclusion : String → OfferInput
  special_exclusions : StringsInput → OfferInput
  required_documents : StringsInput → OfferInput
  claim_policy : String → OfferInput
  cancellation_policy : String → OfferInput
  renewal_policy : String → OfferInput
  endorsement_policy : String → OfferInput
  grievance_sla_policy : String → OfferInput

unfoldable pub change_offer : OfferInput → Offer → Offer
unfolding toggle_resource
change_offer (offer_id v) o = record o { id = v }
change_offer (resource v) o = toggle_resource v o
change_offer (inclusion v) o =
    let a = o.offer_attributes in
    record o { offer_attributes = record a { inclusions = toggle v a.inclusions } }
change_offer (special_exclusions i) o =
    let a = o.offer_attributes in
    record o {
      offer_attributes = record a { special_exclusions = change_strings i a.special_exclusions };
    }
change_offer (required_documents i) o =
    let a = o.offer_attributes in
    record o {
      offer_attributes = record a { required_documents = change_strings i a.required_documents };
    }
change_offer (claim_policy v) o =
    let a = o.offer_attributes in record o { offer_attributes = record a { claim_policy = v } }
change_offer (cancellation_policy v) o =
    let a = o.offer_attributes in
    record o { offer_attributes = record a { cancellation_policy = v } }
change_offer (renewal_policy v) o =
    let a = o.offer_attributes in record o { offer_attributes = record a { renewal_policy = v } }
change_offer (endorsement_policy v) o =
    let a = o.offer_attributes in
    record o { offer_attributes = record a { endorsement_policy = v } }
change_offer (grievance_sla_policy v) o =
    let a = o.offer_attributes in
    record o { offer_attributes = record a { grievance_sla_policy = v } }
