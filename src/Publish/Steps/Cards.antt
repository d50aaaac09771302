-- ===== src/Publish/Steps/Cards.antt =====
-- PublishPage.jsx: the cards that the four steps show for their items.
use ion_insurance_testapp.Prelude.{
  String, List, [], ◌∷◌, map, Option, none, some, keep, length, nonempty, if◌then◌else◌,
}
use ion_insurance_testapp.Js.{is_empty, or_text, concat, join, show_ℕ}
use ion_insurance_testapp.Publish.Items.{Provider, Catalog, Resource, Offer}
use ion_insurance_testapp.Publish.Forms.Lists.{includes}
use ion_insurance_testapp.Publish.Steps.{linked_provider}

-- `ItemCard`, without its buttons
pub record ItemCard : Type 0 where
  pub title : String
  pub subtitle : String
  pub meta : Option String
  pub badge : Option String

unfoldable pub provider_card : Provider → ItemCard
provider_card p =
    let license = p.provider_attributes.ojk_license_number in
    record {
      title = p.descriptor.name;
      subtitle = concat ("ID: " ∷ p.id ∷ []);
      meta = if is_empty license then none else some (concat ("OJK: " ∷ license ∷ []));
      badge = none;
    }

unfoldable pub catalog_card : List Provider → Catalog → ItemCard
unfolding linked_provider
catalog_card providers c =
    let subtitle = concat ("ID: " ∷ c.id ∷ " · v" ∷ c.version ∷ []) in
    elim (linked_provider c.provider_id providers) [
      | none ↦ record {
        title = c.name;
        subtitle = subtitle;
        meta = some (concat ("Provider: " ∷ c.provider_id ∷ []));
        badge = some "Unlinked";
      }
      | some p ↦ record {
        title = c.name;
        subtitle = subtitle;
        meta = some (concat ("Provider: " ∷ p.descriptor.name ∷ []));
        badge = none;
      }
    ]

unfoldable pub resource_card : List Provider → Resource → ItemCard
unfolding linked_provider
resource_card providers r =
    let a = r.resource_attributes in
    let owner : String = elim (linked_provider r.provider_id providers) [
      | none ↦ ""
      | some p ↦ concat (" · Provider: " ∷ p.descriptor.name ∷ [])
    ] in
    record {
      title = or_text r.descriptor.name r.id;
      subtitle = concat (a.product_type ∷ " · " ∷ a.vehicle_type ∷ " · " ∷ a.tariff_zone ∷ []);
      meta = some (concat ("ID: " ∷ r.id ∷ owner ∷ []));
      badge = none;
    }

unfoldable pub offer_card : List Resource → Offer → ItemCard
offer_card resources o =
    let linked = keep (λ (r : Resource). includes r.id o.resource_ids) resources in
    let a = o.offer_attributes in
    record {
      title = o.id;
      subtitle =
          if nonempty linked
          then concat (
              "Resources: "
              ∷ join ", " (map (λ (r : Resource). or_text r.descriptor.name r.id) linked)
              ∷ [])
          else "No resources linked";
      meta = some (
          concat (
            show_ℕ (length a.inclusions)
            ∷ " inclusions · "
            ∷ show_ℕ (length a.required_documents)
            ∷ " required docs"
            ∷ []));
      badge = none;
    }
