-- ===== src/Publish/Tests.antt =====
-- The theorems about PublishPage.jsx at concrete lists, drafts and servers.
use ion_insurance_testapp.Prelude.{
  suc, String, true, false, ◌≡◌, ◌≢◌, refl, List, [], ◌∷◌, ◌++◌, none, some, length, All, nonempty,
  ne_of, if◌then◌else◌,
}
use ion_insurance_testapp.Js.{trim, Fields, field, end, obj, str}
use ion_insurance_testapp.Publish.Items.{
  text, Provider, Catalog, Resource, Offer, Discount, blank_provider, blank_resource, blank_offer,
  coverage_inclusion_codes,
}
use ion_insurance_testapp.Publish.Forms.Lists.{toggle, includes, includes-toggle}
use ion_insurance_testapp.Publish.Forms.Discounts.{
  choose, percent, select_value, custom_shown, change_all, custom_unreachable,
}
use ion_insurance_testapp.Publish.Steps.{provider_kind, catalog_kind, resource_kind, offer_kind}
use ion_insurance_testapp.Publish.Steps.Linked.{
  Branch, review, IsNodup, linked_inclusions, available_inclusions, available_inclusions_lem,
  review-unowned,
}
use ion_insurance_testapp.Publish.Submit.{
  Request, Reply, done, failed, Failure, publish_all, post, db_resource, save_ids, error_text,
}
use ion_insurance_testapp.Publish.Nested.{set_nested, get_path, get_path-set_nested}
use ion_insurance_testapp.Publish.Submit.Stops.{Ends, publish_all-Ends, error_text-ne-empty}
use ion_insurance_testapp.Publish.Wizard.{
  on_catalogs, on_resources, on_offers, Wizard, initial, on_providers, act_all,
}
use ion_insurance_testapp.Publish.Wizard.Whole.{enter, handle_publish-act_all}
use ion_insurance_testapp.Publish.Wizard.Finish.{handle_publish}

abbrev named : String → Catalog
named id = record { id = id; name = "Motor"; version = "1.0.0"; provider_id = "P1" }

toggle_test : includes "FIRE" (toggle "FLOOD" ("FIRE" ∷ "FLOOD" ∷ [])) ≡ true
toggle_test = includes-toggle "FLOOD" "FIRE" ("FIRE" ∷ "FLOOD" ∷ [])

abbrev blank_discount : Discount
blank_discount = record { type = ""; discount_percent = text "" }

custom_unreachable_test :
    custom_shown (change_all (choose 8 ∷ percent "5" ∷ []) blank_discount) ≡ false
unfolding custom_shown select_value
custom_unreachable_test = custom_unreachable (choose 8 ∷ percent "5" ∷ []) blank_discount refl

abbrev insurer : Provider
insurer = record blank_provider { id = "P1" }

abbrev car : String → String → Resource
car id owner = record (blank_resource "") { id = id; provider_id = owner }

abbrev offer_of : String → Offer
offer_of id = record blank_offer { id = "O1"; resource_ids = id ∷ [] }

available_inclusions_lem_test :
    IsNodup (available_inclusions (car "R1" "P1" ∷ []) (offer_of "R1"))
    × (includes "FIRE" (available_inclusions (car "R1" "P1" ∷ []) (offer_of "R1")) ≡ (
        let linked = linked_inclusions (car "R1" "P1" ∷ []) (offer_of "R1").resource_ids in
        if nonempty linked
        then includes "FIRE" linked
        else includes "FIRE" coverage_inclusion_codes))
available_inclusions_lem_test = available_inclusions_lem (car "R1" "P1" ∷ []) (offer_of "R1") "FIRE"

review-unowned_test :
    All
      (λ (b : Branch). All (λ (x : Resource × List Offer). x.0.provider_id ≢ "") b.resources)
      (review (insurer ∷ []) [] (car "R1" "P1" ∷ car "R2" "" ∷ []) [])
review-unowned_test =
    review-unowned [] (car "R1" "P1" ∷ car "R2" "" ∷ []) [] (insurer ∷ []) (ne_of "P1" "" refl, tt)
      refl

-- A server that accepts everything, and one that refuses the third request.
abbrev accepting : List Request → Request → Reply
accepting sent r = done (some (suc (length sent))) none

abbrev down : Failure
down = record { detail = ""; body_message = ""; message = "Network Error" }

abbrev refusing : List Request → Request → Reply
refusing (_ ∷ _ ∷ []) r = failed down
refusing sent r = done (some 1) none

publish_all-Ends_example :
    let run =
      publish_all refusing
        (insurer ∷ [])
        (named "A" ∷ [])
        (car "R1" "P1" ∷ [])
        (offer_of "R1" ∷ [])
        [] in
    Ends refusing run.0 run.1
publish_all-Ends_example =
    publish_all-Ends refusing (insurer ∷ []) (named "A" ∷ []) (car "R1" "P1" ∷ [])
      (offer_of "R1" ∷ [])

error_text_test : error_text down ≢ ""
error_text_test = error_text-ne-empty down

abbrev last_step : Wizard
last_step = record initial { step = 5 }

abbrev full_insurer : Provider
full_insurer = record insurer {
  descriptor = record { name = "Maju"; short_desc = ""; long_desc = "" };
}

abbrev full_car : Resource
full_car = record (car "R1" "P1") {
  descriptor = record { name = "Motor"; short_desc = ""; long_desc = "" };
}

handle_publish-act_all_example :
    let reviewed =
      act_all
        (enter on_providers provider_kind full_insurer
          ++ enter on_catalogs catalog_kind (named "A")
          ++ enter on_resources resource_kind full_car
          ++ enter on_offers offer_kind (offer_of "R1"))
        initial in
    (reviewed.step ≡ 5)
    × (reviewed.providers.items ≡ full_insurer ∷ [])
    × (reviewed.catalogs.items ≡ named "A" ∷ [])
    × (reviewed.resources.items ≡ full_car ∷ [])
    × (reviewed.offers.items ≡ offer_of "R1" ∷ [])
    × ((handle_publish accepting reviewed).success ≡ true)
unfolding publish_all save_ids post db_resource trim
handle_publish-act_all_example =
    handle_publish-act_all accepting full_insurer (named "A") full_car (offer_of "R1") refl refl
      refl refl refl

abbrev draft_fields : Fields
draft_fields =
    field "id" (str "C-1") (field "descriptor" (obj (field "name" (str "Motor") end)) end)

get_path-set_nested_example :
    (get_path
        (obj (set_nested draft_fields "descriptor" ("name" ∷ []) (str "Car")))
        ("descriptor" ∷ "name" ∷ [])
      ≡ str "Car")
    × (get_path (obj (set_nested draft_fields "descriptor" ("name" ∷ []) (str "Car"))) ("id" ∷ [])
        ≡ get_path (obj draft_fields) ("id" ∷ []))
get_path-set_nested_example =
    get_path-set_nested draft_fields "descriptor" ("name" ∷ []) (str "Car") "id" [] refl
