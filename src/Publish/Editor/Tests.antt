-- ===== src/Publish/Editor/Tests.antt =====
-- The theorems about the steps of PublishPage.jsx at a list of catalogs.
use ion_insurance_testapp.Prelude.{
  none, if◌then◌else◌, String, true, ◌≡◌, refl, [], ◌∷◌, some, arith, ne_of, get_elem?,
}
use ion_insurance_testapp.Js.{trim}
use ion_insurance_testapp.Publish.Items.{Catalog}
use ion_insurance_testapp.Publish.Editor.{
  Editor, mount, remove, taken, handle_add, edit, bin, open_panel, save, input, press,
  clash_message,
}
use ion_insurance_testapp.Publish.Editor.Ids.{Distinct, handle_add-Distinct}
use ion_insurance_testapp.Publish.Editor.Save.{
  IsIdle, press-IsIdle, save-input-edit, save-input-open_panel, save_clash,
}
use ion_insurance_testapp.Publish.Editor.ById.{by_id, is_old, save_in}
use ion_insurance_testapp.Publish.Editor.Refine.{edited, handle_add-save_in}
use ion_insurance_testapp.Publish.Editor.Stale.{add-add_untrimmed, save-bin-edit}
use ion_insurance_testapp.Publish.Steps.{catalog_kind}

abbrev named : String → Catalog
named id = record { id = id; name = "Motor"; version = "1.0.0"; provider_id = "P1" }

abbrev two : Editor Catalog
two = mount catalog_kind (named "A" ∷ named "B" ∷ [])

abbrev three : Editor Catalog
three = mount catalog_kind (named "A" ∷ named "B" ∷ named "C" ∷ [])

abbrev drafted : Editor Catalog
drafted = record two { drafting = true; draft = named "B" }

two-IsIdle : IsIdle two
two-IsIdle = record { no_index = λ _. refl; no_error = λ _. refl }

handle_add-Distinct_example :
    Distinct catalog_kind (handle_add catalog_kind (record two { draft = named "C" })).items
unfolding trim
handle_add-Distinct_example =
    handle_add-Distinct catalog_kind (record two { draft = named "C" })
      ((ne_of "B" "A" refl, tt), (tt, tt)) refl

abbrev renamed : Editor Catalog
renamed = record two { drafting = true; draft = named "C"; edit_idx = some 1 }

handle_add-save_in_example :
    (by_id catalog_kind (handle_add catalog_kind renamed).items "C"
      ≡ save_in catalog_kind
          (edited renamed.edit_idx renamed.items)
          renamed.draft
          (by_id catalog_kind renamed.items)
          "C")
    × (by_id catalog_kind (remove 0 renamed).items "C" ≡ (
        if is_old catalog_kind (get_elem? renamed.items 0) "C"
        then none
        else by_id catalog_kind renamed.items "C"))
unfolding trim
handle_add-save_in_example =
    handle_add-save_in catalog_kind renamed 0 "C" ((ne_of "B" "A" refl, tt), (tt, tt)) refl refl
      refl

press-IsIdle_test : IsIdle (press catalog_kind (edit 1) two)
press-IsIdle_test = press-IsIdle catalog_kind (edit 1) two two-IsIdle

save-input-edit_test :
    press catalog_kind save
      (press catalog_kind (input (λ _. named "C")) (press catalog_kind (edit 1) two))
    ≡ mount catalog_kind (named "A" ∷ named "C" ∷ [])
unfolding trim taken
save-input-edit_test =
    save-input-edit catalog_kind two 1 (named "B") (λ _. named "C") refl refl refl

save-input-open_panel_test :
    press catalog_kind save
      (press catalog_kind (input (λ _. named "C")) (press catalog_kind (open_panel (named "")) two))
    ≡ mount catalog_kind (named "A" ∷ named "B" ∷ named "C" ∷ [])
unfolding trim taken
save-input-open_panel_test =
    save-input-open_panel catalog_kind two (named "") (λ _. named "C") two-IsIdle refl refl refl

save_clash_test :
    press catalog_kind save drafted ≡ record drafted { field_error = clash_message "B" "catalog" }
unfolding trim taken
save_clash_test = save_clash catalog_kind drafted refl refl refl

add-add_untrimmed_example :
    let add = λ (e : Editor Catalog).
      press catalog_kind save (press catalog_kind (open_panel (named " C")) e) in
    add (add (mount catalog_kind (named "A" ∷ [])))
    ≡ mount catalog_kind (named "A" ∷ named " C" ∷ named " C" ∷ [])
unfolding trim taken
add-add_untrimmed_example =
    add-add_untrimmed catalog_kind (named "A" ∷ []) (named " C") refl (ne_of "C" " C" refl) refl

save-bin-edit_example :
    let saved = press catalog_kind save (
      press catalog_kind
        (input (λ _. named "D"))
        (press catalog_kind (bin 0) (press catalog_kind (edit 1) three))) in
    (get_elem? saved.items 0 ≡ some (named "B")) × (get_elem? saved.items 1 ≡ some (named "D"))
unfolding trim taken
save-bin-edit_example =
    save-bin-edit catalog_kind three 0 (named "B") (λ _. named "D") refl (omega arith) refl refl
