-- ===== src/Publish/Wizard/Whole.antt =====
-- The page from its first step to the page of success.
use ion_insurance_testapp.Prelude.{ℕ, true, false, ◌≡◌, refl, ap, ◌∙◌, List, [], ◌∷◌, ◌++◌}
use ion_insurance_testapp.Publish.Items.{Provider, Catalog, Resource, Offer}
use ion_insurance_testapp.Publish.Editor.{
  Kind, Editor, mount, taken, Press, open_panel, save, input, press,
}
use ion_insurance_testapp.Publish.Editor.Save.{IsIdle, save-input-open_panel}
use ion_insurance_testapp.Publish.Steps.{provider_kind, catalog_kind, resource_kind, offer_kind}
use ion_insurance_testapp.Publish.Submit.{Request, Reply, ok, publish_all}
use ion_insurance_testapp.Publish.Wizard.{
  Wizard, initial, can_advance, go_to, begin_publish, finish_publish, Action, next, on_providers,
  on_catalogs, on_resources, on_offers, publish, finished, act, act_all,
}
use ion_insurance_testapp.Publish.Wizard.Finish.{handle_publish}

-- The presses that add an item to the list of a step.
abbrev entered {ℓ} : {A : Type ℓ} → Kind A → A → Editor A → Editor A
entered k d e = press k save (press k (input (λ _. d)) (press k (open_panel k.blank) e))

mount-IsIdle {ℓ} : {A : Type ℓ} → (k : Kind A) → IsIdle (mount k [])
mount-IsIdle k = record { no_index = λ _. refl; no_error = λ _. refl }

entered-lem {ℓ} :
    {A : Type ℓ}
    → (k : Kind A) (d : A) → k.is_complete d ≡ true
    → entered k d (mount k []) ≡ mount k (d ∷ [])
unfolding taken
entered-lem k d full =
    save-input-open_panel k (mount k []) k.blank (λ _. d) (mount-IsIdle k) refl full refl

-- The page at step `n` with these lists.
abbrev at : ℕ → List Provider → List Catalog → List Resource → List Offer → Wizard
at n ps cs rs os = record {
  step = n;
  loading = false;
  success = false;
  error = "";
  providers = mount provider_kind ps;
  catalogs = mount catalog_kind cs;
  resources = mount resource_kind rs;
  offers = mount offer_kind os;
}

abbrev pub enter : {A : Type 0} → (Press A → Action) → Kind A → A → List Action
enter on k d = on (open_panel k.blank) ∷ on (input (λ _. d)) ∷ on save ∷ next ∷ []

module _ (p : Provider) (c : Catalog) (r : Resource) (o : Offer) where
  step_1 :
      provider_kind.is_complete p ≡ true
      → act_all (enter on_providers provider_kind p) initial ≡ at 2 (p ∷ []) [] [] []
  unfolding initial act can_advance go_to
  step_1 full =
      ap (λ e. act next (record initial { providers = e })) (entered-lem provider_kind p full)

  step_2 :
      catalog_kind.is_complete c ≡ true
      → act_all (enter on_catalogs catalog_kind c) (at 2 (p ∷ []) [] [] [])
        ≡ at 3 (p ∷ []) (c ∷ []) [] []
  unfolding act can_advance go_to
  step_2 full =
      ap (λ e. act next (record (at 2 (p ∷ []) [] [] []) { catalogs = e }))
        (entered-lem catalog_kind c full)

  step_3 :
      resource_kind.is_complete r ≡ true
      → act_all (enter on_resources resource_kind r) (at 3 (p ∷ []) (c ∷ []) [] [])
        ≡ at 4 (p ∷ []) (c ∷ []) (r ∷ []) []
  unfolding act can_advance go_to
  step_3 full =
      ap (λ e. act next (record (at 3 (p ∷ []) (c ∷ []) [] []) { resources = e }))
        (entered-lem resource_kind r full)

  step_4 :
      offer_kind.is_complete o ≡ true
      → act_all (enter on_offers offer_kind o) (at 4 (p ∷ []) (c ∷ []) (r ∷ []) [])
        ≡ at 5 (p ∷ []) (c ∷ []) (r ∷ []) (o ∷ [])
  unfolding act can_advance go_to
  step_4 full =
      ap (λ e. act next (record (at 4 (p ∷ []) (c ∷ []) (r ∷ []) []) { offers = e }))
        (entered-lem offer_kind o full)

-- With one complete provider, catalog, resource and offer entered in turn, the page comes to the
-- review with exactly these in its lists. Publishing then shows the page of success, if the server
-- accepts every request.
pub handle_publish-act_all :
    (server : List Request → Request → Reply) (p : Provider) (c : Catalog) (r : Resource)
    (o : Offer)
    → provider_kind.is_complete p ≡ true
    → catalog_kind.is_complete c ≡ true
    → resource_kind.is_complete r ≡ true
    → offer_kind.is_complete o ≡ true
    → (publish_all server (p ∷ []) (c ∷ []) (r ∷ []) (o ∷ []) []).0 ≡ ok tt
    → let reviewed =
        act_all
          (enter on_providers provider_kind p
            ++ enter on_catalogs catalog_kind c
            ++ enter on_resources resource_kind r
            ++ enter on_offers offer_kind o)
          initial in
      (reviewed.step ≡ 5)
      × (reviewed.providers.items ≡ p ∷ [])
      × (reviewed.catalogs.items ≡ c ∷ [])
      × (reviewed.resources.items ≡ r ∷ [])
      × (reviewed.offers.items ≡ o ∷ [])
      × ((handle_publish server reviewed).success ≡ true)
unfolding act handle_publish finish_publish begin_publish
handle_publish-act_all server p c r o full_p full_c full_r full_o accepted =
    let on_4 = enter on_offers offer_kind o in
    let on_34 = enter on_resources resource_kind r ++ on_4 in
    let on_234 = enter on_catalogs catalog_kind c ++ on_34 in
    let all =
      ap (act_all on_234) (step_1 p c r o full_p)
      ∙ (ap (act_all on_34) (step_2 p c r o full_c)
          ∙ (ap (act_all on_4) (step_3 p c r o full_r) ∙ step_4 p c r o full_o)) in
    let done =
      ap
        (λ out.
          (act (finished out) (act publish (at 5 (p ∷ []) (c ∷ []) (r ∷ []) (o ∷ [])))).success)
        accepted in
    (
      ap (λ w. w.step) all,
      ap (λ w. w.providers.items) all,
      ap (λ w. w.catalogs.items) all,
      ap (λ w. w.resources.items) all,
      ap (λ w. w.offers.items) all,
      ap (λ w. (handle_publish server w).success) all ∙ done,
    )
