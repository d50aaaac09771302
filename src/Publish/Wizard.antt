-- ===== src/Publish/Wizard.antt =====
-- PublishPage.jsx, the page itself: its five steps, and what may be pressed when.
pub mod Reach
pub mod Finish
pub mod Whole
use ion_insurance_testapp.Prelude.{
  ℕ, suc, ◌+◌, ◌-◌, String, Bool, true, false, not, ◌&&◌, List, [], ◌∷◌, ◌==◌, ltb, if◌then◌else◌,
  nonempty,
}
use ion_insurance_testapp.Publish.Items.{Provider, Catalog, Resource, Offer}
use ion_insurance_testapp.Publish.Editor.{Editor, mount, Press, press}
use ion_insurance_testapp.Publish.Steps.{provider_kind, catalog_kind, resource_kind, offer_kind}
use ion_insurance_testapp.Publish.Submit.{Outcome, ok, err, error_text}

-- The page's lists are the items of the four editors. Only the editor of the current step is on
-- the page; the others stand as they will be mounted.
pub record Wizard : Type 0 where
  pub step : ℕ
  pub loading : Bool
  pub success : Bool
  pub error : String
  pub providers : Editor Provider
  pub catalogs : Editor Catalog
  pub resources : Editor Resource
  pub offers : Editor Offer

unfoldable pub initial : Wizard
initial = record {
  step = 1;
  loading = false;
  success = false;
  error = "";
  providers = mount provider_kind [];
  catalogs = mount catalog_kind [];
  resources = mount resource_kind [];
  offers = mount offer_kind [];
}

unfoldable pub can_advance : Wizard → Bool
can_advance w =
    if w.step == 1
    then nonempty w.providers.items
    else if w.step == 2
    then nonempty w.catalogs.items
    else if w.step == 3
    then nonempty w.resources.items
    else if w.step == 4
    then nonempty w.offers.items
    else true

-- `setStep`, after which React mounts the step anew.
unfoldable pub go_to : ℕ → Wizard → Wizard
go_to n w = record w {
  step = n;
  providers = mount provider_kind w.providers.items;
  catalogs = mount catalog_kind w.catalogs.items;
  resources = mount resource_kind w.resources.items;
  offers = mount offer_kind w.offers.items;
}

-- `handlePublish` begins, and ends with the outcome of its requests.
unfoldable pub begin_publish : Wizard → Wizard
begin_publish w = record w { loading = true; error = "" }

unfoldable pub finish_publish : Outcome (Unit {0}) → Wizard → Wizard
finish_publish (ok _) w = record w { success = true; loading = false }
finish_publish (err f) w = record w { error = error_text f; loading = false }

unfoldable pub reset_all : Wizard → Wizard
reset_all w = record w {
  success = false;
  step = 1;
  error = "";
  providers = mount provider_kind [];
  catalogs = mount catalog_kind [];
  resources = mount resource_kind [];
  offers = mount offer_kind [];
}

pub data Action : Type 0 where
  next : Action
  back : Action
  on_providers : Press Provider → Action
  on_catalogs : Press Catalog → Action
  on_resources : Press Resource → Action
  on_offers : Press Offer → Action
  publish : Action
  finished : Outcome (Unit {0}) → Action
  reset : Action

-- What stands on the page at its steps; the page of success replaces all of it.
abbrev at_step : ℕ → Wizard → Bool
at_step n w = not w.success && w.step == n

unfoldable pub act : Action → Wizard → Wizard
unfolding can_advance go_to begin_publish finish_publish reset_all
act next w = if not w.success && (ltb w.step 5 && can_advance w) then go_to (suc w.step) w else w
act back w = if not w.success && not (w.step == 1) then go_to (w.step - 1) w else w
act (on_providers p) w =
    if at_step 1 w then record w { providers = press provider_kind p w.providers } else w
act (on_catalogs p) w =
    if at_step 2 w then record w { catalogs = press catalog_kind p w.catalogs } else w
act (on_resources p) w =
    if at_step 3 w then record w { resources = press resource_kind p w.resources } else w
act (on_offers p) w = if at_step 4 w then record w { offers = press offer_kind p w.offers } else w
act publish w = if at_step 5 w && not w.loading then begin_publish w else w
act (finished o) w = if w.loading then finish_publish o w else w
act reset w = if w.success then reset_all w else w

abbrev pub act_all : List Action → Wizard → Wizard
act_all [] w = w
act_all (a ∷ more) w = act_all more (act a w)
