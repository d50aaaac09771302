-- ===== src/Publish/Wizard/Finish.antt =====
-- The whole of `handlePublish` on the page.
use ion_insurance_testapp.Prelude.{List, []}
use ion_insurance_testapp.Publish.Submit.{Request, Reply, publish_all}
use ion_insurance_testapp.Publish.Wizard.{Wizard, publish, finished, act}

-- The press of Publish and, later, the end of its requests.
unfoldable pub handle_publish : (List Request → Request → Reply) → Wizard → Wizard
unfolding act
handle_publish server w =
    let outcome =
      (publish_all server w.providers.items w.catalogs.items w.resources.items w.offers.items
        []).0 in
    act (finished outcome) (act publish w)
