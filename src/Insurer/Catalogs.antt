-- ===== src/Insurer/Catalogs.antt =====
-- CatalogsPage.jsx. App.jsx has no route for it.
use ion_insurance_testapp.Prelude.{false, List, [], ◌∷◌, Option, none, some, if◌then◌else◌, ◌>>=◌}
use ion_insurance_testapp.Js.{Value, str, get, is_nullish, truthy, ◌or◌}
use ion_insurance_testapp.Cards.{map_some}
use ion_insurance_testapp.Insurer.{Loaded, Outcome, answered, failed, items_of, list_among}

-- A failure, and an answer whose fields cannot be read, only end the loading.
unfoldable pub load_catalogs : Outcome → Loaded → Loaded
load_catalogs failed p = record p { loading = false }
load_catalogs (answered v) p =
    if is_nullish v
    then record p { loading = false }
    else record p { content = list_among ("catalogs" ∷ []) v; loading = false }

pub record CatalogRow : Type 0 where
  pub id : Value
  pub name : Value
  pub version : Value
  pub status : Value
  -- none where a dash is shown
  pub published_at : Option Value
  pub created_at : Option Value

abbrev date_of : Value → Option Value
date_of v = if truthy v then some v else none

-- Reading a field of null throws.
unfoldable pub catalog_row : Value → Option CatalogRow
catalog_row c =
    if is_nullish c
    then none
    else some (record {
      id = get c "id" or get c "catalog_id" or str "—";
      name = get c "name" or str "—";
      version = get c "version" or str "—";
      status = get c "cds_status" or get c "status";
      published_at = date_of (get c "published_at");
      created_at = date_of (get c "created_at");
    })

pub data CatalogsView : Type 0 where
  waiting : CatalogsView
  table : List CatalogRow → CatalogsView

unfoldable pub catalogs_view : Loaded → Option CatalogsView
unfolding catalog_row
catalogs_view p =
    if p.loading
    then some waiting
    else do cs ← items_of p.content; rows ← map_some catalog_row cs; some (table rows)
