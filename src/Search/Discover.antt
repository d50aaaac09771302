-- ===== src/Search/Discover.antt =====
-- HeroPage.jsx, parseDiscoverResponse: the products in an answer of `/discover`.
use ion_insurance_testapp.Prelude.{List, [], ◌∷◌, ◌++◌, Option, none, some, if◌then◌else◌, ◌>>=◌}
use ion_insurance_testapp.Js.{
  fields_of, Value, str, arr, obj, Items, nil, item, Fields, end, field, ◌or◌, get, is_nullish,
  truthy,
}

-- `{ ...fs, ...gs }`: the fields of `gs` hide those of `fs`.
abbrev pub spread : Fields → Fields → Fields
spread fs end = fs
spread fs (field k v gs) = field k v (spread fs gs)

-- The object made of one resource, for the names of its catalog.
unfoldable pub product_of : (insurer_name bpp_id resource : Value) → Value
product_of insurer_name bpp_id resource = obj (
    field "bpp_id" bpp_id (
      field "insurer_name" insurer_name (
        spread (field "descriptor" (get resource "descriptor") (field "id" (get resource "id") end))
          (fields_of (get resource "resourceAttributes")))))

-- Reading a field of null or undefined throws, which is `none`.
abbrev pub products_of : (insurer_name bpp_id : Value) → Items → Option (List Value)
products_of insurer_name bpp_id nil = some []
products_of insurer_name bpp_id (item r rs) =
    let rest = products_of insurer_name bpp_id rs in
    if is_nullish r then none else rest >>= λ ps. some (product_of insurer_name bpp_id r ∷ ps)

-- `(v || []).map(...)` and `(v || []).flatMap(...)` throw on what is no array.
abbrev elements : Value → Option Items
elements (arr vs) = some vs
elements v = if truthy v then none else some nil

unfoldable pub insurer_of : Value → Value
insurer_of catalog =
    get (get (get catalog "provider") "descriptor") "name"
    or get (get catalog "descriptor") "name"
    or get catalog "id"
    or str "Insurer"

abbrev from_catalogs : Value → Items → Option (List Value)
from_catalogs bpp_id nil = some []
from_catalogs bpp_id (item c cs) =
    let rest = from_catalogs bpp_id cs in
    if is_nullish c then none else do
      rs ← elements (get c "resources")
      ps ← products_of (insurer_of c) (bpp_id or get c "id") rs
      more ← rest
      some (ps ++ more)

unfoldable pub parse_discover_response : Value → Option (List Value)
parse_discover_response answer = elements (get (get answer "message") "catalogs") >>= λ cs.
    from_catalogs (get (get answer "context") "bpp_id") cs
